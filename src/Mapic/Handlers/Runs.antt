-- ===== src/Mapic/Handlers/Runs.antt =====
-- The handlers of mapic/mistapiconnector_app.go in any order: the map of the streams stays good.
use dms_api.Prelude.{
  ℕ, String, Bool, Option, none, some, List, [], ◌∷◌, str_eq, inl, inr, Bool-cases, length, ◌==◌,
  not, ◌&&◌,
}
use dms_api.Prelude.Text.{split}
use dms_api.Mapic.{Api, StreamInfo, StreamInfos, PushStatus, MistState}
use dms_api.Mapic.Names.{mist_stream_name_to_playback_id, is_ingest_source}
use dms_api.Mapic.Push.{push_step, waited, ended, removed, wait_over, end_push, disconnect}
use dms_api.Mapic.Push.Laws.{push_step-error_count}
use dms_api.Mapic.Streams.{get_stream_info, remove_info}
use dms_api.Mapic.Handlers.{KeyAnswer, Config, handle_stream_buffer, handle_push_rewrite}
use dms_api.Mapic.Handlers.Store.{
  handle_push_end, handle_push_out_start, finish_wait, emit_disconnected, reconcile_streams,
  refresh_known, refresh_stream_if_needed, handle_live_track_list,
}
use dms_api.Mapic.Handlers.Sound.{
  IsGood, remove-IsGood, refresh-IsGood, IsLookup, get_stream_info-IsLookup,
}
use dms_api.Mapic.Handlers.Laws.{
  buffer-IsGood, answer-IsGood, at_push-IsGood, found_then-IsGood, Bounds,
}

waited-Bounds : (now : ℕ) (i : Bool) → Bounds (wait_over now i)
unfolding Bounds push_step
waited-Bounds now i stopped p h = push_step-error_count (waited now i stopped) p h

end-Bounds : (now : ℕ) → Bounds (end_push now)
unfolding Bounds push_step
end-Bounds now stopped p h = push_step-error_count (ended now stopped) p h

removed-Bounds : (now : ℕ) → Bounds (λ stopped. disconnect now)
unfolding Bounds push_step
removed-Bounds now stopped p h = push_step-error_count (removed now) p h

-- A call of a handler, or of one of its goroutines, with what it is given.
data HandlerCall : Type 0 where
  stream_buffer : String → String → String → HandlerCall
  push_rewrite : Config → String → String → String → ℕ → HandlerCall
  live_track_list : String → HandlerCall
  push_out_start : String → String → HandlerCall
  wait_ended : ℕ → String → String → Bool → Option PushStatus → HandlerCall
  push_ended : ℕ → String → String → HandlerCall
  push_removed : ℕ → String → String → HandlerCall
  streams_reconciled : String → MistState → List String → HandlerCall
  stream_refreshed : String → String → HandlerCall
  info_removed : String → HandlerCall

module _ (api : Api) (by_key : String → KeyAnswer) where
  -- The map after a call.
  unfoldable after_call : HandlerCall → StreamInfos → StreamInfos
  unfolding handle_stream_buffer handle_push_rewrite handle_live_track_list handle_push_out_start
      finish_wait handle_push_end emit_disconnected reconcile_streams refresh_stream_if_needed
      remove_info
  after_call (stream_buffer base state name) m = (handle_stream_buffer api base state name m).0
  after_call (push_rewrite c scheme path key now) m =
      (handle_push_rewrite by_key c scheme path key now m).1
  after_call (live_track_list name) m = handle_live_track_list api name m
  after_call (push_out_start name url) m = (handle_push_out_start api name url m).1.0
  after_call (wait_ended now k url increased p) m = (finish_wait now k url increased p m).0
  after_call (push_ended now name url) m = (handle_push_end api now name url m).0
  after_call (push_removed now k url) m = (emit_disconnected now k url m).0
  after_call (streams_reconciled base state names) m = (reconcile_streams api base state names m).0
  after_call (stream_refreshed base k) m = (refresh_stream_if_needed api base k m).0
  after_call (info_removed k) m = remove_info k m

  unfoldable after_calls : List HandlerCall → StreamInfos → StreamInfos
  unfolding after_call
  after_calls [] m = m
  after_calls (c ∷ cs) m = after_calls cs (after_call c m)

  lookup-IsGood :
      (name : String) (m : StreamInfos) → IsGood m → IsGood (get_stream_info api name m).1
  unfolding IsLookup
  lookup-IsGood name m h = (get_stream_info-IsLookup api name m h).0

  reconcile-IsGood :
      (base : String) (state : MistState) (names : List String) (m : StreamInfos)
      → IsGood m
      → IsGood (reconcile_streams api base state names m).0
  unfolding reconcile_streams
  reconcile-IsGood base state [] m h = h
  reconcile-IsGood base state (name ∷ names) m h = elim (Bool-cases (is_ingest_source state name)) [
    | inl e ↦
        rw e (
          reconcile-IsGood base state names (get_stream_info api name m).1 (lookup-IsGood name m h))
    | inr e ↦ rw e (reconcile-IsGood base state names m h)
  ]

  known-IsGood :
      (base k : String) (m : StreamInfos) (o : Option StreamInfo)
      → IsGood m
      → IsGood (refresh_known api base k m o).0
  unfolding refresh_known
  known-IsGood base k m none h = h
  known-IsGood base k m (some si) h = refresh-IsGood api k m h

  rewrite-IsGood :
      (c : Config) (scheme path key : String) (now : ℕ) (m : StreamInfos)
      → IsGood m
      → IsGood (handle_push_rewrite by_key c scheme path key now m).1
  unfolding handle_push_rewrite
  rewrite-IsGood c scheme path key now m h =
      elim (Bool-cases (str_eq scheme "rtmp" && not (length (split 47 path) == 3))) [
        | inl e ↦ rw e h
        | inr e ↦ rw e (answer-IsGood c key now m (by_key key) h)
      ]

  after_call-IsGood : (c : HandlerCall) (m : StreamInfos) → IsGood m → IsGood (after_call c m)
  unfolding after_call handle_stream_buffer handle_live_track_list handle_push_out_start finish_wait
      handle_push_end emit_disconnected refresh_stream_if_needed
  after_call-IsGood (stream_buffer base state name) m h = buffer-IsGood api _ _ m h
  after_call-IsGood (push_rewrite c scheme path key now) m h =
      rewrite-IsGood c scheme path key now m h
  after_call-IsGood (live_track_list name) m h = refresh-IsGood api _ m h
  after_call-IsGood (push_out_start name url) m h =
      found_then-IsGood _ _ _ (λ n g. g)
        (get_stream_info-IsLookup api (mist_stream_name_to_playback_id name) m h)
  after_call-IsGood (wait_ended now k url i none) m h =
      at_push-IsGood (wait_over now i) k url m (waited-Bounds now i) h
  after_call-IsGood (wait_ended now k url i (some p)) m h = h
  after_call-IsGood (push_ended now name url) m h =
      found_then-IsGood _ _ _ (λ n g. at_push-IsGood (end_push now) _ url n (end-Bounds now) g)
        (get_stream_info-IsLookup api (mist_stream_name_to_playback_id name) m h)
  after_call-IsGood (push_removed now k url) m h =
      at_push-IsGood (λ stopped. disconnect now) k url m (removed-Bounds now) h
  after_call-IsGood (streams_reconciled base state names) m h =
      reconcile-IsGood base state names m h
  after_call-IsGood (stream_refreshed base k) m h = known-IsGood base k m _ h
  after_call-IsGood (info_removed k) m h = remove-IsGood k m h

  after_calls-from :
      (cs : List HandlerCall) (m : StreamInfos) → IsGood m → IsGood (after_calls cs m)
  unfolding after_calls
  after_calls-from [] m h = h
  after_calls-from (c ∷ cs) m h = after_calls-from cs (after_call c m) (after_call-IsGood c m h)

  -- However the handlers and their goroutines follow each other from an empty map: no playback id
  -- has two entries, no entry has a push URL twice, and no error count is above three.
  after_calls-IsGood : (cs : List HandlerCall) → IsGood (after_calls cs [])
  after_calls-IsGood cs = after_calls-from cs [] (tt, tt)
