-- ===== src/Mapic/Handlers/Laws.antt =====
-- The handlers of mapic/mistapiconnector_app.go: the invariant of the map of the streams.
use dms_api.Prelude.{
  ℕ, ◌≤◌, ◌≡◌, refl, String, Bool, true, false, Option, none, some, str_eq, if_both,
}
use dms_api.Prelude.Dict.{get, put, put-IsDistinct, put-AllEntries, get-AllEntries}
use dms_api.Result.{Result, ok, err}
use dms_api.Mapic.{Api, Stream, StreamInfo, StreamInfos, PushStatus}
use dms_api.Mapic.Names.{mist_stream_name_to_playback_id}
use dms_api.Mapic.Push.{Outcome}
use dms_api.Mapic.Streams.{get_stream_info, remove_info}
use dms_api.Mapic.Handlers.Sound.{
  IsBounded, IsSound, IsGood, put-IsGood, remove-IsGood, IsLookup, get_stream_info-IsLookup,
}
use dms_api.Mapic.Handlers.{
  KeyAnswer, found, not_exists, nil_stream, key_failed, Config, Handled, set_state, mark_stopped,
  accept, buffer_changed, answer_key, ingest_info,
}
use dms_api.Mapic.Handlers.Store.{change_push, change_entry, at_push, found_then}

-- The handlers.
set_state-IsGood :
    (active : Bool) (k : String) (l : Result StreamInfo × StreamInfos)
    → IsLookup (mist_stream_name_to_playback_id k) l
    → IsGood (set_state active k l).0
unfolding set_state IsLookup mark_stopped
set_state-IsGood active k (err e, m) h = h.0
set_state-IsGood true k (ok si, m) h = h.0
set_state-IsGood false k (ok si, m) h =
    put-IsGood (mist_stream_name_to_playback_id k) (mark_stopped si) m (h.1 si refl) h.0

pub buffer-IsGood :
    (api : Api) (k : String) (a : Option Bool) (m : StreamInfos)
    → IsGood m
    → IsGood (buffer_changed api k a m).0
unfolding buffer_changed
buffer-IsGood api k none m h = h
buffer-IsGood api k (some active) m h =
    set_state-IsGood active k (get_stream_info api k m) (get_stream_info-IsLookup api k m h)

accept-IsGood :
    (c : Config) (s : Stream) (now : ℕ) (m : StreamInfos) → IsGood m → IsGood (accept c s now m).1
unfolding accept
accept-IsGood c s now m h =
    if_both IsGood (str_eq s.playback_id "") m
      (put s.playback_id (ingest_info s now) (remove_info s.playback_id m)) (λ _. h)
      (λ _.
        put-IsGood s.playback_id (ingest_info s now) (remove_info s.playback_id m) (tt, tt)
          (remove-IsGood s.playback_id m h))

pub answer-IsGood :
    (c : Config) (key : String) (now : ℕ) (m : StreamInfos) (a : KeyAnswer)
    → IsGood m
    → IsGood (answer_key c key now m a).1
unfolding answer_key
answer-IsGood c key now m (found s) h = accept-IsGood c s now m h
answer-IsGood c key now m not_exists h = h
answer-IsGood c key now m nil_stream h = h
answer-IsGood c key now m (key_failed e) h = h

unfoldable pub Bounds : (Bool → PushStatus → Outcome) → Type 0
Bounds f = (stopped : Bool) (p : PushStatus) → p.error_count ≤ 3 → (f stopped p).0.error_count ≤ 3

change_push-IsGood :
    (k url : String) (si : StreamInfo) (f : Bool → PushStatus → Outcome) (m : StreamInfos)
    (o : Option PushStatus)
    → Bounds f
    → get url si.pushes ≡ o
    → IsSound k si
    → IsGood m
    → IsGood (change_push k url si f m o).0
unfolding change_push Bounds
change_push-IsGood k url si f m none b e s h = h
change_push-IsGood k url si f m (some p) b e s h =
    let q = (f si.stopped p).0 in
    put-IsGood k (record si { pushes = put url q si.pushes }) m
      (
        put-IsDistinct url q si.pushes s.0,
        put-AllEntries IsBounded url q si.pushes
            (b si.stopped p (get-AllEntries IsBounded url p si.pushes s.1 e)) s.1,
      )
      h

change_entry-IsGood :
    (k url : String) (f : Bool → PushStatus → Outcome) (m : StreamInfos) (o : Option StreamInfo)
    → Bounds f
    → get k m ≡ o
    → IsGood m
    → IsGood (change_entry k url f m o).0
unfolding change_entry
change_entry-IsGood k url f m none b e h = h
change_entry-IsGood k url f m (some si) b e h =
    change_push-IsGood k url si f m (get url si.pushes) b refl (get-AllEntries IsSound k si m h.1 e)
      h

pub at_push-IsGood :
    (f : Bool → PushStatus → Outcome) (k url : String) (m : StreamInfos)
    → Bounds f
    → IsGood m
    → IsGood (at_push f k url m).0
unfolding at_push
at_push-IsGood f k url m b h = change_entry-IsGood k url f m (get k m) b refl h

pub found_then-IsGood :
    (k : String) (l : Result StreamInfo × StreamInfos) (f : StreamInfos → Handled)
    → ((m : StreamInfos) → IsGood m → IsGood (f m).0)
    → IsLookup k l
    → IsGood (found_then l f).0
unfolding found_then IsLookup
found_then-IsGood k (err e, m) f p h = h.0
found_then-IsGood k (ok si, m) f p h = p m h.0
