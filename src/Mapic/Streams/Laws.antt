-- ===== src/Mapic/Streams/Laws.antt =====
-- The map of the streams of mapic/mistapiconnector_app.go: what an entry holds after a refresh.
use dms_api.Prelude.{
  ◌≡◌, refl, sym, ap, ◌∙◌, String, Option, none, some, List, [], ◌∷◌, arith, str_eq, eq_iff,
  if◌then◌else◌, inl, inr, Bool-cases,
}
use dms_api.Prelude.Dict.{Dict, get, put, get-put, IsDistinct, put-IsDistinct}
use dms_api.Result.{Result, ok, err}
use dms_api.Mapic.{quiet, Api, Stream, StreamInfo, StreamInfos, PushStatus, Target, TargetRef}
use dms_api.Mapic.Names.{get_push_url}
use dms_api.Mapic.Push.{new_push, update_target}
use dms_api.Mapic.Streams.{
  add_push, new_pushes, kept, merge_pushes, is_listed, keep_listed, refreshed_info,
  refresh_stream_info, store_refreshed,
}

-- The status of a push URL, from the one the API asks for and the one there was.
abbrev pub merged : Option PushStatus → Option PushStatus → Option PushStatus
merged none old = old
merged (some n) old = some (kept old n)

abbrev pub synced : Option PushStatus → Option PushStatus → Option PushStatus
synced none old = none
synced (some n) none = some n
synced (some n) (some p) = some record {
  target = n.target;
  profile = n.profile;
  last_event = p.last_event;
  last_event_at = p.last_event_at;
  error_count = p.error_count;
}

merged-put :
    (j u : String) (n : PushStatus) (new m : Dict PushStatus)
    → get j new ≡ none
    → merged (get u new) (get u (put j (kept (get j m) n) m))
      ≡ merged (if str_eq j u then some n else get u new) (get u m)
merged-put j u n new m h = elim (Bool-cases (str_eq j u)) [
  | inl e ↦
      let q : j ≡ u = (eq_iff j u).0 e in
      let g : get u new ≡ none = ap (λ t. get t new) (sym q) ∙ h in
      rw (e, g, get-put j u (kept (get j m) n) m, e) (ap (λ t. some (kept (get t m) n)) q)
  | inr e ↦ rw (e, get-put j u (kept (get j m) n) m, e) refl
]

get-merge_pushes :
    (u : String) (new m : Dict PushStatus)
    → IsDistinct new
    → get u (merge_pushes new m) ≡ merged (get u new) (get u m)
unfolding merge_pushes get
get-merge_pushes u [] m h = refl
get-merge_pushes u ((j, n) ∷ new) m h =
    get-merge_pushes u new (put j (kept (get j m) n) m) h.1 ∙ merged-put j u n new m h.0

pub get-keep_listed :
    (u : String) (new m : Dict PushStatus)
    → get u (keep_listed new m) ≡ (if is_listed (get u new) then get u m else none)
unfolding keep_listed get
get-keep_listed u new [] = ground arith
get-keep_listed u new ((j, p) ∷ m) = elim (Bool-cases (str_eq j u)) [
  | inl e ↦
      let q : get j new ≡ get u new = ap (λ t. get t new) ((eq_iff j u).0 e) in
      ground (arith, get-keep_listed u new m, e, q)
  | inr e ↦ ground (arith, get-keep_listed u new m, e)
]

add_push-IsDistinct :
    (profile : String) (r : Result (Target × String)) (m : Dict PushStatus)
    → IsDistinct m
    → IsDistinct (add_push profile r m)
unfolding add_push
add_push-IsDistinct profile (err e) m h = h
add_push-IsDistinct profile (ok (t, url)) m h = put-IsDistinct url (new_push t profile) m h

pub new_pushes-IsDistinct :
    (api : Api) (s : Stream) (rs : List TargetRef) (m : Dict PushStatus)
    → IsDistinct m
    → IsDistinct (new_pushes api s rs m)
unfolding new_pushes
new_pushes-IsDistinct api s [] m h = h
new_pushes-IsDistinct api s (r ∷ rs) m h =
    new_pushes-IsDistinct api s rs (add_push r.profile (get_push_url api s r) m)
      (add_push-IsDistinct r.profile (get_push_url api s r) m h)

synced-listed :
    (n old : Option PushStatus) → (if is_listed n then merged n old else none) ≡ synced n old
unfolding is_listed update_target
synced-listed none old = refl
synced-listed (some n) none = refl
synced-listed (some n) (some p) = refl

get-refreshed :
    (u : String) (new m : Dict PushStatus)
    → IsDistinct new
    → get u (keep_listed new (merge_pushes new m)) ≡ synced (get u new) (get u m)
get-refreshed u new m h =
    get-keep_listed u new (merge_pushes new m)
    ∙ rw (get-merge_pushes u new m h) (synced-listed (get u new) (get u m))

-- A status for the first time.
synced-new : (n : Option PushStatus) → synced n n ≡ synced n none
unfolding update_target
synced-new none = refl
synced-new (some n) = refl

abbrev pub old_pushes : Option StreamInfo → Dict PushStatus
old_pushes none = []
old_pushes (some si) = si.pushes

get-refreshed_info :
    (s : Stream) (new : Dict PushStatus) (old : Option StreamInfo) (u : String)
    → IsDistinct new
    → get u (refreshed_info s new old).pushes ≡ synced (get u new) (get u (old_pushes old))
unfolding refreshed_info
get-refreshed_info s new none u h = get-refreshed u new new h ∙ unfold get in synced-new (get u new)
get-refreshed_info s new (some si) u h = get-refreshed u new si.pushes h

-- The push that a target of the API asks for at a URL: one that has no event yet.
abbrev pub push_of : String → String → Result (Target × String) → Option PushStatus
push_of u profile (err e) = none
push_of u profile (ok (t, v)) =
    if str_eq v u
    then some record {
      target = t;
      profile = profile;
      last_event = quiet;
      last_event_at = 0;
      error_count = 0;
    }
    else none

abbrev pub later_one : Option PushStatus → Option PushStatus → Option PushStatus
later_one none p = p
later_one (some q) p = some q

-- The push that the API asks for at a URL: that of the last of the targets with this URL.
abbrev pub api_push : Api → Stream → String → List TargetRef → Option PushStatus
api_push api s u [] = none
api_push api s u (r ∷ rs) =
    later_one (api_push api s u rs) (push_of u r.profile (get_push_url api s r))

get-add_push :
    (u profile : String) (r : Result (Target × String)) (m : Dict PushStatus)
    → get u (add_push profile r m) ≡ later_one (push_of u profile r) (get u m)
unfolding add_push
get-add_push u profile (err e) m = refl
get-add_push u profile (ok (t, v)) m = elim (Bool-cases (str_eq v u)) [
  | inl e ↦ rw (get-put v u (new_push t profile) m, e) refl
  | inr e ↦ rw (get-put v u (new_push t profile) m, e) refl
]

later_one_assoc :
    (a b c : Option PushStatus) → later_one a (later_one b c) ≡ later_one (later_one a b) c
later_one_assoc none b c = refl
later_one_assoc (some x) b c = refl

later_one-none : (a : Option PushStatus) → later_one a none ≡ a
later_one-none none = refl
later_one-none (some x) = refl

get-new_pushes :
    (api : Api) (s : Stream) (u : String) (rs : List TargetRef) (m : Dict PushStatus)
    → get u (new_pushes api s rs m) ≡ later_one (api_push api s u rs) (get u m)
unfolding new_pushes
get-new_pushes api s u [] m = refl
get-new_pushes api s u (r ∷ rs) m =
    get-new_pushes api s u rs (add_push r.profile (get_push_url api s r) m)
    ∙ ap (later_one (api_push api s u rs)) (get-add_push u r.profile (get_push_url api s r) m)
    ∙ later_one_assoc (api_push api s u rs) (push_of u r.profile (get_push_url api s r)) (get u m)

get-targets :
    (api : Api) (s : Stream) (u : String)
    → get u (new_pushes api s s.targets []) ≡ api_push api s u s.targets
unfolding get
get-targets api s u =
    get-new_pushes api s u s.targets [] ∙ later_one-none (api_push api s u s.targets)

-- The pushes that the API asks for, and the entry after a refresh.
abbrev pub targets : Api → Stream → Dict PushStatus
targets api s = new_pushes api s s.targets []

abbrev pub entry : Api → String → StreamInfos → Stream → StreamInfo
entry api playback_id infos s = refreshed_info s (targets api s) (get playback_id infos)

module _ (api : Api) (playback_id : String) (infos : StreamInfos) (s : Stream) where
  -- When the API returns a stream, the refresh succeeds and stores the entry it returns, no other
  -- entry changes, and its push URLs are those that the API's targets give, each with the target
  -- and the profile of the last target that gives it: one that was there keeps its last event and
  -- its error count, and one that was not begins with no event and no error.
  pub refresh_stream_info-pushes :
      api.stream_by_playback_id playback_id ≡ ok s
      → (refresh_stream_info api playback_id infos).0 ≡ ok (entry api playback_id infos s)
        × ((q : String)
            → get q (refresh_stream_info api playback_id infos).1 ≡ (
                if str_eq playback_id q then some (entry api playback_id infos s) else get q infos))
        × ((u : String)
            → get u (entry api playback_id infos s).pushes
              ≡ synced (api_push api s u s.targets) (get u (old_pushes (get playback_id infos))))
  unfolding refresh_stream_info
  refresh_stream_info-pushes h =
      rw (store_refreshed, h)
        (
          refl,
          (λ q. get-put playback_id q (entry api playback_id infos s) infos),
          (λ u.
              get-refreshed_info s (targets api s) (get playback_id infos) u
                (new_pushes-IsDistinct api s s.targets [] tt)
              ∙ ap (λ n. synced n (get u (old_pushes (get playback_id infos))))
                  (get-targets api s u)),
        )
