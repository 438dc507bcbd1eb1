-- ===== src/Mapic/Handlers/Sound.antt =====
-- The invariant of the map of the streams of mapic/mistapiconnector_app.go, which a refresh keeps.
use dms_api.Prelude.{
  ◌≤◌, ◌≡◌, refl, ◌∙◌, String, Option, none, some, List, [], ◌∷◌, arith, inl, inr, Bool-cases,
}
use dms_api.Prelude.Dict.{
  Dict, get, put, IsDistinct, put-IsDistinct, delete-IsDistinct, AllEntries, put-AllEntries,
  delete-AllEntries, get-AllEntries,
}
use mathlib.Core.Path.{subst}
use dms_api.Result.{Result, ok, err}
use dms_api.Mapic.{Api, Stream, StreamInfo, StreamInfos, PushStatus, Target, TargetRef}
use dms_api.Mapic.Names.{get_push_url, mist_stream_name_to_playback_id}
use dms_api.Mapic.Push.{new_push, update_target}
use dms_api.Mapic.Streams.{
  add_push, new_pushes, kept, merge_pushes, is_listed, keep_listed, refreshed_info,
  refresh_stream_info, store_refreshed, cached_or_refreshed, get_stream_info, remove_info,
}
use dms_api.Mapic.Streams.Laws.{get-keep_listed, new_pushes-IsDistinct}

abbrev pub IsBounded : String → PushStatus → Type 0
IsBounded url p = p.error_count ≤ 3

-- The push URLs of an entry are distinct, and no error count is above three.
abbrev pub IsSound : String → StreamInfo → Type 0
IsSound playback_id si = IsDistinct si.pushes × AllEntries IsBounded si.pushes

-- The playback ids are distinct, and every entry is sound.
abbrev pub IsGood : StreamInfos → Type 0
IsGood infos = IsDistinct infos × AllEntries IsSound infos

pub put-IsGood :
    (k : String) (si : StreamInfo) (m : StreamInfos) → IsSound k si → IsGood m → IsGood (put k si m)
put-IsGood k si m p h = (put-IsDistinct k si m h.0, put-AllEntries IsSound k si m p h.1)

pub remove-IsGood : (k : String) (m : StreamInfos) → IsGood m → IsGood (remove_info k m)
unfolding remove_info
remove-IsGood k m h = (delete-IsDistinct k m h.0, delete-AllEntries IsSound k m h.1)

-- A refresh.
add_push-IsBounded :
    (profile : String) (r : Result (Target × String)) (m : Dict PushStatus)
    → AllEntries IsBounded m
    → AllEntries IsBounded (add_push profile r m)
unfolding add_push
add_push-IsBounded profile (err e) m h = h
add_push-IsBounded profile (ok (t, url)) m h =
    put-AllEntries IsBounded url (new_push t profile) m (omega arith) h

new_pushes-IsBounded :
    (api : Api) (s : Stream) (rs : List TargetRef) (m : Dict PushStatus)
    → AllEntries IsBounded m
    → AllEntries IsBounded (new_pushes api s rs m)
unfolding new_pushes
new_pushes-IsBounded api s [] m h = h
new_pushes-IsBounded api s (r ∷ rs) m h =
    new_pushes-IsBounded api s rs (add_push r.profile (get_push_url api s r) m)
      (add_push-IsBounded r.profile (get_push_url api s r) m h)

kept-IsBounded :
    (u : String) (m : Dict PushStatus) (o : Option PushStatus) (n : PushStatus)
    → AllEntries IsBounded m
    → get u m ≡ o
    → n.error_count ≤ 3
    → (kept o n).error_count ≤ 3
unfolding update_target
kept-IsBounded u m none n h e b = b
kept-IsBounded u m (some p) n h e b = get-AllEntries IsBounded u p m h e

merge-Both :
    (new m : Dict PushStatus)
    → AllEntries IsBounded new
    → IsDistinct m × AllEntries IsBounded m
    → IsDistinct (merge_pushes new m) × AllEntries IsBounded (merge_pushes new m)
unfolding merge_pushes
merge-Both [] m n h = h
merge-Both ((u, p) ∷ new) m n h = merge-Both new (put u (kept (get u m) p) m) n.1 (
  put-IsDistinct u (kept (get u m) p) m h.0,
  put-AllEntries IsBounded u (kept (get u m) p) m (kept-IsBounded u m (get u m) p h.1 refl n.0) h.1,
)

keep_listed-Both :
    (new m : Dict PushStatus)
    → IsDistinct m × AllEntries IsBounded m
    → IsDistinct (keep_listed new m) × AllEntries IsBounded (keep_listed new m)
unfolding keep_listed
keep_listed-Both new [] h = h
keep_listed-Both new ((u, p) ∷ m) h =
    let rest = keep_listed-Both new m (h.0.1, h.1.1) in
    elim (Bool-cases (is_listed (get u new))) [
      | inl e ↦ rw e ((get-keep_listed u new m ∙ rw (e, h.0.0) refl, rest.0), (h.1.0, rest.1))
      | inr e ↦ rw e rest
    ]

refreshed_info-IsSound :
    (k : String) (s : Stream) (new : Dict PushStatus) (old : Option StreamInfo)
    → IsDistinct new × AllEntries IsBounded new
    → ((si : StreamInfo) → old ≡ some si → IsSound k si)
    → IsSound k (refreshed_info s new old)
unfolding refreshed_info
refreshed_info-IsSound k s new none n h =
    keep_listed-Both new (merge_pushes new new) (merge-Both new new n.1 n)
refreshed_info-IsSound k s new (some si) n h =
    keep_listed-Both new (merge_pushes new si.pushes) (merge-Both new si.pushes n.1 (h si refl))

-- What a look-up leaves: a good map, with a sound entry if one is found.
unfoldable pub IsLookup : String → Result StreamInfo × StreamInfos → Type 0
IsLookup k (r, m) = IsGood m × ((si : StreamInfo) → r ≡ ok si → IsSound k si)

unfold-IsSound : (k : String) (a b : StreamInfo) → IsSound k a → ok a ≡ ok b → IsSound k b
unfold-IsSound k a b h e = let q : a ≡ b = cc in subst (IsSound k) q h

module _ (api : Api) where
  store-IsLookup :
      (k : String) (m : StreamInfos) (r : Result Stream)
      → IsGood m
      → IsLookup k (store_refreshed api k m r)
  unfolding store_refreshed IsLookup
  store-IsLookup k m (err e) h = (h, (λ si q. let no : ⊥ = cc in elim no [ ]))
  store-IsLookup k m (ok s) h =
      let new = new_pushes api s s.targets [] in
      let sound : IsSound k (refreshed_info s new (get k m)) =
        refreshed_info-IsSound k s new (get k m)
          (new_pushes-IsDistinct api s s.targets [] tt, new_pushes-IsBounded api s s.targets [] tt)
          (λ si e. get-AllEntries IsSound k si m h.1 e) in
      (
        put-IsGood k (refreshed_info s new (get k m)) m sound h,
        (λ si q. unfold-IsSound k (refreshed_info s new (get k m)) si sound q),
      )

  pub refresh-IsGood :
      (k : String) (m : StreamInfos) → IsGood m → IsGood (refresh_stream_info api k m).1
  unfolding refresh_stream_info IsLookup
  refresh-IsGood k m h = (store-IsLookup k m (api.stream_by_playback_id k) h).0

  cached-IsLookup :
      (k : String) (m : StreamInfos) (o : Option StreamInfo)
      → get k m ≡ o
      → IsGood m
      → IsLookup k (cached_or_refreshed api k m o)
  unfolding cached_or_refreshed refresh_stream_info IsLookup
  cached-IsLookup k m none e h = store-IsLookup k m (api.stream_by_playback_id k) h
  cached-IsLookup k m (some si) e h =
      (h, (λ sj q. unfold-IsSound k si sj (get-AllEntries IsSound k si m h.1 e) q))

  pub get_stream_info-IsLookup :
      (name : String) (m : StreamInfos)
      → IsGood m
      → IsLookup (mist_stream_name_to_playback_id name) (get_stream_info api name m)
  unfolding get_stream_info
  get_stream_info-IsLookup name m h =
      let k = mist_stream_name_to_playback_id name in cached-IsLookup k m (get k m) refl h
