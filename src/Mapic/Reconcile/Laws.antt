-- ===== src/Mapic/Reconcile/Laws.antt =====
-- `reconcileMultistream` of mapic/mistapiconnector_app.go: what a pass leaves at Mist.
use dms_api.Prelude.{
  ◌≡◌, refl, sym, ap, ap₂, ◌∙◌, String, Bool, true, false, ◌&&◌, ◌||◌, not, none, List, [], ◌∷◌,
  map, arith, eq_iff, eq_refl, if◌then◌else◌, inl, inr, Bool-cases, if_both,
}
use dms_api.Prelude.Dict.{Dict}
use dms_api.Mapic.{StreamInfos, PushStatus, PushAuto, MistState}
use dms_api.Mapic.Names.{wildcard_playback_id, is_ingest_stream}
use dms_api.Mapic.Reconcile.Keys.{Key, key_eq, find, insert, listed, IsKeyed, insert-IsKeyed}
use dms_api.Mapic.Reconcile.{
  is_multistream, auto_key, push_key, PushInfo, Cached, cache_pushes, cached_map, is_expected,
  mist_keys, unwanted, to_add, Plan, plan, is_enabled, pushed,
}

pub key_eq_of : (j k : Key) → key_eq j k ≡ true → j ≡ k
key_eq_of j k h =
    let p : j.0 ≡ k.0 = ground (arith, h, eq_iff j.0 k.0) in
    let q : j.1 ≡ k.1 = ground (arith, h, eq_iff j.1 k.1) in ap₂ (λ a b. (a, b)) p q

-- A test of a key depends on the key alone.
test_at : (f : Key → Bool) (j k : Key) → key_eq j k ≡ true → f j ≡ f k
test_at f j k h = ap f (key_eq_of j k h)

listed-mist_keys :
    (k : Key) (es : List PushAuto)
    → listed k (mist_keys es) ≡ (is_multistream k && listed k (map auto_key es))
unfolding mist_keys listed
listed-mist_keys k [] = ground arith
listed-mist_keys k (e ∷ es) = elim (Bool-cases (key_eq (auto_key e) k)) [
  | inl h ↦
      let t = test_at is_multistream (auto_key e) k h in ground (arith, listed-mist_keys k es, h, t)
  | inr h ↦ ground (arith, listed-mist_keys k es, h)
]

listed-unwanted :
    {A : Type 0} (key : A → Key) (m : Cached) (k : Key) (es : List A)
    → listed k (map key (unwanted key m es))
      ≡ (is_multistream k && not (is_expected m k) && listed k (map key es))
unfolding unwanted listed
listed-unwanted key m k [] = ground arith
listed-unwanted key m k (e ∷ es) = elim (Bool-cases (key_eq (key e) k)) [
  | inl h ↦
      let t = test_at is_multistream (key e) k h in
      let w = test_at (is_expected m) (key e) k h in
      ground (arith, listed-unwanted key m k es, h, t, w)
  | inr h ↦ ground (arith, listed-unwanted key m k es, h)
]

wanted_none : (m : Cached) (k : Key) → find k m ≡ none → is_expected m k ≡ false
unfolding is_expected is_enabled
wanted_none m k h = ap is_enabled h

is_expected-cons :
    (j : Key) (i : PushInfo) (m : Cached) (k : Key)
    → is_expected ((j, i) ∷ m) k ≡ (if key_eq j k then i.enabled else is_expected m k)
unfolding is_expected find is_enabled
is_expected-cons j i m k = elim (Bool-cases (key_eq j k)) [ inl e ↦ rw e refl | inr e ↦ rw e refl ]

listed-to_add :
    (ks : List Key) (k : Key) (m : Cached)
    → IsKeyed m
    → listed k (to_add ks m) ≡ (is_expected m k && not (listed k ks))
unfolding to_add listed
listed-to_add ks k [] h = ground (arith, wanted_none [] k (unfold find in refl))
listed-to_add ks k ((j, i) ∷ m) h = elim (Bool-cases (key_eq j k)) [
  | inl e ↦
      let t = test_at (λ a. listed a ks) j k e in
      let n = wanted_none m k (ap (λ a. find a m) (sym (key_eq_of j k e)) ∙ h.0) in
      ground (arith, listed-to_add ks k m h.1, e, t, n, is_expected-cons j i m k)
  | inr e ↦ ground (arith, listed-to_add ks k m h.1, e, is_expected-cons j i m k)
]

cache_pushes-IsKeyed :
    (pb stream : String) (ps : Dict PushStatus) (m : Cached)
    → IsKeyed m
    → IsKeyed (cache_pushes pb stream ps m)
unfolding cache_pushes
cache_pushes-IsKeyed pb stream [] m h = h
cache_pushes-IsKeyed pb stream ((url, p) ∷ ps) m h =
    cache_pushes-IsKeyed pb stream ps (insert (stream, url) (pushed pb p) m)
      (insert-IsKeyed (stream, url) (pushed pb p) m h)

pub cached_map-IsKeyed :
    (base : String) (state : MistState) (infos : StreamInfos) (m : Cached)
    → IsKeyed m
    → IsKeyed (cached_map base state infos m)
unfolding cached_map
cached_map-IsKeyed base state [] m h = h
cached_map-IsKeyed base state ((pb, si) ∷ infos) m h = cached_map-IsKeyed base state infos _ (
    if_both IsKeyed (is_ingest_stream (wildcard_playback_id base si.stream) si state)
      (cache_pushes pb (wildcard_playback_id base si.stream) si.pushes m) m
      (λ _. cache_pushes-IsKeyed pb (wildcard_playback_id base si.stream) si.pushes m h) (λ _. h))

-- The keys of Mist's AUTO_PUSH list after a plan that Mist carries out.
abbrev pub after_plan : Plan → List PushAuto → Key → Bool
after_plan p es k =
    listed k p.added || (listed k (map auto_key es) && not (listed k (map auto_key p.removed)))

module _ (base : String) (state : MistState) (infos : StreamInfos) where
  abbrev pub expected : Cached
  expected = cached_map base state infos []

  -- Once Mist has carried out a pass, its AUTO_PUSH list has the enabled pushes of the cached
  -- ingest streams, all of them and, among the multistream keys, no others; its other entries stay.
  pub plan-expected :
      (k : Key)
      → after_plan (plan expected state) state.push_auto_list k ≡ (
          is_expected expected k
          || (listed k (map auto_key state.push_auto_list) && not (is_multistream k)))
  unfolding plan
  plan-expected k = ground (
    arith,
    listed-to_add (mist_keys state.push_auto_list) k expected
        (cached_map-IsKeyed base state infos [] tt),
    listed-mist_keys k state.push_auto_list,
    listed-unwanted auto_key expected k state.push_auto_list,
  )

  -- A pass stops exactly the running pushes with a multistream key that is not wanted.
  plan-stops :
      (k : Key)
      → listed k (map push_key (plan expected state).stopped) ≡ (
          is_multistream k
          && not (is_expected expected k)
          && listed k (map push_key state.push_list))
  unfolding plan
  plan-stops k = listed-unwanted push_key expected k state.push_list

module _ (m : Cached) (state later : MistState) where
  settled :
      (es : List PushAuto)
      → ((k : Key)
          → listed k (map auto_key es) ≡ true
          → is_multistream k ≡ true
          → is_expected m k ≡ true)
      → unwanted auto_key m es ≡ []
  unfolding unwanted listed
  settled [] h = refl
  settled (e ∷ es) h =
      let rest = settled es (λ k l. h k (ground (arith, l))) in
      ground (arith, rest, h (auto_key e), eq_refl e.stream, eq_refl e.target)

  replan-settled :
      IsKeyed m
      → ((k : Key)
          → listed k (map auto_key later.push_auto_list)
            ≡ after_plan (plan m state) state.push_auto_list k)
      → ((plan m later).removed ≡ [])
        × ((k : Key) → listed k (plan m later).added ≡ (is_expected m k && not (is_multistream k)))
  unfolding plan
  replan-settled h e = (
    settled later.push_auto_list (λ k l t. ground (
      arith,
      l,
      t,
      e k,
      listed-unwanted auto_key m k state.push_auto_list,
      listed-to_add (mist_keys state.push_auto_list) k m h,
      listed-mist_keys k state.push_auto_list,
    )),
    (λ k. ground (
      arith,
      e k,
      listed-unwanted auto_key m k state.push_auto_list,
      listed-to_add (mist_keys state.push_auto_list) k m h,
      listed-to_add (mist_keys later.push_auto_list) k m h,
      listed-mist_keys k later.push_auto_list,
      listed-mist_keys k state.push_auto_list,
    )),
  )

-- A second pass over a Mist that has carried out the first, where the expected pushes are the same:
-- no AUTO_PUSH entry is removed, and what is added again are exactly the expected keys that are no
-- multistream keys.
pub second_pass-expected :
    (base : String) (state later : MistState) (infos : StreamInfos)
    → expected base later infos ≡ expected base state infos
    → ((k : Key)
        → listed k (map auto_key later.push_auto_list)
          ≡ after_plan (plan (expected base state infos) state) state.push_auto_list k)
    → ((plan (expected base later infos) later).removed ≡ [])
      × ((k : Key)
          → listed k (plan (expected base later infos) later).added
            ≡ (is_expected (expected base later infos) k && not (is_multistream k)))
second_pass-expected base state later infos same h = rw same (
    replan-settled (expected base state infos) state later
      (cached_map-IsKeyed base state infos [] tt) h)
