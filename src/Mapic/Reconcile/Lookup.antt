-- ===== src/Mapic/Reconcile/Lookup.antt =====
-- `reconcileMultistream` of mapic/mistapiconnector_app.go: what its map of the expected pushes has
-- at a key.
use dms_api.Prelude.{
  ◌≡◌, refl, sym, ap, ◌∙◌, String, false, Option, none, some, [], ◌∷◌, str_eq, eq_iff, eq_refl,
  if◌then◌else◌, inl, inr, Bool-cases,
}
use dms_api.Prelude.Dict.{Dict, get, IsDistinct, AllEntries}
use dms_api.Mapic.{StreamInfo, StreamInfos, PushStatus, MistState}
use dms_api.Mapic.Names.{wildcard_playback_id, is_ingest_stream}
use dms_api.Mapic.Reconcile.Keys.{Key, key_eq, find, insert, drop_key}
use dms_api.Mapic.Reconcile.{PushInfo, Cached, cache_pushes, cached_map, pushed}
use dms_api.Mapic.Reconcile.Laws.{key_eq_of}

find-drop_other : (j k : Key) (m : Cached) → key_eq j k ≡ false → find k (drop_key j m) ≡ find k m
unfolding find drop_key
find-drop_other j k [] h = refl
find-drop_other j k ((i, v) ∷ m) h = elim (Bool-cases (key_eq i j)) [
  | inl e ↦
      let q : key_eq i k ≡ false = ap (λ a. key_eq a k) (key_eq_of i j e) ∙ h in
      rw e (rw q (find-drop_other j k m h))
  | inr e ↦ rw e (ap (λ r. if key_eq i k then some v else r) (find-drop_other j k m h))
]

find-insert :
    (j k : Key) (v : PushInfo) (m : Cached)
    → find k (insert j v m) ≡ (if key_eq j k then some v else find k m)
unfolding insert find
find-insert j k v m = elim (Bool-cases (key_eq j k)) [
  | inl e ↦ rw e refl
  | inr e ↦ rw e (find-drop_other j k m e)
]

module _ (pb stream : String) where
  find-cache_other :
      (k : Key) (ps : Dict PushStatus) (m : Cached)
      → str_eq stream k.0 ≡ false
      → find k (cache_pushes pb stream ps m) ≡ find k m
  unfolding cache_pushes
  find-cache_other k [] m h = refl
  find-cache_other k ((url, p) ∷ ps) m h =
      find-cache_other k ps (insert (stream, url) (pushed pb p) m) h
      ∙ find-insert (stream, url) k (pushed pb p) m
      ∙ rw h refl

  -- What a stream's pushes leave at a push URL, over what there was.
  abbrev pub over : Option PushStatus → Option PushInfo → Option PushInfo
  over none prev = prev
  over (some p) prev = some (pushed pb p)

  find-cache_pushes :
      (url : String) (ps : Dict PushStatus) (m : Cached)
      → IsDistinct ps
      → find (stream, url) (cache_pushes pb stream ps m) ≡ over (get url ps) (find (stream, url) m)
  unfolding cache_pushes get
  find-cache_pushes url [] m h = refl
  find-cache_pushes url ((u, p) ∷ ps) m h =
      find-cache_pushes url ps (insert (stream, u) (pushed pb p) m) h.1
      ∙ ap (over (get url ps)) (find-insert (stream, u) (stream, url) (pushed pb p) m)
      ∙ elim (Bool-cases (str_eq u url)) [
        | inl e ↦
            let g : get url ps ≡ none = ap (λ a. get a ps) (sym ((eq_iff u url).0 e)) ∙ h.0 in
            rw (g, eq_refl stream, e) refl
        | inr e ↦ rw (eq_refl stream, e) refl
      ]

-- The name at Mist belongs to the entry of one playback id.
abbrev pub IsNamed : String → String → String → String → StreamInfo → Type 0
IsNamed base name pb k si =
    IsDistinct si.pushes × str_eq (wildcard_playback_id base si.stream) name ≡ str_eq k pb

module _ (base : String) (state : MistState) (name pb url : String) where
  abbrev pub pick_info : Option StreamInfo → Option PushInfo → Option PushInfo
  pick_info none prev = prev
  pick_info (some si) prev =
      if is_ingest_stream name si state then over pb name (get url si.pushes) prev else prev

  head_same :
      (si : StreamInfo) (m : Cached)
      → IsDistinct si.pushes
      → find
          (name, url)
          (if is_ingest_stream name si state then cache_pushes pb name si.pushes m else m)
        ≡ pick_info (some si) (find (name, url) m)
  head_same si m h = elim (Bool-cases (is_ingest_stream name si state)) [
    | inl e ↦ rw e (find-cache_pushes pb name url si.pushes m h)
    | inr e ↦ rw e refl
  ]

  head_other :
      (k stream : String) (si : StreamInfo) (m : Cached)
      → str_eq stream name ≡ false
      → find
          (name, url)
          (if is_ingest_stream stream si state then cache_pushes k stream si.pushes m else m)
        ≡ find (name, url) m
  head_other k stream si m h = elim (Bool-cases (is_ingest_stream stream si state)) [
    | inl e ↦ rw e (find-cache_other k stream (name, url) si.pushes m h)
    | inr e ↦ rw e refl
  ]

  pub find-cached_map :
      (infos : StreamInfos) (m : Cached)
      → IsDistinct infos
      → AllEntries (IsNamed base name pb) infos
      → find (name, url) (cached_map base state infos m)
        ≡ pick_info (get pb infos) (find (name, url) m)
  unfolding cached_map get
  find-cached_map [] m d h = refl
  find-cached_map ((k, si) ∷ infos) m d h = elim (Bool-cases (str_eq k pb)) [
    | inl e ↦
        let n = (eq_iff (wildcard_playback_id base si.stream) name).0 (h.0.1 ∙ e) in
        let q = (eq_iff k pb).0 e in
        let g : get pb infos ≡ none = ap (λ a. get a infos) (sym q) ∙ d.0 in
        rw (n, q, eq_refl pb) (find-cached_map infos _ d.1 h.1 ∙ rw g (head_same si m h.0.0))
    | inr e ↦ rw e (
        find-cached_map infos _ d.1 h.1
        ∙ ap (pick_info (get pb infos))
            (head_other k (wildcard_playback_id base si.stream) si m (h.0.1 ∙ e)))
  ]
