-- ===== src/Video/Segments/Written.antt =====
-- `WriteSegmentsToDisk` of video/media.go: what is on the disk and in the tables afterwards.
use mathlib.Core.Path.{subst}
use dms_api.Prelude.{
  All, ◌⊎◌, ℕ, ◌≡◌, refl, sym, ap, ap₂, ◌∙◌, String, Bool, false, ◌&&◌, ◌||◌, Option, none, some,
  List, [], ◌∷◌, map, arith, str_eq, eq_iff, ◌==◌, if◌then◌else◌, inl, inr, Bool-cases,
}
use dms_api.Prelude.Dict.{get, get-put}
use dms_api.Errors.{Error}
use dms_api.Video.Segments.{
  Bytes, SegmentList, get_segment, add_segment_data, remove_segment_data, RenditionList,
  TranscodedSegmentInfo, Disk, file_name, Stored, stored, store_failed, nil_list, add_file,
  after_write, take_segment, with_list, write_segments_to_disk,
}

-- What the tables hold for a segment.
abbrev pub held : Option SegmentList → ℕ → Bytes
held none i = []
held (some l) i = get_segment i l

abbrev pub is_of : TranscodedSegmentInfo → String → ℕ → Bool
is_of info name i = str_eq info.rendition_name name && info.segment_index == i

abbrev pub in_batch : List TranscodedSegmentInfo → String → ℕ → Bool
in_batch [] name i = false
in_batch (info ∷ infos) name i = is_of info name i || in_batch infos name i

-- No segment stands twice in a batch.
abbrev pub IsOnce : List TranscodedSegmentInfo → Type 0
IsOnce [] = Unit
IsOnce (info ∷ infos) =
    (in_batch infos info.rendition_name info.segment_index ≡ false) × IsOnce infos

abbrev pub held_at : RenditionList → TranscodedSegmentInfo → Bytes
held_at r info = held (get info.rendition_name r) info.segment_index

abbrev pub file_of : Disk → String → RenditionList → TranscodedSegmentInfo → String × Bytes
file_of d dir r info = (file_name d dir info, held_at r info)

held-take :
    (r : RenditionList) (info : TranscodedSegmentInfo) (l : SegmentList) (name : String) (i : ℕ)
    → get info.rendition_name r ≡ some l
    → held (get name (take_segment r info l)) i
      ≡ (if is_of info name i then [] else held (get name r) i)
unfolding take_segment
held-take r info l name i h =
    ap (λ o. held o i)
      (get-put info.rendition_name name (remove_segment_data info.segment_index l) r)
    ∙ elim (Bool-cases (str_eq info.rendition_name name)) [
      | inl e ↦
          let g : get name r ≡ some l =
            ap (λ a. get a r) (sym ((eq_iff info.rendition_name name).0 e)) ∙ h in
          rw (e, g) (unfold remove_segment_data add_segment_data get_segment in refl)
      | inr e ↦ rw e refl
    ]

-- The files of a batch do not change with a segment that is not in it.
files-take :
    (d : Disk) (dir : String) (r : RenditionList) (info : TranscodedSegmentInfo) (l : SegmentList)
    (infos : List TranscodedSegmentInfo)
    → get info.rendition_name r ≡ some l
    → in_batch infos info.rendition_name info.segment_index ≡ false
    → map (file_of d dir (take_segment r info l)) infos ≡ map (file_of d dir r) infos
files-take d dir r info l [] h n = refl
files-take d dir r info l (x ∷ xs) h n =
    let o : is_of info x.rendition_name x.segment_index ≡ false = ground (
      arith,
      n,
      eq_iff x.rendition_name info.rendition_name,
      eq_iff info.rendition_name x.rendition_name,
    ) in
    ap₂ (λ a b. (file_name d dir x, a) ∷ b)
      (held-take r info l x.rendition_name x.segment_index h ∙ rw o refl)
      (files-take d dir r info l xs h (ground (arith, n)))

-- A rendition that the new tables do not have is not in the old ones.
missing-take :
    (r : RenditionList) (info : TranscodedSegmentInfo) (l : SegmentList) (name : String)
    → get name (take_segment r info l) ≡ none
    → get name r ≡ none
unfolding take_segment
missing-take r info l name h =
    let g = get-put info.rendition_name name (remove_segment_data info.segment_index l) r in
    elim (Bool-cases (str_eq info.rendition_name name)) [
      | inl e ↦ absurd (some_none _ (sym (rw e at g) ∙ h))
      | inr e ↦ sym (rw e at g) ∙ h
    ]
  where
    some_none : (x : SegmentList) → some x ≡ none → ⊥
    some_none x q = cc

-- The rendition of one of the segments has no table.
abbrev pub IsMissing : RenditionList → List TranscodedSegmentInfo → Type 0
IsMissing r [] = ⊥
IsMissing r (info ∷ infos) = (get info.rendition_name r ≡ none) ⊎ IsMissing r infos

still-IsMissing :
    (r : RenditionList) (info : TranscodedSegmentInfo) (l : SegmentList)
    (infos : List TranscodedSegmentInfo)
    → IsMissing (take_segment r info l) infos
    → IsMissing r infos
still-IsMissing r info l [] h = h
still-IsMissing r info l (x ∷ xs) (inl h) = inl (missing-take r info l x.rendition_name h)
still-IsMissing r info l (x ∷ xs) (inr h) = inr (still-IsMissing r info l xs h)

module _ (d : Disk) (dir : String) where
  -- The disk takes a file, or refuses its creation or the write to it.
  abbrev pub IsTaken : String × Bytes → Type 0
  IsTaken f = (d.create f.0 ≡ none) × (d.write f.0 f.1 ≡ none)

  abbrev pub IsRefused : String × Bytes → Type 0
  IsRefused f = (e : Error) × ((d.create f.0 ≡ some e) ⊎ (d.write f.0 f.1 ≡ some e))

  abbrev pub HasRefused : List (String × Bytes) → Type 0
  HasRefused [] = ⊥
  HasRefused (f ∷ fs) = IsRefused f ⊎ HasRefused fs

  abbrev pub IsWritten : RenditionList → List TranscodedSegmentInfo → Stored → Type 0
  IsWritten r infos (stored files out) =
      (files ≡ map (file_of d dir r) infos)
      × All IsTaken files
      × ((name : String) (i : ℕ)
          → held (get name out) i ≡ (if in_batch infos name i then [] else held (get name r) i))
  IsWritten r infos (store_failed e) = HasRefused (map (file_of d dir r) infos)
  IsWritten r infos nil_list = IsMissing r infos

  cons-IsWritten :
      (r : RenditionList) (info : TranscodedSegmentInfo) (infos : List TranscodedSegmentInfo)
      (l : SegmentList) (c w : Option Error) (rest : Stored)
      → d.create (file_name d dir info) ≡ c
      → d.write (file_name d dir info) (get_segment info.segment_index l) ≡ w
      → get info.rendition_name r ≡ some l
      → in_batch infos info.rendition_name info.segment_index ≡ false
      → IsWritten (take_segment r info l) infos rest
      → IsWritten r
          (info ∷ infos)
          (after_write c w (file_name d dir info, get_segment info.segment_index l) rest)
  unfolding after_write add_file
  cons-IsWritten r info infos l (some e) w rest p q h n k = inl (e, inl p)
  cons-IsWritten r info infos l none (some e) rest p q h n k =
      inl (e, inr (ap (λ o. d.write (file_name d dir info) (held o info.segment_index)) h ∙ q))
  cons-IsWritten r info infos l none none (store_failed e) p q h n k =
      inr (subst HasRefused (files-take d dir r info l infos h n) k)
  cons-IsWritten r info infos l none none nil_list p q h n k =
      inr (still-IsMissing r info l infos k)
  cons-IsWritten r info infos l none none (stored files out) p q h n k = (
    rw h (
        ap (λ fs. (file_name d dir info, get_segment info.segment_index l) ∷ fs)
          (k.0 ∙ files-take d dir r info l infos h n)),
    ((p, q), k.1),
    (λ name i. k.2 name i ∙ rw (held-take r info l name i h) (ground arith)),
  )

  list-IsWritten :
      (r : RenditionList) (info : TranscodedSegmentInfo) (infos : List TranscodedSegmentInfo)
      (o : Option SegmentList)
      → get info.rendition_name r ≡ o
      → in_batch infos info.rendition_name info.segment_index ≡ false
      → ((s : RenditionList) → IsWritten s infos (write_segments_to_disk d dir s infos))
      → IsWritten r (info ∷ infos) (
          with_list o (λ l.
            after_write
              (d.create (file_name d dir info))
              (d.write (file_name d dir info) (get_segment info.segment_index l))
              (file_name d dir info, get_segment info.segment_index l)
              (write_segments_to_disk d dir (take_segment r info l) infos)))
  unfolding with_list
  list-IsWritten r info infos none h n k = inl h
  list-IsWritten r info infos (some l) h n k =
      cons-IsWritten r info infos l _ _ (write_segments_to_disk d dir (take_segment r info l) infos)
        refl refl h n (k (take_segment r info l))

  -- A batch in which no segment stands twice is written, or the disk refuses to create or to write
  -- the file of one of its segments, or the rendition of one has no table. If it is written, the
  -- files are those of its segments, in order, each with what the tables held for the segment
  -- before; the disk has taken every one of them; and afterwards the tables hold nothing for a
  -- segment of the batch and what they held before for every other one.
  pub write_segments-IsWritten :
      (infos : List TranscodedSegmentInfo) (r : RenditionList)
      → IsOnce infos
      → IsWritten r infos (write_segments_to_disk d dir r infos)
  unfolding write_segments_to_disk
  write_segments-IsWritten [] r h = (refl, tt, (λ name i. refl))
  write_segments-IsWritten (info ∷ infos) r h =
      list-IsWritten r info infos (get info.rendition_name r) refl h.0
        (λ s. write_segments-IsWritten infos s h.1)
