-- ===== src/Video/Clip/Span.antt =====
-- The segments of a clip span its start and its end.
use dms_api.Prelude.{
  ℕ, suc, ◌+◌, ◌-◌, ◌*◌, ◌%◌, ◌≤◌, ◌<◌, ◌≡◌, refl, ap, ◌∙◌, true, false, some, List, [], ◌∷◌, ◌++◌,
  map, arith, ltb, leb, ◌==◌, if◌then◌else◌, inl, inr, ◌⊎◌, length, get_elem?, get_elem?-lt, take,
  drop, All,
}
use dms_api.Prelude.Int.{ℤ, pos}
use dms_api.Result.{ok}
use dms_api.Video.Clip.Rings.{
  drop-append, take-append, length-drop, length-take, length-ring, get_elem?-ring, get_elem?-some,
}
use dms_api.Video.Clip.{
  MediaSegment, Segments, GetAllSegments, ClipSegmentInfo, info_of, total, find_segment,
  get_relevant_segment, get_total_duration_and_segments, start_info, end_info, last_info,
  exceeds_total, slice, checked, cut_out, from_start, clip_manifest, two_64,
}
use dms_api.Video.Clip.Playhead.{
  segment_at, offset_at, IsInside, segment_at-IsInside, segment_at_mono, find_segment-segment_at,
}

-- A playlist that holds segments, the first at the start of its ring: what the library does when it
-- reads one whose media sequence begins at 0. All segments last some time.
pub record IsRecording (get_all : GetAllSegments) (m : Segments) (all : List MediaSegment)
    : Type 0 where
  pub unused : Segments
  pub ring : m ≡ map some all ++ unused
  pub held : get_all m ≡ all
  pub numbered : (i : ℕ) (s : MediaSegment) → get_elem? all i ≡ some s → s.seq_id ≡ i
  pub lasting : All (λ s. (s.duration == 0) ≡ false) all
  pub nonempty : 1 ≤ length all
  pub countable : length all < two_64

-- A clip from `a` to `b`.
pub record IsSpan (all : List MediaSegment) (a b : ℕ) (relevant : Segments)
    (infos : List ClipSegmentInfo) : Type 0 where
  pub first : ClipSegmentInfo
  pub last : ClipSegmentInfo
  pub start_offset : ℕ
  pub starts_at : first.clip_offset ≡ pos start_offset
  pub starts : IsInside all a first.sequence_id start_offset
  pub ends :
      ((end_offset : ℕ) × (last.clip_offset ≡ pos end_offset)
        × IsInside all b last.sequence_id end_offset)
      ⊎ ((total all < b) × (suc last.sequence_id ≡ length all))
  pub ordered : first.sequence_id ≤ last.sequence_id
  pub bounded : last.sequence_id < length all
  pub covers :
      relevant
      ≡ map some (take (suc last.sequence_id - first.sequence_id) (drop first.sequence_id all))
  pub described :
      infos ≡ (if first.sequence_id == last.sequence_id then first ∷ [] else first ∷ last ∷ [])

le→leb : (a b : ℕ) → a ≤ b → leb a b ≡ true
le→leb a b h = ground arith

le→not_ltb : (a b : ℕ) → a ≤ b → ltb b a ≡ false
le→not_ltb a b h = ground arith

lt→ltb : (a b : ℕ) → a < b → ltb a b ≡ true
lt→ltb a b h = ground arith

slice_lem :
    (all : List MediaSegment) (unused : Segments) (lo hi : ℕ)
    → lo ≤ hi
    → hi ≤ length all
    → slice lo hi (map some all ++ unused) ≡ some (map some (take (hi - lo) (drop lo all)))
unfolding slice
slice_lem all unused lo hi h l =
    let l' : hi ≤ length (map some all ++ unused) = omega (arith, l, length-ring all unused) in
    rw (le→leb lo hi h, le→leb hi (length (map some all ++ unused)) l')
      (ap some (
        ap (take (hi - lo)) (drop-append lo all unused (omega (arith, h, l)))
        ∙ take-append (hi - lo) (drop lo all) unused (omega (arith, h, l, length-drop lo all))))

checked_lem :
    (first last : ClipSegmentInfo) (xs : List MediaSegment)
    → 1 ≤ length xs
    → checked first last (map some xs)
      ≡ ok (
        map some xs,
        if first.sequence_id == last.sequence_id then first ∷ [] else first ∷ last ∷ [],
      )
unfolding checked
checked_lem first last [] h = let no : ⊥ = omega (arith, h) in elim no [ ]
checked_lem first last (x ∷ xs) h = refl

pub cut_out_lem :
    (all : List MediaSegment) (unused : Segments) (first last : ClipSegmentInfo)
    → first.sequence_id ≤ last.sequence_id
    → last.sequence_id < length all
    → length all < two_64
    → cut_out (map some all ++ unused) first last
      ≡ some (
          ok (
            map some (take (suc last.sequence_id - first.sequence_id) (drop first.sequence_id all)),
            if first.sequence_id == last.sequence_id then first ∷ [] else first ∷ last ∷ [],
          ))
unfolding cut_out
cut_out_lem all unused first last h l w =
    let i = first.sequence_id in
    let j = last.sequence_id in
    let wrap : (j + 1) % two_64 ≡ suc j = omega (arith, l, w) in
    let some_left : 1 ≤ length (take (suc j - i) (drop i all)) = omega (
      arith,
      h,
      l,
      length-take (suc j - i) (drop i all) (omega (arith, h, l, length-drop i all)),
    ) in
    rw (cut_out, wrap, slice_lem all unused i (suc j) (omega (arith, h)) l)
      (ap some (checked_lem first last (take (suc j - i) (drop i all)) some_left))

last_info_lem :
    (m : Segments) (i : ℕ) (s : MediaSegment)
    → get_elem? m i ≡ some (some s)
    → last_info m i
      ≡ some (ok (record { sequence_id = i; duration = s.duration; clip_offset = pos s.duration }))
unfolding last_info
last_info_lem m i s e = rw (last_info, e) refl

module _ (get_all : GetAllSegments) (m : Segments) (all : List MediaSegment)
    (r : IsRecording get_all m all) where
  find_lem :
      (a : ℕ)
      → a + 500 * length all ≤ total all
      → (info : ClipSegmentInfo) × (get_relevant_segment m (pos a) 0 ≡ ok info)
        × (info.clip_offset ≡ pos (offset_at a all))
        × (info.sequence_id ≡ segment_at a all)
        × IsInside all a info.sequence_id (offset_at a all)
        × (info.sequence_id < length all)
  unfolding get_relevant_segment
  find_lem a h =
      let inside = segment_at-IsInside all a r.nonempty h in
      (
        info_of inside.segment (pos (offset_at a all)),
        ap (λ t. find_segment t (pos a)) r.ring
            ∙ find_segment-segment_at all r.unused a inside.segment r.lasting inside.is_at,
        refl,
        r.numbered (segment_at a all) inside.segment inside.is_at,
        rw (r.numbered (segment_at a all) inside.segment inside.is_at) inside,
        omega (
          arith,
          r.numbered (segment_at a all) inside.segment inside.is_at,
          get_elem?-lt (segment_at a all) all inside.segment inside.is_at,
        ),
      )

  pub start_lem :
      (a : ℕ) (info : ClipSegmentInfo)
      → a ≤ total all
      → get_relevant_segment m (pos a) 0 ≡ ok info
      → start_info get_all m (pos a) ≡ ok info
  unfolding start_info exceeds_total get_total_duration_and_segments
  start_lem a info h e = rw (r.held, le→not_ltb a (total all) h, e) refl

  end_inside :
      (b : ℕ) (info : ClipSegmentInfo)
      → b ≤ total all
      → get_relevant_segment m (pos b) 0 ≡ ok info
      → end_info get_all m (pos b) ≡ some (ok info)
  unfolding end_info exceeds_total get_total_duration_and_segments
  end_inside b info h e = rw (r.held, le→not_ltb b (total all) h, e) refl

  end_past_at :
      (b : ℕ) (s : MediaSegment)
      → total all < b
      → get_elem? all (length all - 1) ≡ some s
      → end_info get_all m (pos b)
        ≡ some (
            ok (record {
              sequence_id = length all - 1;
              duration = s.duration;
              clip_offset = pos s.duration;
            }))
  unfolding end_info exceeds_total get_total_duration_and_segments
  end_past_at b s h e =
      let wrap : (length all + two_64 - 1) % two_64 ≡ length all - 1 =
        omega (arith, r.nonempty, r.countable) in
      rw (r.held, lt→ltb (total all) b h, wrap)
        (last_info_lem m (length all - 1) s (
          ap (λ t. get_elem? t (length all - 1)) r.ring
          ∙ get_elem?-ring (length all - 1) all r.unused s e))

  end_past :
      (b : ℕ)
      → total all < b
      → (info : ClipSegmentInfo) × (end_info get_all m (pos b) ≡ some (ok info))
        × (suc info.sequence_id ≡ length all)
  end_past b h =
      let (s, e) = get_elem?-some (length all - 1) all (omega (arith, r.nonempty)) in
      (
        record {
          sequence_id = length all - 1;
          duration = s.duration;
          clip_offset = pos s.duration;
        },
        end_past_at b s h e,
        omega (arith, r.nonempty),
      )

  pub span_lem :
      (a : ℕ) (b : ℤ) (first last : ClipSegmentInfo)
      → start_info get_all m (pos a) ≡ ok first
      → end_info get_all m b ≡ some (ok last)
      → first.sequence_id ≤ last.sequence_id
      → last.sequence_id < length all
      → clip_manifest get_all m (pos a) b
        ≡ some (
            ok (
              map some
                  (take (suc last.sequence_id - first.sequence_id) (drop first.sequence_id all)),
              if first.sequence_id == last.sequence_id then first ∷ [] else first ∷ last ∷ [],
            ))
  unfolding clip_manifest from_start
  span_lem a b first last s e h l =
      rw (s, from_start, e, r.ring) (cut_out_lem all r.unused first last h l r.countable)

  pub clip_manifest-IsSpan :
      (a b : ℕ)
      → a ≤ b
      → a + 500 * length all ≤ total all
      → (b + 500 * length all ≤ total all) ⊎ (total all < b)
      → (relevant : Segments) × (infos : List ClipSegmentInfo) × (clip_manifest get_all m
            (pos a)
            (pos b)
          ≡ some (ok (relevant, infos)))
        × IsSpan all a b relevant infos
  clip_manifest-IsSpan a b h ha (inl hb) =
      let (f, found_f, offset_f, at_f, in_f, lt_f) = find_lem a ha in
      let (l, found_l, offset_l, at_l, in_l, lt_l) = find_lem b hb in
      let le : f.sequence_id ≤ l.sequence_id =
        omega (arith, at_f, at_l, segment_at_mono all a b h) in
      (
        map some (take (suc l.sequence_id - f.sequence_id) (drop f.sequence_id all)),
        if f.sequence_id == l.sequence_id then f ∷ [] else f ∷ l ∷ [],
        span_lem a (pos b) f l (start_lem a f (omega (arith, ha)) found_f)
            (end_inside b l (omega (arith, hb)) found_l) le lt_l,
        record {
          first = f;
          last = l;
          start_offset = offset_at a all;
          starts_at = offset_f;
          starts = in_f;
          ends = inl (offset_at b all, offset_l, in_l);
          ordered = le;
          bounded = lt_l;
          covers = refl;
          described = refl;
        },
      )
  clip_manifest-IsSpan a b h ha (inr hb) =
      let (f, found_f, offset_f, at_f, in_f, lt_f) = find_lem a ha in
      let (l, found_l, end_l) = end_past b hb in
      let le : f.sequence_id ≤ l.sequence_id = omega (arith, lt_f, end_l) in
      let lt_l : l.sequence_id < length all = omega (arith, end_l) in
      (
        map some (take (suc l.sequence_id - f.sequence_id) (drop f.sequence_id all)),
        if f.sequence_id == l.sequence_id then f ∷ [] else f ∷ l ∷ [],
        span_lem a (pos b) f l (start_lem a f (omega (arith, ha)) found_f) found_l le lt_l,
        record {
          first = f;
          last = l;
          start_offset = offset_at a all;
          starts_at = offset_f;
          starts = in_f;
          ends = inr (hb, end_l);
          ordered = le;
          bounded = lt_l;
          covers = refl;
          described = refl;
        },
      )
