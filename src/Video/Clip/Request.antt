-- ===== src/Video/Clip/Request.antt =====
-- A clip of a recording, from a request that passed its validation.
use dms_api.Prelude.{
  ℕ, ◌+◌, ◌-◌, ◌*◌, ◌/◌, ◌≤◌, ◌<◌, ◌≡◌, refl, ap, ◌∙◌, true, false, none, some, List, [], ◌∷◌, ◌++◌,
  map, arith, leb, ◌==◌, inl, inr, ◌⊎◌, Bool-cases, length, get_elem?, All,
}
use mathlib.Core.Path.{subst}
use dms_api.Prelude.Int.{ℤ, pos, negsuc}
use dms_api.Result.{ok}
use dms_api.Video.Clip.{
  MediaSegment, Segments, GetAllSegments, ClipSegmentInfo, info_of, total, past, find_segment,
  get_relevant_segment, since, not_before_start, convert_unix_millis_to_seconds, validate_times,
  in_unix_seconds, validate_clipping_request, end_info, exceeds_total, clip_manifest, clip_between,
}
use dms_api.Video.Clip.Rings.{get_elem?-ring}
use dms_api.Video.Clip.Span.{start_lem, span_lem, IsRecording, IsSpan, clip_manifest-IsSpan}

validated : (a b : ℕ) → validate_clipping_request (pos a) (pos b) ≡ none → a < b
unfolding validate_clipping_request validate_times
validated a b = elim (Bool-cases (in_unix_seconds a)) [
  | inl e ↦ rw (validate_times, e) (λ h. cc)
  | inr e ↦
      rw (validate_times, e)
        (elim (Bool-cases (in_unix_seconds b)) [
          | inl e' ↦ rw e' (λ h. cc)
          | inr e' ↦ rw e' (λ h. ground arith)
        ])
]

since_pos : (f t : ℕ) → f ≤ t → since f t ≡ pos ((t - f) * 1000)
unfolding since
since_pos f t h = ground (arith, h)

since_before : (f t : ℕ) → t < f → (n : ℕ) × (since f t ≡ negsuc n)
unfolding since
since_before f t h = ((f - t) * 1000 - 1, ground (arith, h))

start_since : (f t : ℕ) → not_before_start (since f t) ≡ pos ((t - f) * 1000)
unfolding since not_before_start
start_since f t = elim (Bool-cases (leb f t)) [
  | inl e ↦ rw e refl
  | inr e ↦ rw e (ap pos (ground (arith, e)))
]

convert_lem :
    (s : MediaSegment) (nanos start end : ℕ)
    → s.program_date_time ≡ some nanos
    → convert_unix_millis_to_seconds s start end
      ≡ ok (not_before_start (since (nanos / 1000000) start), since (nanos / 1000000) end)
unfolding convert_unix_millis_to_seconds
convert_lem s nanos start end h = rw h refl

between_lem :
    (get_all : GetAllSegments) (m : Segments) (s : MediaSegment) (times : ℤ × ℤ) (start end : ℕ)
    → get_elem? m 0 ≡ some (some s)
    → convert_unix_millis_to_seconds s start end ≡ ok times
    → clip_between get_all m start end ≡ clip_manifest get_all m times.0 times.1
unfolding clip_between
between_lem get_all m s times start end h e = rw (clip_between, h, e) refl

some_inj : (x y : MediaSegment) → some x ≡ some y → x ≡ y
some_inj x y h = cc

first_of :
    (all : List MediaSegment) (s : MediaSegment)
    → get_elem? all 0 ≡ some s
    → (ss : List MediaSegment) × (all ≡ s ∷ ss)
first_of [] s = λ h. cc
first_of (x ∷ xs) s = λ h. (xs, ap (λ y. y ∷ xs) (some_inj x s h))

first_lasting :
    (all : List MediaSegment) (s : MediaSegment)
    → All (λ s. (s.duration == 0) ≡ false) all
    → get_elem? all 0 ≡ some s
    → (s.duration == 0) ≡ false
first_lasting [] s p = λ h. cc
first_lasting (x ∷ xs) s p =
    λ h. subst (λ (y : MediaSegment). (y.duration == 0) ≡ false) (some_inj x s h) p.0

find_first :
    (s : MediaSegment) (ss : Segments) (t : ℤ)
    → (s.duration == 0) ≡ false
    → (past t s.duration == 0) ≡ true
    → find_segment (some s ∷ ss) t ≡ ok (info_of s t)
unfolding find_segment
find_first s ss t d p = rw (d, p) refl

before_lem :
    (get_all : GetAllSegments) (m : Segments) (all : List MediaSegment)
    (r : IsRecording get_all m all) (s : MediaSegment) (n : ℕ)
    → get_elem? all 0 ≡ some s
    → clip_manifest get_all m (pos 0) (negsuc n) ≡ some (ok (some s ∷ [], info_of s (pos 0) ∷ []))
unfolding get_relevant_segment end_info exceeds_total past
before_lem get_all m all r s n h =
    let (ss, e) = first_of all s h in
    let d = first_lasting all s r.lasting h in
    let ring : m ≡ some s ∷ (map some ss ++ r.unused) =
      r.ring ∙ ap (λ t. map some t ++ r.unused) e in
    let finds : (t : ℤ)
        → (past t s.duration == 0) ≡ true
        → get_relevant_segment m t 0 ≡ ok (info_of s t) =
      λ t p. ap (λ u. find_segment u t) ring ∙ find_first s (map some ss ++ r.unused) t d p in
    let zero_seq : s.seq_id ≡ 0 = r.numbered 0 s h in
    let at_start : (past (pos 0) s.duration == 0) ≡ true = ground arith in
    let starts =
      start_lem get_all m all r 0 (info_of s (pos 0)) (omega arith) (finds (pos 0) at_start) in
    let ends : end_info get_all m (negsuc n) ≡ some (ok (info_of s (negsuc n))) =
      rw (finds (negsuc n) refl) refl in
    span_lem get_all m all r 0 (negsuc n) (info_of s (pos 0)) (info_of s (negsuc n)) starts ends
      (omega arith) (omega (arith, zero_seq, r.nonempty))
    ∙ simp (zero_seq, e) refl

module _ (get_all : GetAllSegments) (m : Segments) (all : List MediaSegment)
    (r : IsRecording get_all m all) (s : MediaSegment) (nanos : ℕ) (at_0 : get_elem? all 0 ≡ some s)
    (dated : s.program_date_time ≡ some nanos) (start end : ℕ)
    (valid : validate_clipping_request (pos start) (pos end) ≡ none) where
  clip_lem :
      clip_between get_all m start end
      ≡ clip_manifest get_all m
          (pos ((start - nanos / 1000000) * 1000))
          (since (nanos / 1000000) end)
  clip_lem =
      between_lem get_all m s
        (not_before_start (since (nanos / 1000000) start), since (nanos / 1000000) end) start end
        (ap (λ t. get_elem? t 0) r.ring ∙ get_elem?-ring 0 all r.unused s at_0)
        (convert_lem s nanos start end dated)
      ∙ rw (start_since (nanos / 1000000) start) refl

  -- A clip of a recording, from a request that `ValidateClippingRequest` lets pass, whose end is
  -- not before the recording begins: the code does not panic and returns the segments that span the
  -- clip, from the one that has the start (of the recording, if the clip starts before it) to the
  -- one that has the end, or to the last one if the end is past the recording, and what is needed
  -- of them: a single description if they are the same, and the offsets of the start and the end in
  -- them. A time is in a segment if the durations before it and the offset add up to it, up to half
  -- a millisecond of rounding for each earlier segment; the offset is at most the duration, up to
  -- the same rounding. The start, and the end if it is in the recording, leave room for the
  -- rounding before the recording ends; the recording is numbered from 0 and each of its segments
  -- lasts some time.
  pub clip_between-IsSpan :
      nanos / 1000000 ≤ end
      → (start - nanos / 1000000) * 1000 + 500 * length all ≤ total all
      → ((end - nanos / 1000000) * 1000 + 500 * length all ≤ total all)
        ⊎ (total all < (end - nanos / 1000000) * 1000)
      → (relevant : Segments) × (infos : List ClipSegmentInfo) × (clip_between get_all m start end
          ≡ some (ok (relevant, infos)))
        × IsSpan all
            ((start - nanos / 1000000) * 1000)
            ((end - nanos / 1000000) * 1000)
            relevant
            infos
  clip_between-IsSpan h ha hb =
      let (relevant, infos, e, span) =
        clip_manifest-IsSpan get_all m all r ((start - nanos / 1000000) * 1000)
          ((end - nanos / 1000000) * 1000) (omega (arith, validated start end valid)) ha hb in
      (
        relevant,
        infos,
        clip_lem
            ∙ ap (clip_manifest get_all m (pos ((start - nanos / 1000000) * 1000)))
                (since_pos (nanos / 1000000) end h)
            ∙ e,
        span,
      )

  -- A clip of such a recording that ends before its first segment begins is not refused, though its
  -- request passes `ValidateClippingRequest`: it is the first segment, from its start.
  pub clip_between-before :
      end < nanos / 1000000
      → clip_between get_all m start end ≡ some (ok (some s ∷ [], info_of s (pos 0) ∷ []))
  clip_between-before h =
      let (n, e) = since_before (nanos / 1000000) end h in
      let a : (start - nanos / 1000000) * 1000 ≡ 0 = omega (arith, h, validated start end valid) in
      clip_lem ∙ rw (a, e) (before_lem get_all m all r s n at_0)
