-- ===== src/Video/Clip/Playhead.antt =====
-- The search for a playhead: where it ends, and that a later playhead is not in an earlier segment.
use dms_api.Prelude.{
  ℕ, suc, ◌+◌, ◌*◌, ◌≤◌, ◌<◌, ◌≡◌, refl, true, false, some, List, [], ◌∷◌, ◌++◌, map, arith, ◌==◌,
  if◌then◌else◌, inl, inr, Bool-cases, length, get_elem?, take, All,
}
use dms_api.Prelude.Int.{pos}
use dms_api.Result.{ok}
use dms_api.Video.Clip.{MediaSegment, Segments, info_of, total, past, find_segment}

past_zero : (a d : ℕ) → (past (pos a) d == 0) ≡ true → a < d + 500
unfolding past
past_zero a d e = ground arith

past_suc :
    (a d : ℕ)
    → (past (pos a) d == 0) ≡ false
    → (d + 500 ≤ a)
      × (past (pos a) d + d ≤ a + 500)
      × (a ≤ past (pos a) d + d + 500)
      × (1 ≤ past (pos a) d)
unfolding past
past_suc a d e = ground arith

past_mono : (a b d : ℕ) → a ≤ b → past (pos a) d ≤ past (pos b) d
unfolding past
past_mono a b d h = omega (arith, h)

-- The index of the segment that has a playhead, and where the playhead is in it.
unfoldable pub segment_at : ℕ → List MediaSegment → ℕ
segment_at a [] = 0
segment_at a (s ∷ ss) =
    let later = segment_at (past (pos a) s.duration) ss in
    if past (pos a) s.duration == 0 then 0 else suc later

unfoldable pub offset_at : ℕ → List MediaSegment → ℕ
offset_at a [] = a
offset_at a (s ∷ ss) =
    let later = offset_at (past (pos a) s.duration) ss in
    if past (pos a) s.duration == 0 then a else later

-- A playhead is in the segment at an index: the segments before it and the offset in it add up to
-- the playhead, up to half a millisecond for each of those segments.
pub record IsInside (ss : List MediaSegment) (a index offset : ℕ) : Type 0 where
  pub segment : MediaSegment
  pub is_at : get_elem? ss index ≡ some segment
  pub in_segment : offset < segment.duration + 500
  pub not_late : total (take index ss) + offset ≤ a + 500 * index
  pub not_early : a ≤ total (take index ss) + offset + 500 * index

total_suc : (ss : List MediaSegment) (p n : ℕ) → 1 ≤ p → p + 500 * n ≤ total ss → 1 ≤ length ss
unfolding total
total_suc [] p n h t = omega (arith, h, t)
total_suc (s ∷ ss) p n h t = omega arith

pub segment_at-IsInside :
    (ss : List MediaSegment) (a : ℕ)
    → 1 ≤ length ss
    → a + 500 * length ss ≤ total ss
    → IsInside ss a (segment_at a ss) (offset_at a ss)
unfolding segment_at offset_at total
segment_at-IsInside [] a h t = let no : ⊥ = omega (arith, h) in elim no [ ]
segment_at-IsInside (s ∷ ss) a h t = elim (Bool-cases (past (pos a) s.duration == 0)) [
  | inl e ↦ rw e (record {
    segment = s;
    is_at = refl;
    in_segment = past_zero a s.duration e;
    not_late = omega arith;
    not_early = omega arith;
  })
  | inr e ↦
      let p = past (pos a) s.duration in
      let n = past_suc a s.duration e in
      let t' : p + 500 * length ss ≤ total ss = omega (arith, t, n.1) in
      let ih = segment_at-IsInside ss p (total_suc ss p (length ss) n.3 t') t' in
      rw e (record {
        segment = ih.segment;
        is_at = ih.is_at;
        in_segment = ih.in_segment;
        not_late = omega (arith, ih.not_late, n.1);
        not_early = omega (arith, ih.not_early, n.2);
      })
]

pub segment_at_mono : (ss : List MediaSegment) (a b : ℕ) → a ≤ b → segment_at a ss ≤ segment_at b ss
unfolding segment_at
segment_at_mono [] a b h = omega arith
segment_at_mono (s ∷ ss) a b h = elim (Bool-cases (past (pos a) s.duration == 0)) [
  | inl e ↦ rw e (omega arith)
  | inr e ↦
      let ih =
        segment_at_mono ss (past (pos a) s.duration) (past (pos b) s.duration)
          (past_mono a b s.duration h) in
      elim (Bool-cases (past (pos b) s.duration == 0)) [
        | inl e' ↦
            let no : ⊥ = omega (arith, past_zero b s.duration e', (past_suc a s.duration e).0, h) in
            elim no [ ]
        | inr e' ↦ rw (e, e') (omega (arith, ih))
      ]
]

-- The search finds that segment.
pub find_segment-segment_at :
    (ss : List MediaSegment) (rest : Segments) (a : ℕ) (s : MediaSegment)
    → All (λ s. (s.duration == 0) ≡ false) ss
    → get_elem? ss (segment_at a ss) ≡ some s
    → find_segment (map some ss ++ rest) (pos a) ≡ ok (info_of s (pos (offset_at a ss)))
unfolding find_segment segment_at offset_at
find_segment-segment_at [] rest a s p = λ h. cc
find_segment-segment_at (x ∷ ss) rest a s p = elim (Bool-cases (past (pos a) x.duration == 0)) [
  | inl e ↦ rw e (rw p.0 (λ h. cc))
  | inr e ↦ rw e (rw p.0 (λ h. find_segment-segment_at ss rest (past (pos a) x.duration) s p.1 h))
]
