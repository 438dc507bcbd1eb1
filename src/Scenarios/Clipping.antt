-- ===== src/Scenarios/Clipping.antt =====
-- Clips of a recording of three segments.
use dms_api.Prelude.{
  ℕ, zero, suc, ◌+◌, ◌≡◌, refl, none, some, List, [], ◌∷◌, ◌++◌, map, arith, inl, get_elem?,
}
use dms_api.Prelude.Int.{pos}
use dms_api.Result.{ok}
use dms_api.Video.Clip.{
  MediaSegment, Segments, GetAllSegments, ClipSegmentInfo, info_of, clip_between, clip_manifest,
  total, validate_clipping_request, past,
}
use dms_api.Video.Clip.Span.{IsRecording, IsSpan}
use dms_api.Video.Clip.Request.{clip_between-IsSpan, clip_between-before}

abbrev segment : ℕ → ℕ → MediaSegment
segment i d = record {
  seq_id = i;
  duration = d;
  program_date_time = some (1700000000000000000 + i);
}

abbrev three : List MediaSegment
three = segment 0 10416000 ∷ segment 1 5334000 ∷ segment 2 9250000 ∷ []

abbrev playlist : Segments
playlist = map some three ++ none ∷ none ∷ []

abbrev held_segments : GetAllSegments
held_segments [] = []
held_segments (none ∷ ss) = []
held_segments (some s ∷ ss) = s ∷ held_segments ss

three_numbered : (i : ℕ) (s : MediaSegment) → get_elem? three i ≡ some s → s.seq_id ≡ i
three_numbered zero s = λ h. cc
three_numbered (suc zero) s = λ h. cc
three_numbered (suc (suc zero)) s = λ h. cc
three_numbered (suc (suc (suc i))) s = λ h. cc

three_recorded : IsRecording held_segments playlist three
three_recorded = record {
  unused = none ∷ none ∷ [];
  ring = refl;
  held = refl;
  numbered = three_numbered;
  lasting = (refl, (refl, (refl, tt)));
  nonempty = omega arith;
  countable = omega arith;
}

-- From 1 s to 12 s: the first two segments.
two_segments :
    clip_between held_segments playlist 1700000001000 1700000012000
    ≡ some (
        ok (
          some (segment 0 10416000) ∷ some (segment 1 5334000) ∷ [],
          info_of (segment 0 10416000) (pos 1000000)
              ∷ info_of (segment 1 5334000) (pos 1584000)
              ∷ [],
        ))
unfolding clip_between clip_manifest past
two_segments = refl

clip_between-IsSpan_example :
    (relevant : Segments) × (infos : List ClipSegmentInfo) × (clip_between held_segments playlist
        1700000001000 1700000012000
      ≡ some (ok (relevant, infos)))
    × IsSpan three 1000000 12000000 relevant infos
unfolding validate_clipping_request total
clip_between-IsSpan_example =
    clip_between-IsSpan held_segments playlist three three_recorded (segment 0 10416000)
      1700000000000000000 refl refl 1700000001000 1700000012000 refl (omega arith) (omega arith)
      (inl (omega arith))

clip_between-before_example :
    clip_between held_segments playlist 1699999990000 1699999995000
    ≡ some (ok (some (segment 0 10416000) ∷ [], info_of (segment 0 10416000) (pos 0) ∷ []))
unfolding validate_clipping_request
clip_between-before_example =
    clip_between-before held_segments playlist three three_recorded (segment 0 10416000)
      1700000000000000000 refl refl 1699999990000 1699999995000 refl (omega arith)
