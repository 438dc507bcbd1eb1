-- ===== src/Video/Clip.antt =====
-- video/clip.go: the segments of a clip, and `ValidateClippingRequest` of handlers/upload.go. Times
-- are whole microseconds where the source has seconds in `float64`; the rounding to milliseconds is
-- written out. A segment that the ring of the playlist does not hold is `none`; `GetAllSegments` of
-- the playlist library is a parameter.
pub mod Rings
pub mod Playhead
pub mod Span
pub mod Request
use dms_api.Prelude.{
  ℕ, ◌+◌, ◌-◌, ◌*◌, ◌/◌, ◌%◌, String, Bool, false, ◌&&◌, Option, none, some, List, [], ◌∷◌, ltb,
  leb, ◌==◌, if◌then◌else◌, length, get_elem?, take, drop,
}
use dms_api.Prelude.Int.{ℤ, pos, negsuc}
use dms_api.Errors.{Error, plain, wrapped}
use dms_api.Result.{Result, ok, err}
use dms_api.Pipeline.Job.{ClipStrategy}

-- The fields of the library's segment that the code reads; a time in nanoseconds, or the zero time.
pub record MediaSegment : Type 0 where
  pub seq_id : ℕ
  pub duration : ℕ
  pub program_date_time : Option ℕ

-- `MediaPlaylist.Segments`
abbrev pub Segments : Type 0
Segments = List (Option MediaSegment)

-- `MediaPlaylist.GetAllSegments`
abbrev pub GetAllSegments : Type 0
GetAllSegments = Segments → List MediaSegment

pub record ClipSegmentInfo : Type 0 where
  pub sequence_id : ℕ
  pub duration : ℕ
  pub clip_offset : ℤ

unfoldable pub total : List MediaSegment → ℕ
total [] = 0
total (s ∷ ss) = s.duration + total ss

-- `GetTotalDurationAndSegments` of a playlist that is not nil.
unfoldable pub get_total_duration_and_segments : GetAllSegments → Segments → ℕ × ℕ
unfolding total
get_total_duration_and_segments get_all m = (total (get_all m), length (get_all m))

-- How far a playhead is past a segment of some duration, rounded to milliseconds; 0 where it is not
-- past it.
unfoldable pub past : ℤ → ℕ → ℕ
past (pos a) duration = (a - duration + 500) / 1000 * 1000
past (negsuc a) duration = 0

abbrev pub info_of : MediaSegment → ℤ → ClipSegmentInfo
info_of s offset = record { sequence_id = s.seq_id; duration = s.duration; clip_offset = offset }

abbrev pub not_found : Error
not_found = plain "error clipping: did not find a segment"

abbrev pub zero_duration : Error
zero_duration = plain "error clipping: found 0s duration segments"

-- The loop of `getRelevantSegment`.
unfoldable pub find_segment : Segments → ℤ → Result ClipSegmentInfo
find_segment [] playhead = err not_found
find_segment (none ∷ ss) playhead = err not_found
find_segment (some s ∷ ss) playhead =
    let later = find_segment ss (pos (past playhead s.duration)) in
    if s.duration == 0
    then err zero_duration
    else if past playhead s.duration == 0
    then ok (info_of s playhead)
    else later

unfoldable pub get_relevant_segment : Segments → ℤ → ℕ → Result ClipSegmentInfo
unfolding find_segment
get_relevant_segment all playhead starting_idx = find_segment (drop starting_idx all) playhead

-- Seconds since the first segment began, in microseconds; unix times are in milliseconds.
unfoldable pub since : ℕ → ℕ → ℤ
since first t = if leb first t then pos ((t - first) * 1000) else negsuc ((first - t) * 1000 - 1)

unfoldable pub not_before_start : ℤ → ℤ
not_before_start (pos a) = pos a
not_before_start (negsuc a) = pos 0

unfoldable pub convert_unix_millis_to_seconds : MediaSegment → ℕ → ℕ → Result (ℤ × ℤ)
unfolding since not_before_start
convert_unix_millis_to_seconds first start_time end_time = elim first.program_date_time [
  | none ↦ err (plain "error clipping: PROGRAM-DATE-TIME of first segment is not set")
  | some nanos ↦
      ok (not_before_start (since (nanos / 1000000) start_time), since (nanos / 1000000) end_time)
]

unfoldable pub exceeds_total : ℤ → ℕ → Bool
exceeds_total (pos a) duration = ltb duration a
exceeds_total (negsuc a) duration = false

-- `uint64`
abbrev pub two_64 : ℕ
two_64 = 18446744073709551616

abbrev in_context : String → Result ClipSegmentInfo → Result ClipSegmentInfo
in_context msg (ok i) = ok i
in_context msg (err e) = err (wrapped msg e)

unfoldable pub start_info : GetAllSegments → Segments → ℤ → Result ClipSegmentInfo
unfolding exceeds_total get_relevant_segment get_total_duration_and_segments
start_info get_all m start_time =
    if exceeds_total start_time (get_total_duration_and_segments get_all m).0
    then err (plain "error clipping: start time specified exceeds duration of manifest")
    else in_context "error clipping: failed to get a starting index: "
        (get_relevant_segment m start_time 0)

-- The last segment, by its index; `none` is a panic.
unfoldable pub last_info : Segments → ℕ → Option (Result ClipSegmentInfo)
last_info m idx = elim (get_elem? m idx) [
  | none ↦ none
  | some none ↦ none
  | some (some s) ↦
      some (ok (record { sequence_id = idx; duration = s.duration; clip_offset = pos s.duration }))
]

abbrev no_ending : Result ClipSegmentInfo → Result ClipSegmentInfo
no_ending (ok i) = ok i
no_ending (err e) = err (plain "error clipping: failed to get an ending index")

unfoldable pub end_info : GetAllSegments → Segments → ℤ → Option (Result ClipSegmentInfo)
unfolding exceeds_total get_relevant_segment get_total_duration_and_segments last_info
end_info get_all m end_time =
    if exceeds_total end_time (get_total_duration_and_segments get_all m).0
    then last_info m (((get_total_duration_and_segments get_all m).1 + two_64 - 1) % two_64)
    else some (no_ending (get_relevant_segment m end_time 0))

-- A slice `xs[lo:hi]`; `none` is a panic.
unfoldable pub slice : {A : Type 0} → ℕ → ℕ → List A → Option (List A)
slice lo hi xs =
    if leb lo hi && leb hi (length xs) then some (take (hi - lo) (drop lo xs)) else none

abbrev pub ClipResult : Type 0
ClipResult = Result (Segments × List ClipSegmentInfo)

unfoldable pub checked : ClipSegmentInfo → ClipSegmentInfo → Segments → ClipResult
checked first last [] =
    err (plain "error clipping: no relevant segments found in the specified time range")
checked first last (s ∷ ss) =
    ok (s ∷ ss, if first.sequence_id == last.sequence_id then first ∷ [] else first ∷ last ∷ [])

unfoldable pub cut_out : Segments → ClipSegmentInfo → ClipSegmentInfo → Option ClipResult
unfolding slice checked
cut_out m first last = elim (slice first.sequence_id ((last.sequence_id + 1) % two_64) m) [
  | none ↦ none
  | some relevant ↦ some (checked first last relevant)
]

unfoldable pub from_start :
    GetAllSegments → Segments → ℤ → Result ClipSegmentInfo → Option ClipResult
unfolding end_info cut_out
from_start get_all m end_time (err e) = some (err e)
from_start get_all m end_time (ok first) = elim (end_info get_all m end_time) [
  | none ↦ none
  | some (err e) ↦ some (err e)
  | some (ok last) ↦ cut_out m first last
]

-- `ClipManifest`: a panic, or what it returns.
unfoldable pub clip_manifest : GetAllSegments → Segments → ℤ → ℤ → Option ClipResult
unfolding start_info from_start
clip_manifest get_all m start_time end_time =
    from_start get_all m end_time (start_info get_all m start_time)

abbrev pub in_unix_seconds : ℕ → Bool
in_unix_seconds t = leb 1000000000 t && leb t 9999999999

unfoldable pub validate_times : ℕ → ℕ → Option Error
validate_times start_time end_time =
    if in_unix_seconds start_time
    then some (plain "clip start time is in unix seconds, but should be milliseconds")
    else if in_unix_seconds end_time
    then some (plain "clip end time is in unix seconds, but should be milliseconds")
    else if start_time == end_time
    then some (plain "clip start time and end time should be different")
    else if ltb end_time start_time
    then some (plain "clip start time should be after end time")
    else none

-- `ValidateClippingRequest`
unfoldable pub validate_clipping_request : ℤ → ℤ → Option Error
unfolding validate_times
validate_clipping_request (negsuc a) end_time = some (plain "clip start time cannot be less than 0")
validate_clipping_request (pos a) (negsuc b) = some (plain "clip end time cannot be less than 0")
validate_clipping_request (pos a) (pos b) = validate_times a b

-- What `ClipInputManifest` takes from a playlist with its first segment: the times, then the
-- segments.
unfoldable pub clip_between :
    GetAllSegments → Segments → ℕ → ℕ → Option (Result (Segments × List ClipSegmentInfo))
unfolding convert_unix_millis_to_seconds
clip_between get_all m start_time end_time = elim (get_elem? m 0) [
  | none ↦ none
  | some none ↦ none
  | some (some s) ↦ elim (convert_unix_millis_to_seconds s start_time end_time) [
    | err e ↦
        some (err (wrapped "error clipping: failed to get start/end time offsets in seconds: " e))
    | ok times ↦ clip_manifest get_all m times.0 times.1
  ]
]
