-- ===== src/Video/Segments.antt =====
-- video/media.go: the tables of the segments that are transcoded in parallel, by rendition and
-- index, and their way to the disk, which is a parameter. A method is one step, since it holds the
-- mutex of its table. A rendition that is not in the table is a nil list, on which the code panics.
pub mod Written
use dms_api.Prelude.{ℕ, String, concat, Option, none, some, List, [], ◌∷◌, ◌==◌, if◌then◌else◌}
use dms_api.Prelude.Dict.{Dict, get, put, get-put}
use dms_api.Errors.{Error, wrapped}
use dms_api.Video.Profiles.{format_int}

abbrev pub Bytes : Type 0
Bytes = List ℕ

-- `TSegmentList`
abbrev pub SegmentList : Type 0
SegmentList = List (ℕ × Bytes)

-- `GetSegment`: a missing segment is the nil slice.
unfoldable pub get_segment : ℕ → SegmentList → Bytes
get_segment i [] = []
get_segment i ((j, content) ∷ l) = if j == i then content else get_segment i l

-- `AddSegmentData`: the newest entry of an index stands first.
unfoldable pub add_segment_data : ℕ → Bytes → SegmentList → SegmentList
add_segment_data i content l = (i, content) ∷ l

-- `RemoveSegmentData`
unfoldable pub remove_segment_data : ℕ → SegmentList → SegmentList
unfolding add_segment_data
remove_segment_data i l = add_segment_data i [] l

-- `TRenditionList`, with `GetSegmentList` and `AddRenditionSegment`
abbrev pub RenditionList : Type 0
RenditionList = Dict SegmentList

unfoldable pub add_rendition_segment : String → SegmentList → RenditionList → RenditionList
unfolding put
add_rendition_segment name l r = put name l r

-- `TranscodedSegmentInfo`
pub record TranscodedSegmentInfo : Type 0 where
  pub request_id : String
  pub rendition_name : String
  pub segment_index : ℕ

-- What the disk gives on the creation of a file and on a write to it.
pub record Disk : Type 0 where
  pub create : String → Option Error
  pub write : String → Bytes → Option Error
  pub join_path : String → String → String

unfoldable pub file_name : Disk → String → TranscodedSegmentInfo → String
unfolding format_int
file_name d dir info = d.join_path dir (
    concat info.request_id (
      concat "_"
        (concat info.rendition_name (concat "_" (concat (format_int info.segment_index) ".ts")))))

pub data Stored : Type 0 where
  -- the files in order, and the tables
  stored : List (String × Bytes) → RenditionList → Stored
  store_failed : Error → Stored
  nil_list : Stored

unfoldable pub add_file : String × Bytes → Stored → Stored
add_file f (stored files r) = stored (f ∷ files) r
add_file f (store_failed e) = store_failed e
add_file f nil_list = nil_list

-- One segment, after the two calls of the disk.
unfoldable pub after_write : Option Error → Option Error → String × Bytes → Stored → Stored
unfolding add_file
after_write (some e) w f rest =
    store_failed (wrapped "error creating .ts file to write transcoded segment content err: " e)
after_write none (some e) f rest = store_failed (wrapped "error writing segment err: " e)
after_write none none f rest = add_file f rest

unfoldable pub take_segment : RenditionList → TranscodedSegmentInfo → SegmentList → RenditionList
unfolding remove_segment_data put
take_segment r info l = put info.rendition_name (remove_segment_data info.segment_index l) r

unfoldable pub with_list : Option SegmentList → (SegmentList → Stored) → Stored
with_list none k = nil_list
with_list (some l) k = k l

-- `WriteSegmentsToDisk`
unfoldable pub write_segments_to_disk :
    Disk → String → RenditionList → List TranscodedSegmentInfo → Stored
unfolding get after_write with_list take_segment get_segment file_name
write_segments_to_disk d dir r [] = stored [] r
write_segments_to_disk d dir r (info ∷ infos) = with_list (get info.rendition_name r) (λ l.
    let content = get_segment info.segment_index l in
    let name = file_name d dir info in
    after_write (d.create name) (d.write name content) (name, content)
      (write_segments_to_disk d dir (take_segment r info l) infos))
