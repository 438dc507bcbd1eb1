-- ===== src/Manifest/Upload.antt =====
-- clients/manifest.go: `GenerateAndUploadManifests`, the playlists of the renditions and the master
-- playlist. An upload is what it gives after its retries. `sort.Slice` is a sort by insertion; the
-- order that it leaves equal renditions in is one of those the library may choose. A segment that
-- the ring of the source playlist does not hold is `none`; the playlist of a rendition has room for
-- the others.
use dms_api.Prelude.{
  ℕ, suc, ◌*◌, String, concat, Bool, true, false, ◌||◌, Option, none, some, List, [], ◌∷◌, ◌++◌,
  ltb, leb, if◌then◌else◌,
}
use dms_api.Errors.{Error, wrapped}
use dms_api.Result.{Result, ok, err}
use dms_api.Video.Profiles.{format_int}

-- `RenditionStats`, the fields that are read and the one that is written here
pub record RenditionStats : Type 0 where
  pub name : String
  pub width : ℕ
  pub height : ℕ
  pub fps : ℕ
  pub bits_per_second : ℕ
  pub manifest_location : String

-- The order of `SortTranscodedStats`: the higher bitrate first, then the larger picture.
unfoldable pub goes_first : RenditionStats → RenditionStats → Bool
goes_first a b =
    if ltb b.bits_per_second a.bits_per_second
    then true
    else if ltb a.bits_per_second b.bits_per_second
    then false
    else ltb (b.width * b.height) (a.width * a.height)

unfoldable pub insert_stats : RenditionStats → List RenditionStats → List RenditionStats
unfolding goes_first
insert_stats a [] = a ∷ []
insert_stats a (b ∷ bs) =
    let rest = insert_stats a bs in if goes_first b a then b ∷ rest else a ∷ b ∷ bs

-- `SortTranscodedStats`
unfoldable pub sort_transcoded_stats : List RenditionStats → List RenditionStats
unfolding insert_stats
sort_transcoded_stats [] = []
sort_transcoded_stats (a ∷ rest) = insert_stats a (sort_transcoded_stats rest)

-- The swap of the first two renditions where the first one is large.
unfoldable pub swap_large : List RenditionStats → List RenditionStats
swap_large (a ∷ b ∷ rest) =
    if leb 960 a.width || leb 960 a.height then b ∷ a ∷ rest else a ∷ b ∷ rest
swap_large stats = stats

-- A segment of a playlist that is written.
pub record OutSegment : Type 0 where
  pub uri : String
  pub duration : ℕ
  pub discontinuity : Bool

-- `Append` of the source's segments up to the first one that is nil, from the index `i`.
unfoldable pub rendition_segments : ℕ → List (Option ℕ) → List OutSegment
unfolding format_int
rendition_segments i [] = []
rendition_segments i (none ∷ ds) = []
rendition_segments i (some d ∷ ds) =
    record { uri = concat (format_int i) ".ts"; duration = d; discontinuity = false }
    ∷ rendition_segments (suc i) ds

abbrev marked : OutSegment → OutSegment
marked s = record s { discontinuity = true }

unfoldable pub mark_last : List OutSegment → List OutSegment
mark_last [] = []
mark_last (s ∷ []) = marked s ∷ []
mark_last (s ∷ t ∷ rest) = s ∷ mark_last (t ∷ rest)

-- The marks on a clip: its second and its last segment, if there is more than one.
unfoldable pub mark_clip : List OutSegment → List OutSegment
unfolding mark_last
mark_clip (s ∷ t ∷ rest) = s ∷ mark_last (marked t ∷ rest)
mark_clip segs = segs

unfoldable pub rendition_playlist : List (Option ℕ) → Bool → List OutSegment
unfolding mark_clip rendition_segments
rendition_playlist source is_clip =
    if is_clip then mark_clip (rendition_segments 0 source) else rendition_segments 0 source

-- An entry of the master playlist; a rendition name is one that `path.Join` leaves as it is.
pub record Variant : Type 0 where
  pub uri : String
  pub name : String
  pub bandwidth : ℕ
  pub frame_rate : ℕ
  pub resolution : String

abbrev pub variant : ℕ → RenditionStats → Variant
variant i p = record {
  uri = concat p.name "/index.m3u8";
  name = concat (format_int i) (concat "-" p.name);
  bandwidth = p.bits_per_second;
  frame_rate = p.fps;
  resolution = concat (format_int p.width) (concat "x" (format_int p.height));
}

unfoldable pub variants : ℕ → List RenditionStats → List Variant
variants i [] = []
variants i (p ∷ ps) = variant i p ∷ variants (suc i) ps

-- What is written: the playlist of a rendition, closed, or the master playlist.
pub data Playlist : Type 0 where
  rendition : List OutSegment → Playlist
  master : List Variant → Playlist

pub record Put : Type 0 where
  pub url : String
  pub file : String
  pub playlist : Playlist

-- Storage: what an upload gives, and `url.JoinPath`.
pub record Target : Type 0 where
  pub put : Put → Option Error
  pub join_path : String → String → Result String

abbrev location : Result String → String
location (ok url) = url
location (err e) = ""

abbrev pub rendition_put : String → List OutSegment → RenditionStats → Put
rendition_put target segs p = record {
  url = concat target (concat "/" p.name);
  file = "index.m3u8";
  playlist = rendition segs;
}

abbrev pub master_put : String → List RenditionStats → Put
master_put target stats = record {
  url = target;
  file = "index.m3u8";
  playlist = master (variants 0 stats);
}

-- What the loop has done: its uploads in order, with the rendition stats or the error.
abbrev Looped : Type 0
Looped = List Put × Result (List RenditionStats)

unfoldable pub continue_with : Put → RenditionStats → Looped → Looped
continue_with p s (puts, err e) = (p ∷ puts, err e)
continue_with p s (puts, ok stats) = (p ∷ puts, ok (s ∷ stats))

unfoldable pub after_put : Put → RenditionStats → Option Error → Looped → Looped
unfolding continue_with
after_put p s (some e) rest = (p ∷ [], err (wrapped "failed to upload rendition playlist: " e))
after_put p s none rest = continue_with p s rest

-- The loop over the renditions.
unfoldable pub put_renditions : Target → String → List OutSegment → List RenditionStats → Looped
unfolding after_put
put_renditions t target segs [] = ([], ok [])
put_renditions t target segs (s ∷ ss) =
    let p = rendition_put target segs s in
    after_put p (record s { manifest_location = location (t.join_path p.url p.file) }) (t.put p)
      (put_renditions t target segs ss)

unfoldable pub in_text : Result String → Result String
in_text (err e) = err (wrapped "failed to create URL for master playlist: " e)
in_text (ok url) = ok url

unfoldable pub put_master : Target → String → Option Error → Result String
unfolding in_text
put_master t target (some e) = err (wrapped "failed to upload master playlist: " e)
put_master t target none = in_text (t.join_path target "index.m3u8")

unfoldable pub finish_upload : Target → String → Put → Looped → List Put × Result String
unfolding put_master
finish_upload t target m (puts, err e) = (puts, err e)
finish_upload t target m (puts, ok stats) = (puts ++ m ∷ [], put_master t target (t.put m))

-- `GenerateAndUploadManifests`: the uploads in order, and the URL of the master playlist
unfoldable pub generate_and_upload_manifests :
    Target → String → List (Option ℕ) → Bool → List RenditionStats → List Put × Result String
unfolding put_renditions finish_upload swap_large sort_transcoded_stats rendition_playlist variants
generate_and_upload_manifests t target source is_clip stats =
    let ordered = swap_large (sort_transcoded_stats stats) in
    finish_upload t target (master_put target ordered)
      (put_renditions t target (rendition_playlist source is_clip) ordered)
