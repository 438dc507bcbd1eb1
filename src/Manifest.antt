-- ===== src/Manifest.antt =====
-- clients/manifest.go, config/storage_backup_url.go and `GetFileWithBackup` of
-- clients/input_copy.go: media playlists in storage, which may be in a primary or in a backup
-- location. Storage, the playlist library and URLs are parameters; a download or an upload is what
-- it gives after its retries. A URL in a message is not redacted.
pub mod Upload
pub mod Order
pub mod Sorting
pub mod Backup
pub mod Choice
use dms_api.Prelude.{
  ℕ, String, concat, Bool, false, ◌&&◌, ◌||◌, not, Option, none, some, List, [], ◌∷◌, str_eq, ltb,
  if◌then◌else◌,
}
use text.Mathlib.Text.{starts_with}
use Prim.Native.String.{slice, len}
use Prim.Native.Char.{code}
use dms_api.Errors.{Error, plain, wrapped, message, is_object_not_found, is_unretriable}
use dms_api.Result.{Result, ok, err, ◌>>=◌}
use dms_api.Mapic.Names.{has_prefix}

-- What is left of a text after a prefix of it.
unfoldable pub after_prefix : String → String → String
after_prefix s p = slice s (len p) (len s)

-- `GetStorageBackupURL`, over the pairs of a primary and its backup; the first occurrence of the
-- prefix is the one at the start.
unfoldable pub get_storage_backup_url : List (String × String) → String → String
unfolding after_prefix
get_storage_backup_url [] url = ""
get_storage_backup_url ((primary, backup) ∷ rest) url =
    let other = get_storage_backup_url rest url in
    if starts_with url primary then concat backup (after_prefix url primary) else other

-- `m3u8.MediaPlaylist`: the URIs of its segments with their durations in milliseconds.
pub record Segment : Type 0 where
  pub uri : String
  pub duration : ℕ

-- A decoded playlist: a media playlist or another one, with the size of the file.
pub record Download : Type 0 where
  pub segments : List Segment
  pub is_media : Bool
  pub size : ℕ

abbrev pub Located : Type 0
Located = Result (String × Download)

at_url : String → Result Download → Located
at_url url (err e) = err e
at_url url (ok d) = ok (url, d)

-- The end of `downloadManifestWithBackup`, from the two URLs and the two downloads; the second one
-- is missing where there is no backup URL.
unfoldable pub choose : String → String → Result Download → Option (Result Download) → Located
unfolding at_url is_object_not_found
choose source backup p none = at_url source p
choose source backup (err e) (some (err f)) =
    if is_object_not_found e && is_object_not_found f
    then err e
    else if not (is_object_not_found e)
    then err e
    else if not (is_object_not_found f)
    then err f
    else err e
choose source backup (err e) (some (ok g)) =
    if not (is_object_not_found e) then err e else ok (backup, g)
choose source backup (ok d) (some (err f)) =
    if not (is_object_not_found f) then err f else ok (source, d)
choose source backup (ok d) (some (ok g)) =
    if ltb d.size g.size then ok (backup, g) else ok (source, d)

-- What the code around asks for.
pub record Storage : Type 0 where
  pub fallbacks : List (String × String)
  pub download : String → Result Download
  -- `ManifestURLToSegmentURL`
  pub segment_url : String → String → Result String
  -- `GetFile`, in the last of its tries: the error, if there is one
  pub get_file : String → Option Error
  pub upload : String → List Segment → Option Error
  pub sign_url : String → Result String
  pub parse_url : String → Result String
  pub join_path : String → String → String

-- `downloadManifestWithBackup`
unfoldable pub download_manifest_with_backup : Storage → String → Located
unfolding choose get_storage_backup_url
download_manifest_with_backup s source =
    let backup = get_storage_backup_url s.fallbacks source in
    choose source backup (s.download source)
      (if str_eq backup "" then none else some (s.download backup))

-- `convertToMediaPlaylist`
unfoldable pub convert_to_media_playlist : Download → Result (List Segment)
convert_to_media_playlist d =
    if d.is_media
    then ok d.segments
    else err (plain "received non-Media manifest, but currently only Media playlists are supported")

-- `DownloadRenditionManifest`
unfoldable pub download_rendition_manifest : Storage → String → Result (List Segment)
unfolding convert_to_media_playlist
download_rendition_manifest s url = do d ← s.download url; convert_to_media_playlist d

unfoldable pub in_text : String → Result String → Result String
in_text t (err e) = err (wrapped t e)
in_text t (ok x) = ok x

-- The end of `GetFileWithBackup`: the URL of the two at which the file is, or the error that may go
-- away in another try.
unfoldable pub found_at : String → String → Option Error → Option Error → Result String
found_at url backup none second = ok url
found_at url backup (some e) none = if str_eq backup "" then err e else ok backup
found_at url backup (some e) (some f) =
    if str_eq backup "" || not (is_unretriable e)
    then err e
    else if not (is_unretriable f)
    then err f
    else err e

-- `GetFileWithBackup`
unfoldable pub get_file_with_backup : Storage → String → Result String
unfolding found_at get_storage_backup_url
get_file_with_backup s url =
    let backup = get_storage_backup_url s.fallbacks url in
    found_at url backup (s.get_file url) (s.get_file backup)

-- One turn of the loop over the segments: the segment at the URL where it is found, and whether
-- that is another one.
unfoldable pub relocate_segment : Storage → String → Segment → Result (Segment × Bool)
unfolding in_text get_file_with_backup
relocate_segment s primary seg = do
  url ← in_text "error getting segment URL: " (s.segment_url primary seg.uri)
  actual ←
      in_text (concat "failed to find segment file " (concat url ": ")) (get_file_with_backup s url)
  ok (record seg { uri = actual }, not (str_eq actual url))

-- The loop of `RecordingBackupCheck`, with whether any segment has moved.
unfoldable pub relocate : Storage → String → List Segment → Result (List Segment × Bool)
unfolding relocate_segment
relocate s primary [] = ok ([], false)
relocate s primary (seg ∷ segs) = do
  r ← relocate_segment s primary seg
  rest ← relocate s primary segs
  ok (r.0 ∷ rest.0, r.1 || rest.1)

uploaded : Option Error → Result String → Result String
uploaded (some e) r = err (wrapped "failed to upload rendition playlist: " e)
uploaded none r = r

-- The new playlist: where it is put, and what is in it.
store_playlist : Storage → String → List Segment → Result (String × Option (List Segment))
unfolding in_text uploaded
store_playlist s transfer segs =
    let url = s.join_path transfer "input.m3u8" in
    do
      signed ←
          uploaded (s.upload url segs) (in_text "failed to sign manifest url: " (s.sign_url url))
      parsed ← in_text "failed to parse new manifest URL: " (s.parse_url signed)
      ok (parsed, some segs)

-- `RecordingBackupCheck`: the URL of the playlist to use, and the new playlist if one is written.
unfoldable pub recording_backup_check :
    Storage → String → String → Result (String × Option (List Segment))
unfolding relocate store_playlist download_manifest_with_backup convert_to_media_playlist
    get_storage_backup_url
recording_backup_check s primary transfer =
    if str_eq (get_storage_backup_url s.fallbacks primary) ""
    then ok (primary, none)
    else elim (download_manifest_with_backup s primary) [
      | err e ↦ err (wrapped "error downloading manifest: " e)
      | ok (url, d) ↦ do
        segs ← convert_to_media_playlist d
        r ← relocate s primary segs
        if not (str_eq url primary) || r.1
            then store_playlist s transfer r.0
            else ok (primary, none)
    ]

-- `GetSourceSegmentURLs`
unfoldable pub get_source_segment_urls : Storage → String → List Segment → Result (List Segment)
get_source_segment_urls s manifest_url [] = ok []
get_source_segment_urls s manifest_url (seg ∷ segs) = do
  url ← s.segment_url manifest_url seg.uri
  rest ← get_source_segment_urls s manifest_url segs
  ok (record seg { uri = url } ∷ rest)
