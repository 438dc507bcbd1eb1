-- ===== src/Scenarios/Playlists.antt =====
-- The client of Mist's API, the manifests in storage and the tables of segments at concrete inputs.
use dms_api.Prelude.{
  ℕ, ◌≡◌, refl, String, concat, true, false, none, some, List, [], ◌∷◌, ◌++◌, map, str_eq,
  if◌then◌else◌, ◌↔◌, All,
}
use dms_api.Prelude.Dict.{get}
use dms_api.Errors.{plain}
use dms_api.Result.{ok}
use dms_api.MistClient.TriggerConfig.{
  Triggers, command_add_trigger, command_delete_trigger, check_added, check_deleted,
}
use dms_api.MistClient.Laws.{new_trigger, sent_triggers-accepted}
use dms_api.Video.Segments.{RenditionList, TranscodedSegmentInfo, Disk, write_segments_to_disk}
use dms_api.Video.Segments.Written.{IsWritten, write_segments-IsWritten}
use dms_api.Manifest.{Download, Segment, Storage, choose, relocate}
use dms_api.Manifest.Choice.{IsChosen, choose-IsChosen, AllAt, relocate_iff}
use dms_api.Manifest.Upload.{
  RenditionStats, Variant, rendition_playlist, Target, generate_and_upload_manifests,
}
use dms_api.Manifest.Sorting.{IsRearranged, IsSorted, IsSwapped}
use dms_api.Manifest.Order.{
  playlist_upload, master_upload, shown, to_show, numbered, body, generate-uploads,
}

abbrev hooks : Triggers
hooks = ("PUSH_END", new_trigger ("video" ∷ []) "http://old" false ∷ []) ∷ []

sent_triggers-accepted_example :
    (check_added
        ("video" ∷ [])
        "PUSH_END"
        true
        (command_add_trigger ("video" ∷ []) "PUSH_END" "http://new" hooks true)
      ≡ none)
    × (check_deleted
          ("video" ∷ [])
          "PUSH_END"
          (command_delete_trigger ("video" ∷ []) "PUSH_END" hooks)
        ≡ none)
    × (check_deleted ("video" ∷ []) "PUSH_END" (
          command_delete_trigger
            ("video" ∷ [])
            "PUSH_END"
            (command_add_trigger ("video" ∷ []) "PUSH_END" "http://new" hooks true))
        ≡ none)
    × ((j : String)
        → str_eq "PUSH_END" j ≡ false
        → (get j (command_add_trigger ("video" ∷ []) "PUSH_END" "http://new" hooks true)
            ≡ get j hooks)
          × (get j (command_delete_trigger ("video" ∷ []) "PUSH_END" hooks) ≡ get j hooks))
sent_triggers-accepted_example =
    sent_triggers-accepted ("video" ∷ []) "PUSH_END" "http://new" true hooks

abbrev small : Download
small = record { segments = []; is_media = true; size = 10 }

abbrev large : Download
large = record { segments = []; is_media = true; size = 20 }

choose-IsChosen_example :
    IsChosen "s3://a" "s3://b"
      (ok small)
      (some (ok large))
      (choose "s3://a" "s3://b" (ok small) (some (ok large)))
choose-IsChosen_example = choose-IsChosen "s3://a" "s3://b" (ok small) (some (ok large))

abbrev storage : Storage
storage = record {
  fallbacks = ("s3://a", "s3://b") ∷ [];
  download = λ url. ok small;
  segment_url = λ base uri. ok (concat "s3://a/" uri);
  get_file = λ url. if str_eq url "s3://a/1.ts" then some (plain "not found") else none;
  upload = λ url segs. none;
  sign_url = λ url. ok url;
  parse_url = λ url. ok url;
  join_path = λ url file. concat url file;
}

abbrev seg : String → Segment
seg uri = record { uri = uri; duration = 5000 }

relocate_iff_example :
    (relocate storage "s3://a" (seg "0.ts" ∷ seg "1.ts" ∷ [])
      ≡ ok (seg "s3://a/0.ts" ∷ seg "s3://b/1.ts" ∷ [], true))
    ↔ AllAt storage "s3://a"
        (seg "0.ts" ∷ seg "1.ts" ∷ [])
        (seg "s3://a/0.ts" ∷ seg "s3://b/1.ts" ∷ [])
        true
relocate_iff_example =
    relocate_iff storage "s3://a" (seg "0.ts" ∷ seg "1.ts" ∷ [])
      (seg "s3://a/0.ts" ∷ seg "s3://b/1.ts" ∷ []) true

abbrev stats : String → ℕ → ℕ → ℕ → RenditionStats
stats name width height rate = record {
  name = name;
  width = width;
  height = height;
  fps = 30;
  bits_per_second = rate;
  manifest_location = "";
}

abbrev both : List RenditionStats
both = stats "360p0" 640 360 1000000 ∷ stats "1080p0" 1920 1080 6000000 ∷ []

abbrev bucket : Target
bucket = record { put = λ p. none; join_path = λ url file. ok (concat url file) }

all_stored :
    (generate_and_upload_manifests bucket "s3://o/" (some 5000 ∷ some 4000 ∷ none ∷ []) true both).1
    ≡ ok "s3://o/index.m3u8"
unfolding generate_and_upload_manifests
all_stored = refl

generate-uploads_example :
    let segs = rendition_playlist (some 5000 ∷ some 4000 ∷ none ∷ []) true in
    let puts =
      (generate_and_upload_manifests bucket "s3://o/"
        (some 5000 ∷ some 4000 ∷ none ∷ [])
        true
        both).0 in
    (l : List RenditionStats) × (ordered : List RenditionStats) × (vs : List Variant) × IsRearranged
      l both
    × IsSorted l
    × IsSwapped l ordered
    × (puts ≡ map (playlist_upload "s3://o/" segs) ordered ++ master_upload "s3://o/" vs ∷ [])
    × (map shown vs ≡ map to_show ordered)
    × All (λ p. bucket.put p ≡ none) puts
    × (body segs ≡ numbered 0 (some 5000 ∷ some 4000 ∷ none ∷ []))
generate-uploads_example =
    generate-uploads bucket "s3://o/" (some 5000 ∷ some 4000 ∷ none ∷ []) true both
      "s3://o/index.m3u8" all_stored

abbrev tables : RenditionList
tables = ("360p0", (0, 7 ∷ 8 ∷ []) ∷ (1, 9 ∷ []) ∷ []) ∷ []

abbrev batch : List TranscodedSegmentInfo
batch =
    record { request_id = "r"; rendition_name = "360p0"; segment_index = 0 }
    ∷ record { request_id = "r"; rendition_name = "360p0"; segment_index = 1 }
    ∷ []

abbrev free_disk : Disk
free_disk = record {
  create = λ name. none;
  write = λ name bytes. none;
  join_path = λ dir name. concat dir (concat "/" name);
}

write_segments-IsWritten_example :
    IsWritten free_disk "/tmp" tables batch (write_segments_to_disk free_disk "/tmp" tables batch)
write_segments-IsWritten_example =
    write_segments-IsWritten free_disk "/tmp" batch tables (refl, (refl, tt))
