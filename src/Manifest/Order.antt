-- ===== src/Manifest/Order.antt =====
-- `GenerateAndUploadManifests` of clients/manifest.go: the order of the uploads.
use dms_api.Prelude.{
  ℕ, suc, ◌≡◌, refl, ap, ◌∙◌, String, concat, Bool, true, false, Option, none, some, List, [], ◌∷◌,
  ◌++◌, map, All,
}
use dms_api.Errors.{Error}
use dms_api.Result.{Result, ok, err}
use dms_api.Video.Profiles.{format_int}
use dms_api.Manifest.Upload.{
  RenditionStats, sort_transcoded_stats, swap_large, OutSegment, rendition_segments, mark_last,
  mark_clip, rendition_playlist, Put, Target, rendition_put, master_put, Variant, variants, master,
  rendition, continue_with, after_put, put_renditions, put_master, finish_upload,
  generate_and_upload_manifests,
}
use dms_api.Manifest.Sorting.{
  IsRearranged, IsSorted, IsSwapped, sort-IsRearranged, sort-IsSorted, swap-IsSwapped,
}

-- What a master playlist says of a rendition, and what it is to say.
abbrev pub shown : Variant → String × ℕ × ℕ
shown v = (v.uri, v.bandwidth, v.frame_rate)

abbrev pub to_show : RenditionStats → String × ℕ × ℕ
to_show r = (concat r.name "/index.m3u8", r.bits_per_second, r.fps)

shown-variants : (i : ℕ) (ss : List RenditionStats) → map shown (variants i ss) ≡ map to_show ss
unfolding variants
shown-variants i [] = refl
shown-variants i (s ∷ ss) = ap (λ l. to_show s ∷ l) (shown-variants (suc i) ss)

-- The upload of a rendition's playlist, and that of the master.
abbrev pub playlist_upload : String → List OutSegment → RenditionStats → Put
playlist_upload target segs r = record {
  url = concat target (concat "/" r.name);
  file = "index.m3u8";
  playlist = rendition segs;
}

abbrev pub master_upload : String → List Variant → Put
master_upload target vs = record { url = target; file = "index.m3u8"; playlist = master vs }

-- The segments of a rendition.
abbrev pub numbered : ℕ → List (Option ℕ) → List (String × ℕ)
numbered i [] = []
numbered i (none ∷ ds) = []
numbered i (some d ∷ ds) = (concat (format_int i) ".ts", d) ∷ numbered (suc i) ds

abbrev pub body : List OutSegment → List (String × ℕ)
body segs = map (λ (s : OutSegment). (s.uri, s.duration)) segs

body-segments :
    (i : ℕ) (source : List (Option ℕ)) → body (rendition_segments i source) ≡ numbered i source
unfolding rendition_segments
body-segments i [] = refl
body-segments i (none ∷ ds) = refl
body-segments i (some d ∷ ds) =
    ap (λ l. (concat (format_int i) ".ts", d) ∷ l) (body-segments (suc i) ds)

body-mark_last : (segs : List OutSegment) → body (mark_last segs) ≡ body segs
unfolding mark_last
body-mark_last [] = refl
body-mark_last (s ∷ []) = refl
body-mark_last (s ∷ t ∷ rest) = ap (λ l. (s.uri, s.duration) ∷ l) (body-mark_last (t ∷ rest))

body-mark_clip : (segs : List OutSegment) → body (mark_clip segs) ≡ body segs
unfolding mark_clip
body-mark_clip [] = refl
body-mark_clip (s ∷ []) = refl
body-mark_clip (s ∷ t ∷ rest) =
    ap (λ l. (s.uri, s.duration) ∷ l) (body-mark_last (record t { discontinuity = true } ∷ rest))

body-playlist :
    (source : List (Option ℕ)) (is_clip : Bool)
    → body (rendition_playlist source is_clip) ≡ numbered 0 source
unfolding rendition_playlist
body-playlist source true = body-mark_clip (rendition_segments 0 source) ∙ body-segments 0 source
body-playlist source false = body-segments 0 source

-- The uploads.
module _ (t : Target) (target : String) (segs : List OutSegment) where
  abbrev Sent : List RenditionStats → List Put × Result (List RenditionStats) → Type 0
  Sent ss (puts, err e) = Unit
  Sent ss (puts, ok out) =
      (puts ≡ map (rendition_put target segs) ss) × All (λ p. t.put p ≡ none) puts

  Sent-cons :
      (s : RenditionStats) (ss : List RenditionStats) (s' : RenditionStats) (o : Option Error)
      (rest : List Put × Result (List RenditionStats))
      → t.put (rendition_put target segs s) ≡ o
      → Sent ss rest
      → Sent (s ∷ ss) (after_put (rendition_put target segs s) s' o rest)
  unfolding after_put continue_with
  Sent-cons s ss s' (some e) rest h r = tt
  Sent-cons s ss s' none (puts, err e) h r = tt
  Sent-cons s ss s' none (puts, ok out) h r =
      (ap (λ l. rendition_put target segs s ∷ l) r.0, (h, r.1))

  renditions-Sent : (ss : List RenditionStats) → Sent ss (put_renditions t target segs ss)
  unfolding put_renditions
  renditions-Sent [] = (refl, tt)
  renditions-Sent (s ∷ ss) =
      Sent-cons s ss _ (t.put (rendition_put target segs s)) (put_renditions t target segs ss) refl
        (renditions-Sent ss)

  all_snoc :
      (puts : List Put) (m : Put)
      → All (λ p. t.put p ≡ none) puts
      → t.put m ≡ none
      → All (λ p. t.put p ≡ none) (puts ++ m ∷ [])
  all_snoc [] m h e = (e, tt)
  all_snoc (p ∷ puts) m h e = (h.0, all_snoc puts m h.1 e)

  master_stored : (o : Option Error) (url : String) → put_master t target o ≡ ok url → o ≡ none
  unfolding put_master
  master_stored (some e) url h = cc
  master_stored none url h = refl

  finish_upload-Sent :
      (ss : List RenditionStats) (m : Put) (l : List Put × Result (List RenditionStats))
      (url : String)
      → Sent ss l
      → (finish_upload t target m l).1 ≡ ok url
      → ((finish_upload t target m l).0 ≡ map (rendition_put target segs) ss ++ m ∷ [])
        × All (λ p. t.put p ≡ none) (finish_upload t target m l).0
  unfolding finish_upload
  finish_upload-Sent ss m (puts, err e) url h u = let no : ⊥ = cc in elim no [ ]
  finish_upload-Sent ss m (puts, ok out) url h u =
      (ap (λ l. l ++ m ∷ []) h.0, all_snoc puts m h.1 (master_stored (t.put m) url u))

-- When the URL of a master playlist is returned, exactly these uploads were made, in this order,
-- and all succeeded: a playlist for each rendition, and then the master with an entry for each, in
-- the same order; each rendition has the segments of the source up to its end, numbered from zero,
-- with their durations. The renditions are those that were given, with the highest bitrate first
-- and, of the same bitrate, the largest picture; only the first two have changed places exactly
-- where the first one has a side of 960 or more.
pub generate-uploads :
    (t : Target) (target : String) (source : List (Option ℕ)) (is_clip : Bool)
    (stats : List RenditionStats) (url : String)
    → (generate_and_upload_manifests t target source is_clip stats).1 ≡ ok url
    → let segs = rendition_playlist source is_clip in
      let puts = (generate_and_upload_manifests t target source is_clip stats).0 in
      (l : List RenditionStats) × (ordered : List RenditionStats) × (vs : List Variant)
      × IsRearranged l stats
      × IsSorted l
      × IsSwapped l ordered
      × (puts ≡ map (playlist_upload target segs) ordered ++ master_upload target vs ∷ [])
      × (map shown vs ≡ map to_show ordered)
      × All (λ p. t.put p ≡ none) puts
      × (body segs ≡ numbered 0 source)
unfolding generate_and_upload_manifests
generate-uploads t target source is_clip stats url h =
    let l = sort_transcoded_stats stats in
    let ordered = swap_large l in
    let segs = rendition_playlist source is_clip in
    let r =
      finish_upload-Sent t target segs ordered (master_put target ordered)
        (put_renditions t target segs ordered) url (renditions-Sent t target segs ordered) h in
    (
      l,
      ordered,
      variants 0 ordered,
      sort-IsRearranged stats,
      sort-IsSorted stats,
      swap-IsSwapped l,
      r.0,
      shown-variants 0 ordered,
      r.1,
      body-playlist source is_clip,
    )
