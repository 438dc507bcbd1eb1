-- ===== src/Geolocation/Redirect/Gateway.antt =====
-- The redirect handler over the catalyst balancer.
use dms_api.Prelude.{
  ℕ, ◌≡◌, ◌≢◌, refl, sym, ap, ◌∙◌, String, concat, Bool, true, false, not, ◌&&◌, Option, none, some,
  List, str_eq, ◌==◌, inl, inr, ◌⊎◌, Bool-cases, if_both,
}
use dms_api.Prelude.Int.{ℤ, pos}
use dms_api.Result.{Result, ok, err}
use dms_api.Balancer.Nodes.{Sort, Distance}
use dms_api.Balancer.Selection.{Shuffle}
use dms_api.Balancer.Selection.Counts.{IsSorting, IsRearranging}
use dms_api.Balancer.Stats.{Stats, first_or, coordinate, best_node}
use dms_api.Balancer.Stats.Node.{best_node_total}
use dms_api.Geolocation.Members.{resolve_node_url, Url}
use dms_api.Geolocation.Paths.{
  PathType, PlaybackPath, hls, json, webrtc, flv, is_valid_gps_coord, both_valid, parse_playback_id,
}
use dms_api.Geolocation.Redirect.{
  PlaybackRequest, Cdn, Balancer, Config, Response, status, redirect, place_of, to_cdn, is_drawn,
  cdn_step, cdn_answer, after_resolve, to_node, node_url, playback_step, closest, local_step,
  cdn_or_none, or_local, redirect_handler,
}

abbrev is_502 : Response → Bool
is_502 (status n) = n == 502
is_502 (redirect url) = false

abbrev pub IsPlace : (String → Result ℤ) → String → String → Type 0
IsPlace parse_float lat lon =
    ((lat ≡ "") × (lon ≡ "")) ⊎ (is_valid_gps_coord parse_float lat lon ≡ true)

place_of-IsPlace :
    (c : Config) (r : PlaybackRequest) → IsPlace c.parse_float (place_of c r).lat (place_of c r).lon
unfolding place_of
place_of-IsPlace c r =
    elim (Bool-cases (is_valid_gps_coord c.parse_float (r.query "lat") (r.query "lon"))) [
      | inl e ↦ rw e (inr e)
      | inr e ↦
          rw e
            (elim (Bool-cases
              (is_valid_gps_coord c.parse_float (r.header "X-Latitude") (r.header "X-Longitude"))) [
                | inl e' ↦ rw e' (inr e')
                | inr e' ↦ rw e' (inl (refl, refl))
              ])
    ]

-- The balancer finds a node wherever the coordinates are valid or empty.
abbrev Finds : (String → Result ℤ) → Balancer → Type 0
Finds parse_float balancer =
    (id lat lon prefix : String) (studio ingest : Bool)
    → IsPlace parse_float lat lon
    → (node : String × String) × (balancer id lat lon prefix studio ingest ≡ ok node)

after_resolve-fine : (s : Result String) → is_502 (after_resolve s) ≡ false
unfolding after_resolve
after_resolve-fine (err e) = refl
after_resolve-fine (ok url) = refl

closest-fine : (c : Config) (r : PlaybackRequest) (u : Result Url) → is_502 (closest c r u) ≡ false
unfolding closest
closest-fine c r (err e) = refl
closest-fine c r (ok u) = refl

some_inj : (x y : Response) → some x ≡ some y → x ≡ y
some_inj x y h = cc

cdn_answer_fine :
    (t : PathType) (answer x : Response)
    → is_502 answer ≡ false
    → cdn_answer t answer ≡ some x
    → is_502 x ≡ false
unfolding cdn_answer
cdn_answer_fine hls answer x e = λ h. sym (ap is_502 (some_inj answer x h)) ∙ e
cdn_answer_fine webrtc answer x e = λ h. sym (ap is_502 (some_inj (status 406) x h))
cdn_answer_fine json answer x e = λ h. cc
cdn_answer_fine flv answer x e = λ h. cc

module _ (c : Config) (balancer : Balancer) (r : PlaybackRequest)
    (finds : Finds c.parse_float balancer) where
  playback_fine : (p : PlaybackPath) → is_502 (playback_step c balancer r p) ≡ false
  unfolding playback_step to_node
  playback_fine p =
      let (node, e) =
        finds p.playback_id (place_of c r).lat (place_of c r).lon p.prefix (place_of c r).is_studio
          (str_eq (r.query "ingestpb") "true") (place_of-IsPlace c r) in
      rw (playback_step, e)
        (after_resolve-fine (resolve_node_url c.tools c.members (node_url c r p node)))

  local_fine : (path : Option PlaybackPath) → is_502 (local_step c balancer r path) ≡ false
  unfolding local_step
  local_fine none =
      if_both (λ x. is_502 x ≡ false)
        (not (str_eq c.node_host "") && not (str_eq c.node_host r.host))
        (closest c r (c.tools.parse (c.tools.print r.url))) (status 404)
        (λ _. closest-fine c r (c.tools.parse (c.tools.print r.url))) (λ _. refl)
  local_fine (some p) =
      if_both (λ x. is_502 x ≡ false)
        (not (str_eq c.node_host "") && not (str_eq c.node_host r.host))
        (closest c r (c.tools.parse (c.tools.print r.url))) (playback_step c balancer r p)
        (λ _. closest-fine c r (c.tools.parse (c.tools.print r.url))) (λ _. playback_fine p)

  or_local_fine :
      (answer : Option Response) (later : Response)
      → ((x : Response) → answer ≡ some x → is_502 x ≡ false)
      → is_502 later ≡ false
      → is_502 (or_local answer later) ≡ false
  unfolding or_local
  or_local_fine none later h l = l
  or_local_fine (some x) later h l = h x refl

  cdn_fine :
      (cdn : Option Cdn) (p : PlaybackPath) (x : Response)
      → cdn_step c balancer r cdn p ≡ some x
      → is_502 x ≡ false
  unfolding cdn_step to_cdn
  cdn_fine none p x = λ h. cc
  cdn_fine (some cdn) p x =
      let (node, e) =
        finds p.playback_id (place_of c r).lat (place_of c r).lon p.prefix (place_of c r).is_studio
          false (place_of-IsPlace c r) in
      rw (cdn_step, e)
        (if_both (λ (y : Option Response). y ≡ some x → is_502 x ≡ false) (is_drawn c p.playback_id)
          (cdn_answer p.path_type (to_cdn c cdn r p (ok node))) none
          (λ _. cdn_answer_fine p.path_type (to_cdn c cdn r p (ok node)) x refl) (λ _ h. cc))

  path_fine :
      (path : Option PlaybackPath)
      → is_502 (or_local (cdn_or_none c balancer r path) (local_step c balancer r path)) ≡ false
  unfolding cdn_or_none
  path_fine none = or_local_fine none (local_step c balancer r none) (λ x h. cc) (local_fine none)
  path_fine (some p) =
      or_local_fine (cdn_step c balancer r c.cdn p) (local_step c balancer r (some p))
        (cdn_fine c.cdn p) (local_fine (some p))

  handler_fine : is_502 (redirect_handler c balancer r) ≡ false
  unfolding redirect_handler
  handler_fine = path_fine (parse_playback_id c.patterns r.url.path)

readable :
    (lat lon : Result ℤ)
    → both_valid lat lon ≡ true
    → ((x : ℤ) × (lat ≡ ok x)) × ((y : ℤ) × (lon ≡ ok y))
unfolding both_valid
readable (ok x) (ok y) = λ h. ((x, refl), (y, refl))
readable (ok x) (err e) = λ h. cc
readable (err e) lon = λ h. cc

both_readable :
    (parse_float : String → Result ℤ) (lat lon : String)
    → is_valid_gps_coord parse_float lat lon ≡ true
    → ((x : ℤ) × (coordinate parse_float lat ≡ ok x))
      × ((y : ℤ) × (coordinate parse_float lon ≡ ok y))
unfolding is_valid_gps_coord coordinate
both_readable parse_float lat lon = elim (Bool-cases (str_eq lat "")) [
  | inl e ↦ rw e (λ h. cc)
  | inr e ↦ rw e (elim (Bool-cases (str_eq lon "")) [
    | inl e' ↦ rw e' (λ h. cc)
    | inr e' ↦ rw e' (readable (parse_float lat) (parse_float lon))
  ])
]

place_readable :
    (parse_float : String → Result ℤ) (lat lon : String)
    → IsPlace parse_float lat lon
    → ((x : ℤ) × (coordinate parse_float lat ≡ ok x))
      × ((y : ℤ) × (coordinate parse_float lon ≡ ok y))
unfolding coordinate
place_readable parse_float lat lon (inr h) = both_readable parse_float lat lon h
place_readable parse_float lat lon (inl h) = rw (h.0, h.1) ((pos 0, refl), (pos 0, refl))

module _ (sort : Sort) (shuffle : Shuffle) (distance : Distance) (random : ℕ) (own : String)
    (now metric_timeout : ℕ) (prefixes : List String) (s : Stats) where
  -- The catalyst balancer, with the table that it has read.
  abbrev pub catalyst : (String → Result ℤ) → Balancer
  catalyst parse_float id lat lon prefix studio ingest =
      best_node sort shuffle distance random parse_float own now metric_timeout prefixes id lat lon
        s

  -- A redirect handler over the catalyst balancer that has read its table never answers 502 Bad
  -- Gateway, its reply for a balancer without a node: the coordinates that it passes on, from the
  -- query, from the headers or empty, are always ones that the balancer can read, and the balancer
  -- then always has a node. `sort` is taken to sort and `shuffle` to rearrange; both read numbers
  -- with the same parser.
  pub redirect_handler-catalyst :
      IsSorting sort
      → IsRearranging shuffle
      → (c : Config) (r : PlaybackRequest)
      → redirect_handler c (catalyst c.parse_float) r ≢ status 502
  redirect_handler-catalyst sorts shuffles c r =
      let finds : Finds c.parse_float (catalyst c.parse_float) =
        λ id lat lon prefix studio ingest h.
          let ((x, e), (y, e')) = place_readable c.parse_float lat lon h in
          let found =
            best_node_total sort shuffle distance sorts shuffles random c.parse_float own now
              metric_timeout prefixes id lat lon s x y e e' in
          ((found.0, concat (first_or "video" prefixes) (concat "+" id)), found.1) in
      λ h.
        let no : false ≡ true =
          sym (handler_fine c (catalyst c.parse_float) r finds) ∙ ap is_502 h in
        cc
