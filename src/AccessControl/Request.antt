-- ===== src/AccessControl/Request.antt =====
-- handlers/accesscontrol/access-control.go: a playback request, from the trigger's payload to the
-- decision. The regular expression, the JSON encoder with SHA-256, the JWT parser and the gate are
-- the fields of `Env`.
use dms_api.Prelude.{
  ℕ, ◌+◌, ◌*◌, String, concat, Bool, true, false, not, ◌&&◌, ◌||◌, Option, none, some, List, [],
  ◌∷◌, str_eq, ltb, if◌then◌else◌,
}
use dms_api.Errors.{Error, plain, wrapped}
use dms_api.Result.{Result, ok, err}
use dms_api.AccessControl.Gate.{Answer, query_gate}
use dms_api.AccessControl.Store.{
  Store, Info, decided, failed, nil_entry, get_info, check_viewer_limit,
}

-- `url.URL`: its host, its text, and `Query().Get`, which is empty for a missing name.
pub record Url : Type 0 where
  pub host : String
  pub text : String
  pub query_get : String → String

-- `misttriggers.UserNewPayload`, the fields that are read.
pub record Payload : Type 0 where
  pub user_agent : String
  pub referer : String
  pub forwarded_proto : String
  pub session_id : String
  pub host : String
  pub origin : String
  pub origin_ip : String
  pub url : Url
  pub access_key : String
  pub jwt : String

pub record WebhookPayload : Type 0 where
  pub user_ip : String
  pub play_domain : String
  pub play_url : String
  pub headers : List (String × String)

-- `PlaybackAccessControlRequest`
pub record Request : Type 0 where
  pub type : String
  pub pub_key : String
  pub access_key : String
  pub stream : String
  pub webhook_payload : WebhookPayload
  pub webhook_headers : List (String × String)

-- `PlaybackGateClaims`, with what `RegisteredClaims.Valid` says of it.
pub record Claims : Type 0 where
  pub registered_error : Option Error
  pub subject : String
  pub public_key : String
  pub expires_at : Option ℕ

pub record Token : Type 0 where
  pub claims : Claims
  pub valid : Bool

-- What is not in the file: `regexp.MatchString` on the pattern of catalyst hosts,
-- `ProduceHashCacheKey`'s encoding and hash, `json.Marshal`, `jwt.ParseWithClaims` and the gate.
pub record Env : Type 0 where
  pub is_catalyst : String → Bool
  pub hash : Request → Result String
  pub marshal : Request → Result String
  pub parse_jwt : String → Result Token
  pub gate : String → Answer

unfoldable pub exp_error : ℕ → Option ℕ → Option Error
exp_error now none = some (plain "missing exp claim")
exp_error now (some t) =
    if ltb (now + 7 * 24 * 3600) t then some (plain "exp claim too far in the future") else none

-- `PlaybackGateClaims.Valid`, in whole seconds
unfoldable pub claims_error : ℕ → Claims → Option Error
unfolding exp_error
claims_error now c = elim c.registered_error [
  | some e ↦ some e
  | none ↦
      if str_eq c.subject ""
      then some (plain "missing sub claim")
      else (if str_eq c.public_key ""
          then some (plain "missing pub claim")
          else exp_error now c.expires_at)
]

unfoldable pub checked_token : ℕ → Token → Result Claims
checked_token now t = elim (claims_error now t.claims) [
  | some e ↦ err (wrapped "invalid claims: " e)
  | none ↦ if t.valid then ok t.claims else err (plain "invalid token")
]

-- `decodeJwt`
unfoldable pub decode_jwt : Env → ℕ → String → Result Claims
unfolding checked_token
decode_jwt env now jwt = elim (env.parse_jwt jwt) [
  | err e ↦ err (wrapped "unable to parse jwt " e)
  | ok t ↦ checked_token now t
]

unfoldable pub key_of : String → Result Claims → Result String
key_of playback_id (err e) = err (wrapped "unable to decode jwt on incoming playbackId " e)
key_of playback_id (ok c) =
    if str_eq playback_id c.subject then ok c.public_key else err (plain "playbackId mismatch")

-- `extractKeyFromJwt`
unfoldable pub extract_key : Env → ℕ → String → String → Result String
unfolding key_of
extract_key env now jwt playback_id = key_of playback_id (decode_jwt env now jwt)

unfoldable pub headers_of : String → Payload → List (String × String)
headers_of playback_id p =
    ("User-Agent", p.user_agent)
    ∷ ("Referer", p.referer)
    ∷ ("X-Forwarded-Proto", p.forwarded_proto)
    ∷ ("X-Tlive-Spanid", p.session_id)
    ∷ ("Tx-Stream-Id", playback_id)
    ∷ ("Host", p.host)
    ∷ ("Origin", p.origin)
    ∷ []

unfoldable pub new_request : String → Payload → Request
unfolding headers_of
new_request playback_id p = record {
  type = "accessKey";
  pub_key = "";
  access_key = "";
  stream = playback_id;
  webhook_payload = record {
    user_ip = p.origin_ip;
    play_domain = p.url.host;
    play_url = p.url.text;
    headers = headers_of playback_id p;
  };
  webhook_headers = headers_of playback_id p;
}

-- A query parameter stands before the header.
unfoldable pub first_given : String → String → String
first_given a b = if str_eq a "" then b else a

unfoldable pub access_key_of : Payload → String
unfolding first_given
access_key_of p = first_given (p.url.query_get "accessKey") p.access_key

unfoldable pub jwt_of : Payload → String
unfolding first_given
jwt_of p = first_given (p.url.query_get "jwt") p.jwt

unfoldable pub is_in : String → List String → Bool
is_in s [] = false
is_in s (x ∷ xs) = str_eq s x || is_in s xs

-- How the preparation of a request ends: refused or failed at once, or with the cache key and the
-- request for the gate.
pub data Prepared : Type 0 where
  refused : Prepared
  broken : Error → Prepared
  ready : String → Request → Prepared

unfoldable pub with_key : String → Request → Result String → Prepared
with_key prefix r (err e) = broken e
with_key prefix r (ok h) = ready (concat prefix h) r

unfoldable pub with_pub : Env → Request → Result String → Prepared
with_pub env r (err e) = refused
with_pub env r (ok key) =
    let r' = record r { pub_key = key; type = "jwt" } in with_key "jwtPubKey_" r' (env.hash r')

unfoldable pub with_jwt : Env → ℕ → List String → String → Request → Prepared
with_jwt env now blocked jwt r =
    if is_in jwt blocked then refused else with_pub env r (extract_key env now jwt r.stream)

-- The access key, else the JWT, else neither.
unfoldable pub prepare : Env → ℕ → List String → String → Payload → Prepared
unfolding with_key with_pub with_jwt
prepare env now blocked playback_id p =
    let r = new_request playback_id p in
    if not (str_eq (access_key_of p) "")
    then (let r' = record r { access_key = access_key_of p } in
        with_key "accessKey_" r' (env.hash r'))
    else (if not (str_eq (jwt_of p) "") then with_jwt env now blocked (jwt_of p) r else ready "" r)

unfoldable pub limited : String → Info × Store → Info × Store
limited playback_id (decided allow, s) = (decided (allow && check_viewer_limit playback_id s), s)
limited playback_id (failed e, s) = (failed e, s)
limited playback_id (nil_entry, s) = (nil_entry, s)

unfoldable pub ask :
    Env → ℕ → String → String → Request → Result String → (Store → Store) → Store → Info × Store
ask env now playback_id cache_key r (err e) between s =
    (failed (wrapped "json marshalling failed: " e), s)
ask env now playback_id cache_key r (ok body) between s =
    limited playback_id (get_info now r.stream cache_key (query_gate (env.gate body)) between s)

unfoldable pub decide : Env → ℕ → String → Prepared → (Store → Store) → Store → Info × Store
decide env now playback_id refused between s = (decided false, s)
decide env now playback_id (broken e) between s = (failed e, s)
decide env now playback_id (ready cache_key r) between s =
    ask env now playback_id cache_key r (env.marshal r) between s

-- `isAuthorized`
unfoldable pub is_authorized_slow :
    Env → ℕ → List String → String → Payload → (Store → Store) → Store → Info × Store
unfolding limited ask decide
is_authorized_slow env now blocked playback_id p between s =
    decide env now playback_id (prepare env now blocked playback_id p) between s

-- The redirects that `IsAuthorized` lets through.
unfoldable pub is_redirect : Env → Payload → Bool
is_redirect env p =
    str_eq p.origin "null"
    && (if str_eq p.referer "" then env.is_catalyst p.host else env.is_catalyst p.referer)

-- `IsAuthorized`
unfoldable pub is_authorized :
    Env → ℕ → List String → String → Payload → (Store → Store) → Store → Info × Store
is_authorized env now blocked playback_id p between s =
    if is_redirect env p
    then (decided true, s)
    else is_authorized_slow env now blocked playback_id p between s
