-- ===== src/Scenarios/Access.antt =====
-- Playback access at concrete inputs.
use dms_api.Prelude.{◌≡◌, refl, true, false, none, some, [], ◌∷◌, arith}
use dms_api.Prelude.Int.{pos, is_zero}
use dms_api.Prelude.Dict
use dms_api.Errors.{plain}
use dms_api.Result.{ok, err}
use dms_api.AccessControl.Gate.{response, Response, GateConfig, query_gate}
use dms_api.AccessControl.Store.{
  Store, decided, get_info, cache_answer, entry_at, is_expired, add_seconds, check_viewer_limit,
}
use dms_api.AccessControl.Request.{
  Env, Payload, Claims, is_redirect, is_authorized, decode_jwt, prepare, jwt_of, access_key_of,
}
use dms_api.AccessControl.Gate.{with_config, read_body, read_response}
use dms_api.AccessControl.Store.{
  after_fetch, gtb_ℤ, inner, is_positive, over_limit, read_entry, within_limit,
}
use dms_api.AccessControl.Request.{
  is_authorized_slow, claims_error, extract_key, first_given, new_request, is_in, ask,
  checked_token, decide, exp_error, key_of, limited, with_jwt, with_key, with_pub,
}
use dms_api.AccessControl.Cleared.{IsCleared}
use dms_api.AccessControl.Decision.{IsVouched, allowed-IsCleared}
use dms_api.AccessControl.Tokens.{IsCurrent, decode_jwt-IsCurrent}
use dms_api.AccessControl.Freshness.{fetched_decision}

abbrev pub empty_store : Store
empty_store = record {
  cache = [];
  refresh_intervals = [];
  viewer_limits = [];
  concurrent_viewers = [];
}

abbrev claims : Claims
claims = record {
  registered_error = none;
  subject = "stream";
  public_key = "key";
  expires_at = some 1500;
}

abbrev success : Response
success = record {
  status_code = 204;
  cache_control = ok (pos 60, pos 300);
  content_length = 0;
  body = err (plain "EOF");
}

abbrev pub env : Env
env = record {
  is_catalyst = λ s. false;
  hash = λ r. ok "hash";
  marshal = λ r. ok "{}";
  parse_jwt = λ s. ok (record { claims = claims; valid = true });
  gate = λ s. response success;
}

abbrev pub payload : Payload
payload = record {
  user_agent = "player";
  referer = "";
  forwarded_proto = "https";
  session_id = "1";
  host = "host";
  origin = "";
  origin_ip = "10.0.0.1";
  url = record { host = "host"; text = "https://host/stream"; query_get = λ s. "" };
  access_key = "";
  jwt = "token";
}

abbrev config : GateConfig
config = record {
  max_age = pos 60;
  stale_while_revalidate = pos 300;
  refresh_interval = pos 0;
  user_viewer_limit = pos 0;
  user_id = "";
}

abbrev pub after : Store
after = (is_authorized env 1000 [] "stream" payload (λ t. t) empty_store).1

pub is_allowed :
    is_authorized env 1000 [] "stream" payload (λ t. t) empty_store ≡ (decided true, after)
unfolding is_authorized is_redirect is_authorized_slow prepare jwt_of access_key_of extract_key
    decode_jwt claims_error first_given new_request is_in ask checked_token decide exp_error key_of
    limited with_jwt with_key with_pub query_gate with_config read_body read_response get_info
    is_expired entry_at add_seconds after_fetch cache_answer check_viewer_limit gtb_ℤ inner
    is_positive over_limit read_entry within_limit Dict.get Dict.put Dict.delete is_zero
is_allowed = refl

allowed-IsCleared_example :
    IsCleared env 1000 [] "stream" payload
    × IsVouched env 1000 "stream" payload (λ t. t) empty_store after
    × (check_viewer_limit "stream" after ≡ true)
unfolding is_redirect
allowed-IsCleared_example =
    allowed-IsCleared env 1000 [] "stream" payload (λ t. t) empty_store after refl is_allowed

decode_jwt-IsCurrent_example : IsCurrent 1000 claims
unfolding decode_jwt checked_token exp_error claims_error
decode_jwt-IsCurrent_example = decode_jwt-IsCurrent env 1000 "token" claims refl

fetched_decision_example :
    (get_info 1000 "stream" "key" (ok (true, config)) (λ t. t) empty_store
      ≡ (decided true, (cache_answer 1000 "stream" "key" (ok (true, config)) empty_store).1))
    × (get_info 1300 "stream" "key"
          (err (plain "EOF"))
          (λ t. t)
          (cache_answer 1000 "stream" "key" (ok (true, config)) empty_store).1
        ≡ (decided true, (cache_answer 1000 "stream" "key" (ok (true, config)) empty_store).1))
unfolding is_expired entry_at Dict.get add_seconds
fetched_decision_example =
    fetched_decision 1000 1300 "stream" "key" true config (err (plain "EOF")) empty_store tt
      (omega arith)

abbrev crowded : Store
crowded = record empty_store {
  viewer_limits = ("stream", record { viewer_limit_per_user = pos 2; user_id = "user" }) ∷ [];
  concurrent_viewers = ("stream", record { view_count = pos 3; last_refresh = 990 }) ∷ [];
}
