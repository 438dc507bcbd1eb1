-- ===== src/Triggers/UserNew.antt =====
-- handlers/misttriggers/triggers.go and user_new.go: the USER_NEW trigger, from the body of Mist's
-- request to the answer; `HandleUserNew` of handlers/accesscontrol/access-control.go. The parser of
-- URLs is a parameter.
pub mod Decision
use dms_api.Prelude.{
  ℕ, String, Bool, true, false, Option, none, some, List, [], ◌∷◌, map, str_eq, if◌then◌else◌,
}
use dms_api.Prelude.Text.{split, cut, occurs, trim_space}
use dms_api.Errors.{Error, plain, wrapped}
use dms_api.Result.{Result, ok, err, ◌>>=◌}
use dms_api.AccessControl.Store.{Store, Info, decided, failed, nil_entry}
use dms_api.AccessControl.Request.{Url, Payload, Env, is_authorized}

-- `UserNewPayload`; the fields that access control reads are those of `viewer`.
pub record UserNewPayload : Type 0 where
  pub stream_name : String
  pub hostname : String
  pub connection_id : String
  pub protocol : String
  pub full_url : String
  pub original_url : String
  pub viewer : Payload

-- `MistTriggerBody.Lines`
unfoldable pub lines : String → List String
lines body = map trim_space (split 10 (trim_space body))

abbrev pub ParseUrl : Type 0
ParseUrl = String → Result Url

new_payload : String → String → String → String → String → String → String → Url → UserNewPayload
new_payload stream_name hostname connection_id protocol full_url session_id original_url u =
    record {
      stream_name = stream_name;
      hostname = hostname;
      connection_id = connection_id;
      protocol = protocol;
      full_url = full_url;
      original_url = original_url;
      viewer = record {
        user_agent = "";
        referer = "";
        forwarded_proto = "";
        session_id = session_id;
        host = "";
        origin = "";
        origin_ip = "";
        url = u;
        access_key = "";
        jwt = "";
      };
    }

-- The payload of six or seven lines.
unfoldable pub of_lines : ParseUrl → List String → Result UserNewPayload
unfolding new_payload
of_lines parse_url (a ∷ b ∷ c ∷ d ∷ e ∷ f ∷ []) = do
  u ← parse_url e
  ok (new_payload a b c d e f "" u)
of_lines parse_url (a ∷ b ∷ c ∷ d ∷ e ∷ f ∷ g ∷ []) = do
  u ← parse_url e
  ok (new_payload a b c d e f g u)
of_lines parse_url _ = err (plain "expected 6 or 7 lines in USER_NEW payload")

-- `ParseUserNewPayload`
unfoldable pub parse_user_new_payload : ParseUrl → String → Result UserNewPayload
parse_user_new_payload parse_url body = of_lines parse_url (lines body)

-- One cookie of the request. The key and the token are written to the payload at once.
unfoldable pub with_cookie : String → String → Payload → Payload
with_cookie name value p =
    if str_eq name "Livepeer-Access-Key"
    then record p { access_key = value }
    else if str_eq name "Livepeer-Jwt"
    then record p { jwt = value }
    else if str_eq name "X-Forwarded-For"
    then record p { origin_ip = value }
    else if str_eq name "Referer"
    then record p { referer = value }
    else if str_eq name "User-Agent"
    then record p { user_agent = value }
    else if str_eq name "X-Forwarded-Proto"
    then record p { forwarded_proto = value }
    else if str_eq name "Host"
    then record p { host = value }
    else if str_eq name "Origin"
    then record p { origin = value }
    else p

unfoldable pub with_cookies : List (String × String) → Payload → Payload
unfolding with_cookie
with_cookies [] p = p
with_cookies ((name, value) ∷ cookies) p = with_cookies cookies (with_cookie name value p)

-- Where there is an original URL, the key and the token are those of the full URL.
unfoldable pub with_original : ParseUrl → UserNewPayload → Result UserNewPayload
with_original parse_url p = if str_eq p.original_url "" then ok p else do
  u ← parse_url p.full_url
  ok (record p {
    viewer = record (p.viewer) { access_key = u.query_get "accessKey"; jwt = u.query_get "jwt" };
  })

-- The payload that the broker gets. A payload that cannot be parsed has no original URL, so its
-- error is the one that is answered.
unfoldable pub read_request : ParseUrl → String → List (String × String) → Result UserNewPayload
unfolding with_cookies with_original
read_request parse_url body cookies = do
  p ← parse_user_new_payload parse_url body
  with_original parse_url (record p { viewer = with_cookies cookies p.viewer })

pub record HttpAnswer : Type 0 where
  pub status : ℕ
  pub body : String

answer_of : Result String → HttpAnswer
answer_of (err e) = record { status = 500; body = "false" }
answer_of (ok resp) = record { status = 200; body = resp }

-- `TriggerUserNew`, with the answer of the broker.
unfoldable pub trigger_user_new :
    ParseUrl → String → List (String × String) → (UserNewPayload → Result String) → HttpAnswer
unfolding read_request answer_of
trigger_user_new parse_url body cookies respond = elim (read_request parse_url body cookies) [
  | err e ↦ record { status = 400; body = "false" }
  | ok p ↦ answer_of (respond p)
]

-- The name of a stream behind its first plus sign, or all of it.
unfoldable pub after_plus : String → String
after_plus name = if occurs b'+' name then (cut b'+' name).1 else name

-- `HandleUserNew`; `none` is a panic.
unfoldable pub user_decision : Info → Option (Bool × Option Error)
user_decision (decided true) = some (true, none)
user_decision (decided false) = some (false, none)
user_decision (failed e) = some (false, some e)
user_decision nil_entry = none

unfoldable pub handle_user_new :
    Env
    → ℕ
    → List String
    → (Store → Store)
    → UserNewPayload
    → Store
    → Option (Bool × Option Error) × Store
unfolding user_decision after_plus
handle_user_new env now blocked between p s =
    let r = is_authorized env now blocked (after_plus p.stream_name) p.viewer between s in
    (user_decision r.0, r.1)
