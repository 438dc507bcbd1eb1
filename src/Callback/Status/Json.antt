-- ===== src/Callback/Status/Json.antt =====
-- The JSON form of a status: `MarshalJSON` and `UnmarshalJSON` are inverse.
use dms_api.Prelude.{◌≡◌, refl, String, some, arith, eq_iff}
use dms_api.Callback.Status.{TranscodeStatus, preparing, marshal_json, unmarshal_json}

-- A status that is printed as JSON and read back is the same status.
pub unmarshal-marshal : (s : TranscodeStatus) → unmarshal_json (marshal_json s) ≡ some s
unfolding marshal_json unmarshal_json
unmarshal-marshal preparing = refl
unmarshal-marshal _ = refl

-- Only the texts that `MarshalJSON` prints are read as a status.
pub marshal-unmarshal :
    (b : String) (s : TranscodeStatus) → unmarshal_json b ≡ some s → marshal_json s ≡ b
unfolding marshal_json unmarshal_json
marshal-unmarshal b s h = ground (
  arith,
  eq_iff b "\"preparing\"",
  eq_iff b "\"preparing-completed\"",
  eq_iff b "\"transcoding\"",
  eq_iff b "\"success\"",
  eq_iff b "\"error\"",
)
