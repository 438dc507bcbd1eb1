-- ===== src/MistClient/Operations/Denied.antt =====
-- The methods of clients/mist_client.go against a Mist that never authorizes the client.
use dms_api.Prelude.{◌≡◌, String, false, Option, none, some, str_eq}
use dms_api.Errors.{Error, plain}
use dms_api.Result.{Result, ok}
use dms_api.MistClient.{Reply, Authorization, Setup}

abbrev refusal : Error
refusal = plain "authorization to Mist API failed"

-- The request itself succeeded, and the reply says that the client is not authorized.
abbrev pub IsDenied : {World : Type 0} → Setup World → Reply → Type 0
IsDenied c r =
    (resp : String) × (a : Authorization) × (r ≡ (resp, none))
    × (c.authorization_of resp ≡ ok a)
    × (str_eq a.status "OK" ≡ false)

abbrev pub HasFailed : Option Error → Type 0
HasFailed o = (e : Error) × (o ≡ some e)
