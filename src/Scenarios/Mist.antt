-- ===== src/Scenarios/Mist.antt =====
-- The client of Mist's API at concrete inputs.
use dms_api.Prelude.{ℕ, ◌+◌, none}
use dms_api.Errors.{plain}
use dms_api.Result.{ok, err}
use dms_api.MistClient.{Setup}

-- A server that counts the requests and challenges each of them.
abbrev challenger : Setup ℕ
challenger = record {
  username = "u";
  password = "p";
  exchange = λ cmd w. (("CHALL", none), w + 1);
  authorization_of = λ resp. ok (record { status = resp; challenge = "x" });
  stream_count_of = λ resp. ok 0;
  triggers_of = λ resp. ok none;
  state_of = λ resp. err (plain "no state");
  md5 = λ s. s;
}
