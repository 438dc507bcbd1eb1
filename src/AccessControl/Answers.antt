-- ===== src/AccessControl/Answers.antt =====
-- handlers/accesscontrol/access-control.go, `QueryGate`: which answers allow.
use dms_api.Prelude.{◌/◌, ◌≡◌, ◌≢◌, refl, ap, String, Bool, true, false, arith, ◌==◌}
use dms_api.Prelude.Int.{ℤ}
use dms_api.Result.{Result, ok, err}
use dms_api.AccessControl.Gate.{
  deadline_exceeded, url_error, other_error, Response, Answer, bad_request, do_error, response,
  GateConfig, read_body, with_config, read_response, query_gate,
}

-- A response with a status of 200 to 299, whose two ages are those of its Cache-Control header.
abbrev pub IsSuccess : Answer → GateConfig → Type 0
IsSuccess answer config =
    (res : Response) × (answer ≡ response res)
    × (res.status_code / 100 ≡ 2)
    × (res.cache_control ≡ ok (config.max_age, config.stale_while_revalidate))

config_or : GateConfig → Result (Bool × GateConfig) → Bool × GateConfig
config_or c (ok x) = x
config_or c (err e) = (false, c)

with_config-Ages :
    (config : GateConfig) (b : Bool) (x : Result (ℤ × ℤ)) (y : Result (ℤ × ℤ × String))
    → with_config b x y ≡ ok (true, config)
    → (b ≡ true) × (x ≡ ok (config.max_age, config.stale_while_revalidate))
unfolding with_config config_or
with_config-Ages config b (err e) y h = cc
with_config-Ages config b (ok (m, t)) (err e) h = cc
with_config-Ages config b (ok (m, t)) (ok (i, l, u)) h = (
  ap (λ z. (config_or config z).0) h,
  ap (λ z. let c = (config_or config z).1 in ok (c.max_age, c.stale_while_revalidate)) h,
)

-- The gate's client allows only on a response with a status of 200 to 299, with the ages of its
-- header, where the call did not end with the bare deadline error.
pub query_gate-IsSuccess :
    (answer : Answer) (config : GateConfig)
    → answer ≢ do_error deadline_exceeded
    → query_gate answer ≡ ok (true, config)
    → IsSuccess answer config
unfolding query_gate read_response
query_gate-IsSuccess (bad_request e) config n h = cc
query_gate-IsSuccess (do_error deadline_exceeded) config n h = absurd (n refl)
query_gate-IsSuccess (do_error (url_error e)) config n h = cc
query_gate-IsSuccess (do_error (other_error s)) config n h = cc
query_gate-IsSuccess (response res) config n h =
    let r =
      with_config-Ages config (res.status_code / 100 == 2) res.cache_control
        (read_body res.content_length res.body) h in
    (res, refl, ground (arith, r.0), r.1)
