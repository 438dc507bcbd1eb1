-- ===== src/Middleware/Capacity.antt =====
-- middleware/capacity.go: the limits on upload and clip requests. Requests run at the same time;
-- the two counters are atomic, so a request has two steps on them, one when it comes in and one
-- when it goes. The decoder of the body is a parameter: what a request gives is whether it asks for
-- a clip.
pub mod InFlight
use dms_api.Prelude.{
  ℕ, zero, suc, ◌+◌, ◌-◌, String, Bool, true, false, not, Option, none, some, List, [], ◌∷◌, str_eq,
  leb, if◌then◌else◌,
}
use dms_api.Errors.{Error}
use dms_api.Result.{Result, ok, err}
use dms_api.Pipeline.Job.{JobInfo}

-- `config.MaxInFlightJobs` and `config.MaxInFlightClipJobs`
pub record Limits : Type 0 where
  pub max_in_flight_jobs : ℕ
  pub max_in_flight_clip_jobs : ℕ

-- `CapacityMiddleware`
pub record Counters : Type 0 where
  pub vod_requests_in_flight : ℕ
  pub clip_requests_in_flight : ℕ

-- Whether the flag is that of a kind: clips, or the others.
unfoldable pub is_kind : Bool → Bool → Bool
is_kind true b = b
is_kind false b = not b

-- The jobs of one kind.
unfoldable pub count_jobs : Bool → List JobInfo → ℕ
count_jobs is_clip [] = 0
count_jobs is_clip (j ∷ js) =
    let rest = count_jobs is_clip js in
    if is_kind is_clip j.payload.clip_strategy.enabled then suc rest else rest

-- `isClipRequest` on the decoded body: the playback id of its clip strategy.
unfoldable pub is_clip_request : Result String → Result Bool
is_clip_request (err e) = err e
is_clip_request (ok playback_id) = ok (not (str_eq playback_id ""))

pub data Reply : Type 0 where
  bad_request too_many_requests passed_on : Reply

unfoldable pub within : ℕ → ℕ → Reply
within n max = if leb max n then too_many_requests else passed_on

-- `HasCapacity`, up to the call of the next handler.
unfoldable pub enter : Limits → List JobInfo → Result Bool → Counters → Reply × Counters
unfolding within
enter limits jobs (err e) c = (bad_request, c)
enter limits jobs (ok true) c =
    let n = c.clip_requests_in_flight + 1 in
    (
      within (count_jobs true jobs + n) limits.max_in_flight_clip_jobs,
      record c { clip_requests_in_flight = n },
    )
enter limits jobs (ok false) c =
    let n = c.vod_requests_in_flight + 1 in
    (
      within (count_jobs false jobs + n) limits.max_in_flight_jobs,
      record c { vod_requests_in_flight = n },
    )

-- The deferred `Add(-1)`.
unfoldable pub leave : Bool → Counters → Counters
leave true c = record c { clip_requests_in_flight = c.clip_requests_in_flight - 1 }
leave false c = record c { vod_requests_in_flight = c.vod_requests_in_flight - 1 }

-- A request that has come in and not gone: its kind, and whether it was passed on.
pub record Visit : Type 0 where
  pub is_clip : Bool
  pub is_passed_on : Bool

pub record System : Type 0 where
  pub counters : Counters
  pub inside : List Visit

-- What happens next: a request comes in, while these jobs run, or one of those inside goes.
pub data Event : Type 0 where
  arrives : List JobInfo → Result Bool → Event
  goes : ℕ → Event

unfoldable pub visit : Result Bool → Reply → List Visit → List Visit
visit (err e) r vs = vs
visit (ok k) passed_on vs = record { is_clip = k; is_passed_on = true } ∷ vs
visit (ok k) r vs = record { is_clip = k; is_passed_on = false } ∷ vs

-- The visit at an index and the others.
unfoldable pub take_out : ℕ → List Visit → Option (Visit × List Visit)
take_out i [] = none
take_out zero (v ∷ vs) = some (v, vs)
take_out (suc i) (v ∷ vs) = elim (take_out i vs) [ some r ↦ some (r.0, v ∷ r.1) | none ↦ none ]

unfoldable pub go : System → Option (Visit × List Visit) → System
go t none = t
go t (some (v, vs)) = record { counters = leave v.is_clip t.counters; inside = vs }

unfoldable pub step : Limits → Event → System → System
unfolding visit go
step limits (arrives jobs request) t =
    let (reply, c) = enter limits jobs request t.counters in
    record { counters = c; inside = visit request reply t.inside }
step limits (goes i) t = go t (take_out i t.inside)

unfoldable pub run_events : Limits → List Event → System → System
run_events limits [] t = t
run_events limits (e ∷ es) t = run_events limits es (step limits e t)

abbrev pub nobody : System
nobody = record {
  counters = record { vod_requests_in_flight = 0; clip_requests_in_flight = 0 };
  inside = [];
}
