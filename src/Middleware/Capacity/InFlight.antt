-- ===== src/Middleware/Capacity/InFlight.antt =====
-- middleware/capacity.go: how many requests are passed on at one time.
use dms_api.Prelude.{
  ℕ, zero, suc, ◌+◌, ◌-◌, ◌≤◌, ◌<◌, ◌≡◌, refl, Bool, true, false, ◌&&◌, Option, none, some, List,
  [], ◌∷◌, arith, if◌then◌else◌, inl, inr, ◌⊎◌, Bool-cases,
}
use dms_api.Result.{ok, err}
use dms_api.Middleware.Capacity.{
  Limits, count_jobs, is_kind, too_many_requests, passed_on, within, enter, leave, Visit, System,
  Event, arrives, goes, take_out, step, run_events, nobody, visit, go,
}

-- The requests of a kind inside, and those of them that were passed on.
unfoldable pub count_inside : Bool → List Visit → ℕ
count_inside k [] = 0
count_inside k (v ∷ vs) =
    let rest = count_inside k vs in if is_kind k v.is_clip then suc rest else rest

unfoldable pub count_passed : Bool → List Visit → ℕ
count_passed k [] = 0
count_passed k (v ∷ vs) =
    let rest = count_passed k vs in if is_kind k v.is_clip && v.is_passed_on then suc rest else rest

pub record IsFair (limits : Limits) (t : System) : Type 0 where
  pub vod_counter : t.counters.vod_requests_in_flight ≡ count_inside false t.inside
  pub clip_counter : t.counters.clip_requests_in_flight ≡ count_inside true t.inside
  pub vod_bound : count_passed false t.inside ≤ limits.max_in_flight_jobs - 1
  pub clip_bound : count_passed true t.inside ≤ limits.max_in_flight_clip_jobs - 1

passed_le : (k : Bool) (vs : List Visit) → count_passed k vs ≤ count_inside k vs
unfolding count_passed count_inside
passed_le k [] = omega arith
passed_le k (v ∷ vs) = ground (arith, passed_le k vs)

-- The counts with the visit that is taken out put at the head.
put_back : List Visit → Option (Visit × List Visit) → List Visit
put_back vs none = vs
put_back vs (some (v, ws)) = v ∷ ws

put_back-take_out :
    (k : Bool) (i : ℕ) (vs : List Visit)
    → (count_inside k (put_back vs (take_out i vs)) ≡ count_inside k vs)
      × (count_passed k (put_back vs (take_out i vs)) ≡ count_passed k vs)
unfolding take_out put_back
put_back-take_out k i [] = (refl, refl)
put_back-take_out k zero (x ∷ vs) = (refl, refl)
put_back-take_out k (suc i) (x ∷ vs) = behind (take_out i vs) (put_back-take_out k i vs)
  where
    behind :
        (r : Option (Visit × List Visit))
        → (count_inside k (put_back vs r) ≡ count_inside k vs)
          × (count_passed k (put_back vs r) ≡ count_passed k vs)
        → (count_inside k
              (put_back (x ∷ vs) (elim r [ some q ↦ some (q.0, x ∷ q.1) | none ↦ none ]))
            ≡ count_inside k (x ∷ vs))
          × (count_passed k
                (put_back (x ∷ vs) (elim r [ some q ↦ some (q.0, x ∷ q.1) | none ↦ none ]))
              ≡ count_passed k (x ∷ vs))
    behind none p = (refl, refl)
    behind (some (v, ws)) p = unfold count_inside count_passed in ground (arith, p.0, p.1)

go-IsFair :
    (limits : Limits) (t : System) (r : Option (Visit × List Visit))
    → ((k : Bool)
        → (count_inside k (put_back t.inside r) ≡ count_inside k t.inside)
          × (count_passed k (put_back t.inside r) ≡ count_passed k t.inside))
    → IsFair limits t
    → IsFair limits (go t r)
unfolding go put_back leave count_inside count_passed is_kind
go-IsFair limits t none p h = h
go-IsFair limits t (some (v, ws)) p h = elim (Bool-cases v.is_clip) [
  | inl b ↦ ground (arith, p true, p false, b)
  | inr b ↦ ground (arith, p true, p false, b)
]

within-cases :
    (n max : ℕ) → ((within n max ≡ passed_on) × (n < max)) ⊎ (within n max ≡ too_many_requests)
unfolding within
within-cases n max = ground arith

step-IsFair :
    (limits : Limits) (e : Event) (t : System) → IsFair limits t → IsFair limits (step limits e t)
unfolding step enter visit count_inside count_passed is_kind
step-IsFair limits (arrives jobs (err e)) t h = h
step-IsFair limits (arrives jobs (ok true)) t h =
    elim (within-cases (count_jobs true jobs + (t.counters.clip_requests_in_flight + 1))
      limits.max_in_flight_clip_jobs) [
        | inl p ↦ rw (p.0, enter) (ground (arith, passed_le true t.inside, p.1))
        | inr p ↦ rw (p, enter) (ground arith)
      ]
step-IsFair limits (arrives jobs (ok false)) t h =
    elim (within-cases (count_jobs false jobs + (t.counters.vod_requests_in_flight + 1))
      limits.max_in_flight_jobs) [
        | inl p ↦ rw (p.0, enter) (ground (arith, passed_le false t.inside, p.1))
        | inr p ↦ rw (p, enter) (ground arith)
      ]
step-IsFair limits (goes i) t h =
    go-IsFair limits t (take_out i t.inside) (λ k. put_back-take_out k i t.inside) h

run_events-IsFair :
    (limits : Limits) (es : List Event) (t : System)
    → IsFair limits t
    → IsFair limits (run_events limits es t)
unfolding run_events
run_events-IsFair limits [] t h = h
run_events-IsFair limits (e ∷ es) t h =
    run_events-IsFair limits es (step limits e t) (step-IsFair limits e t h)

-- However requests come and go, and whatever jobs run meanwhile: each counter is the number of
-- requests of its kind inside, and of these fewer than the limit are passed on at any time (none,
-- for a limit of 0).
pub capacity-IsFair :
    (limits : Limits) (es : List Event) → IsFair limits (run_events limits es nobody)
capacity-IsFair limits es = run_events-IsFair limits es nobody nobody_fair
  where
    nobody_fair : IsFair limits nobody
    nobody_fair =
        unfold count_inside count_passed in
        record {
          vod_counter = refl;
          clip_counter = refl;
          vod_bound = omega arith;
          clip_bound = omega arith;
        }
