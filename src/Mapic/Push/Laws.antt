-- ===== src/Mapic/Push/Laws.antt =====
-- The pushes of mapic/mistapiconnector_app.go: what holds after any number of steps.
use dms_api.Prelude.{
  ℕ, zero, suc, ◌≤◌, ◌≡◌, refl, String, Bool, true, false, Option, none, some, List, [], ◌∷◌, ◌++◌,
  leb, ◌==◌, if◌then◌else◌, arith, inl, inr, Bool-cases, All, if_both,
}
use dms_api.Mapic.{PushEvent, quiet, connected, failed, disconnected, PushStatus, Target}
use dms_api.Mapic.Push.{
  Step, waited, ended, removed, refreshed, push_step, run, new_push, Outcome, wait_over, end_push,
  end_after, disconnect, connect, count_error, update_target,
}

-- The error events since the error count was zero, from `n` before the step.
abbrev alerts_after : Outcome → ℕ → ℕ
alerts_after (p, some failed) n = suc n
alerts_after (p, e) n = if p.error_count == 0 then 0 else n

abbrev pub alerts : List Step → PushStatus → ℕ → ℕ
alerts [] p n = n
alerts (s ∷ ss) p n = alerts ss (push_step s p).0 (alerts_after (push_step s p) n)

abbrev due : ℕ → ℕ
due count = if leb 2 count then 1 else 0

abbrev IsTallied : ℕ → PushStatus → Type 0
IsTallied n p = (n ≡ due p.error_count) × p.error_count ≤ 3

module _ (n : ℕ) where
  abbrev Tallied : Outcome → Type 0
  Tallied o = IsTallied (alerts_after o n) o.0

  unchanged : (p : PushStatus) → IsTallied n p → Tallied (p, none)
  unchanged p h = ground (arith, h.0, h.1)

  sent : (p : PushStatus) (now : ℕ) (i : Bool) → IsTallied n p → Tallied (connect now i p)
  unfolding connect
  sent p now true h = (refl, omega arith)
  sent p now false h = (ground (arith, h.0, h.1), h.1)

  waited-IsTallied :
      (now : ℕ) (i s : Bool) (p : PushStatus) → IsTallied n p → Tallied (wait_over now i s p)
  unfolding wait_over
  waited-IsTallied now i s p h =
      if_both Tallied s _ _ (λ _. unchanged p h)
        (λ _. if_both Tallied _ _ _ (λ _. unchanged p h) (λ _. sent p now i h))

  counted-IsTallied :
      (now c : ℕ) (p : PushStatus) → p.error_count ≡ c → IsTallied n p → Tallied (count_error now p)
  unfolding count_error
  counted-IsTallied now zero p e h = rw e (ground (arith, h.0, h.1, e), ground (arith, h.1, e))
  counted-IsTallied now (suc zero) p e h =
      rw e (ground (arith, h.0, h.1, e), ground (arith, h.1, e))
  counted-IsTallied now (suc (suc zero)) p e h =
      rw e (ground (arith, h.0, h.1, e), ground (arith, h.1, e))
  counted-IsTallied now (suc (suc (suc c))) p e h =
      rw e (ground (arith, h.0, h.1, e), ground (arith, h.1, e))

  after-IsTallied :
      (e : PushEvent) (now : ℕ) (p : PushStatus) → IsTallied n p → Tallied (end_after e now p)
  unfolding end_after
  after-IsTallied disconnected now p h = (refl, omega arith)
  after-IsTallied quiet now p h = counted-IsTallied now p.error_count p refl h
  after-IsTallied connected now p h = counted-IsTallied now p.error_count p refl h
  after-IsTallied failed now p h = counted-IsTallied now p.error_count p refl h

push_step-IsTallied :
    (s : Step) (p : PushStatus) (n : ℕ)
    → IsTallied n p
    → IsTallied (alerts_after (push_step s p) n) (push_step s p).0
unfolding push_step end_push update_target
push_step-IsTallied (waited now i stopped) p n h = waited-IsTallied n now i stopped p h
push_step-IsTallied (ended now stopped) p n h =
    if_both (Tallied n) stopped _ _ (λ _. unchanged n p h)
      (λ _. after-IsTallied n p.last_event now p h)
push_step-IsTallied (removed now) p n h = unfold disconnect in (ground (arith, h.0, h.1), h.1)
push_step-IsTallied (refreshed t profile) p n h = (ground (arith, h.0, h.1), h.1)

run-IsTallied :
    (ss : List Step) (p : PushStatus) (n : ℕ) → IsTallied n p → IsTallied (alerts ss p n) (run ss p)
unfolding run
run-IsTallied [] p n h = h
run-IsTallied (s ∷ ss) p n h =
    run-IsTallied ss (push_step s p).0 (alerts_after (push_step s p) n)
      (push_step-IsTallied s p n h)

-- After any steps of a new push, its error count is at most three, and since the count was last
-- zero exactly one error event was sent if the count is at least two, and none if it is less.
pub run-alerts :
    (t : Target) (profile : String) (ss : List Step)
    → (run ss (new_push t profile)).error_count ≤ 3
      × alerts ss (new_push t profile) 0
        ≡ (if leb 2 (run ss (new_push t profile)).error_count then 1 else 0)
run-alerts t profile ss =
    let h = run-IsTallied ss (new_push t profile) 0 (refl, omega arith) in (h.1, h.0)

-- A step that is no end and no removal of the push.
abbrev IsCalm : Step → Type 0
IsCalm (ended now stopped) = ⊥
IsCalm (removed now) = ⊥
IsCalm s = Unit

-- The events that some steps send.
abbrev pub event_list : Option PushEvent → List PushEvent
event_list none = []
event_list (some e) = e ∷ []

abbrev pub emitted : List Step → PushStatus → List PushEvent
emitted [] p = []
emitted (s ∷ ss) p = event_list (push_step s p).1 ++ emitted ss (push_step s p).0

calm :
    (s : Step) (p : PushStatus)
    → IsCalm s
    → p.last_event ≡ connected
    → ((push_step s p).1 ≡ none) × ((push_step s p).0.last_event ≡ connected)
unfolding push_step wait_over update_target
calm (waited now i true) p h e = (refl, e)
calm (waited now i false) p h e = elim (Bool-cases p.target.disabled) [
  | inl d ↦ rw d (refl, e)
  | inr d ↦ simp (d, e) (refl, refl)
]
calm (ended now stopped) p h e = elim h [ ]
calm (removed now) p h e = elim h [ ]
calm (refreshed t profile) p h e = (refl, e)

calm_after_connected :
    (ss : List Step) (p : PushStatus) → All IsCalm ss → p.last_event ≡ connected → emitted ss p ≡ []
calm_after_connected [] p h e = refl
calm_after_connected (s ∷ ss) p h e =
    let c = calm s p h.0 e in rw c.0 (calm_after_connected ss (push_step s p).0 h.1 c.1)

Connects : Outcome → Type 0
Connects o = o.1 ≡ some connected → o.0.last_event ≡ connected

nothing : (p : PushStatus) → Connects (p, none)
unfolding Connects
nothing p = λ h. cc

wait_over-Connects : (now : ℕ) (i s : Bool) (p : PushStatus) → Connects (wait_over now i s p)
unfolding Connects wait_over connect
wait_over-Connects now i s p =
    if_both Connects s _ _ (λ _. nothing p)
      (λ _. if_both Connects _ _ _ (λ _. nothing p) (λ _ h. refl))

-- Once the connected event of a push is sent, nothing is sent again until the push ends or is
-- removed from Mist, however many waits run out and whatever settings are refreshed.
pub emitted-wait_over :
    (now : ℕ) (i s : Bool) (p : PushStatus) (ss : List Step)
    → (wait_over now i s p).1 ≡ some connected
    → All IsCalm ss
    → emitted ss (wait_over now i s p).0 ≡ []
emitted-wait_over now i s p ss e h =
    calm_after_connected ss (wait_over now i s p).0 h
      (unfold Connects in wait_over-Connects now i s p e)

-- The end of a push that was removed from Mist sends nothing and starts the count again, whatever
-- the count was.
pub end_push-disconnect :
    (t u : ℕ) (p : PushStatus)
    → end_push u false (disconnect t p).0
      ≡ (record p { last_event = quiet; last_event_at = u; error_count = 0 }, none)
unfolding end_push disconnect end_after
end_push-disconnect t u p = refl

-- A step keeps the error count within three.
pub push_step-error_count :
    (s : Step) (p : PushStatus) → p.error_count ≤ 3 → (push_step s p).0.error_count ≤ 3
push_step-error_count s p h = (push_step-IsTallied s p (due p.error_count) (refl, h)).1
