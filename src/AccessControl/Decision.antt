-- ===== src/AccessControl/Decision.antt =====
-- handlers/accesscontrol/access-control.go: what an allowed request has gone through.
use dms_api.Prelude.{ℕ, ◌≡◌, refl, sym, ap, ◌∙◌, String, Bool, true, false, List, if◌then◌else◌}
use dms_api.Result.{Result, ok, err}
use dms_api.AccessControl.Gate.{query_gate}
use dms_api.AccessControl.Store.{
  Store, Info, decided, failed, nil_entry, get_info, check_viewer_limit,
}
use dms_api.AccessControl.Request.{
  Env, Payload, Request, Prepared, refused, broken, ready, prepare, is_authorized,
  is_authorized_slow, is_redirect, limited, ask, decide,
}
use dms_api.AccessControl.Cleared.{
  IsCleared, IsKeyed, stream_of, stream_of-prepare, prepare-IsCleared, prepare-IsKeyed,
}

-- The answer for the viewer's own cache key and request, cached or fetched, allows.
abbrev pub IsVouched : Env → ℕ → String → Payload → (Store → Store) → Store → Store → Type 0
IsVouched env now id p between s s' =
    (k : String) × (r : Request) × (body : String) × IsKeyed env now id p k r
    × (env.marshal r ≡ ok body)
    × (get_info now id k (query_gate (env.gate body)) between s ≡ (decided true, s'))

allows : Info → Bool
allows (decided b) = b
allows _ = false

module _ (env : Env) (now : ℕ) (blocked : List String) (id : String) where
  limited-cases :
      (x : Info × Store) (s' : Store)
      → limited id x ≡ (decided true, s')
      → (x ≡ (decided true, s')) × (check_viewer_limit id s' ≡ true)
  unfolding limited allows
  limited-cases (decided true, s) s' q = (
    ap (λ t. (decided true, t)) (ap (λ y. y.1) q),
    ap (check_viewer_limit id) (sym (ap (λ y. y.1) q)) ∙ ap (λ y. allows y.0) q,
  )
  limited-cases (decided false, s) s' q =
      absurd (let f : false ≡ true = ap (λ y. allows y.0) q in cc)
  limited-cases (failed e, s) s' q = absurd (let f : false ≡ true = ap (λ y. allows y.0) q in cc)
  limited-cases (nil_entry, s) s' q = absurd (let f : false ≡ true = ap (λ y. allows y.0) q in cc)

  ask-Vouched :
      (p : Payload) (k : String) (r : Request) (body : Result String) (between : Store → Store)
      (s s' : Store)
      → IsKeyed env now id p k r
      → env.marshal r ≡ body
      → r.stream ≡ id
      → ask env now id k r body between s ≡ (decided true, s')
      → IsVouched env now id p between s s' × (check_viewer_limit id s' ≡ true)
  unfolding ask allows
  ask-Vouched _ k r (err e) between s s' _ _ p q =
      absurd (let f : false ≡ true = ap (λ y. allows y.0) q in cc)
  ask-Vouched _ k r (ok body) between s s' keyed m p q =
      let v = limited-cases (get_info now r.stream k (query_gate (env.gate body)) between s) s' q in
      (
        (
          k,
          r,
          body,
          keyed,
          m,
          ap (λ t. get_info now t k (query_gate (env.gate body)) between s) (sym p) ∙ v.0,
        ),
        v.1,
      )

  decide-Vouched :
      (p : Payload) (x : Prepared) (between : Store → Store) (s s' : Store)
      → prepare env now blocked id p ≡ x
      → decide env now id x between s ≡ (decided true, s')
      → IsCleared env now blocked id p
        × IsVouched env now id p between s s'
        × (check_viewer_limit id s' ≡ true)
  unfolding decide allows stream_of
  decide-Vouched p refused between s s' e q =
      absurd (let f : false ≡ true = ap (λ y. allows y.0) q in cc)
  decide-Vouched p (broken x) between s s' e q =
      absurd (let f : false ≡ true = ap (λ y. allows y.0) q in cc)
  decide-Vouched p (ready k r) between s s' e q =
      let v =
        ask-Vouched p k r (env.marshal r) between s s' (prepare-IsKeyed env now blocked id p k r e)
          refl (ap (stream_of id) (sym e) ∙ stream_of-prepare env now blocked id p) q in
      (prepare-IsCleared env now blocked id p k r e, v.0, v.1)

-- A request that is let through and is no redirect between catalyst hosts carries an access key, an
-- unblocked and decodable JWT for this very playback id, or neither; the gate's answer, cached or
-- fetched, allows the request with this access key, with the public key of this JWT, or with
-- neither, under the cache key of that request; and the store left behind is within the viewer
-- limit. This holds whatever other goroutines do to the store between the two reads of its entry.
pub allowed-IsCleared :
    (env : Env) (now : ℕ) (blocked : List String) (id : String) (p : Payload)
    (between : Store → Store) (s s' : Store)
    → is_redirect env p ≡ false
    → is_authorized env now blocked id p between s ≡ (decided true, s')
    → IsCleared env now blocked id p
      × IsVouched env now id p between s s'
      × (check_viewer_limit id s' ≡ true)
unfolding is_authorized is_authorized_slow
allowed-IsCleared env now blocked id p between s s' e q =
    decide-Vouched env now blocked id p (prepare env now blocked id p) between s s' refl (
      sym (
        ap (λ b. if b then (decided true, s) else is_authorized_slow env now blocked id p between s)
          e)
      ∙ q)
