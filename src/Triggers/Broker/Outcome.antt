-- ===== src/Triggers/Broker/Outcome.antt =====
-- What a trigger returns, whatever the order in which its callbacks end.
use dms_api.Prelude.{
  ℕ, ◌<◌, ◌≡◌, refl, sym, ap, ◌∙◌, String, Bool, true, false, Option, none, some, List, ◌∷◌, arith,
  ◌==◌, if◌then◌else◌, inl, inr, ◌⊎◌, Bool-cases, length, get_elem?, get_elem?-lt,
}
use dms_api.Errors.{Error}
use dms_api.Result.{ok, err}
use dms_api.Triggers.Broker.{
  Callback, FuncGroup, Call, finish, keep_first, wait, is_cancelled, is_done, Runs, begins, ends,
}

some_inj : {A : Type 0} (x y : A) → some x ≡ some y → x ≡ y
some_inj x y h = cc

module _ {P : Type 0} (g : FuncGroup P) (payload : P) (default_response : String) where
  -- The response of the first callback, or the default if there is none.
  abbrev pub first_response : String
  first_response = elim (get_elem? g 0) [ none ↦ default_response | some cb ↦ (cb payload false).0 ]

  -- Some callback returns an error, in a context that is not cancelled.
  abbrev pub Fails : Error → Type 0
  Fails e =
      (i : ℕ) × (cb : Callback P) × (get_elem? g i ≡ some cb) × ((cb payload false).1 ≡ some e)

  abbrev Tracks : List ℕ → Call → Type 0
  Tracks done c =
      ((e : Error) × (c.failed ≡ some e) × Fails e)
      ⊎ ((c.failed ≡ none)
          × ((i : ℕ) (cb : Callback P)
              → get_elem? g i ≡ some cb
              → is_done i done ≡ true
              → (cb payload false).1 ≡ none)
          × (c.ret ≡ (if is_done 0 done then first_response else default_response)))

  not_cancelled : (c : Call) → c.failed ≡ none → is_cancelled c ≡ false
  unfolding is_cancelled
  not_cancelled c h = rw (is_cancelled, h) refl

  response_lem :
      (first : Option (Callback P)) (cb : Callback P) (str : String)
      → first ≡ some cb
      → cb payload false ≡ (str, none)
      → str ≡ (elim first [ none ↦ default_response | some cb ↦ (cb payload false).0 ])
  response_lem none cb str = λ h eq. cc
  response_lem (some cb') cb str = λ h eq.
      sym (ap (λ (f : Callback P). (f payload false).0) (some_inj cb' cb h) ∙ ap (λ y. y.0) eq)

  oks_lem :
      (done : List ℕ) (i : ℕ) (cb : Callback P) (str : String)
      → get_elem? g i ≡ some cb
      → cb payload false ≡ (str, none)
      → ((i : ℕ) (cb : Callback P)
          → get_elem? g i ≡ some cb
          → is_done i done ≡ true
          → (cb payload false).1 ≡ none)
      → (i' : ℕ) (cb' : Callback P) → get_elem? g i' ≡ some cb'
      → is_done i' (i ∷ done) ≡ true
      → (cb' payload false).1 ≡ none
  unfolding is_done
  oks_lem done i cb str at eq oks i' cb' at' = elim (Bool-cases (i == i')) [
    | inl e ↦ rw e (λ d.
        let same : i ≡ i' = ground (arith, e) in
        ap (λ (f : Callback P). (f payload false).1)
          (some_inj cb' cb (sym at' ∙ ap (get_elem? g) (sym same) ∙ at))
        ∙ ap (λ y. y.1) eq)
    | inr e ↦ rw e (λ d. oks i' cb' at' d)
  ]

  ret_lem :
      (done : List ℕ) (c : Call) (i : ℕ) (cb : Callback P) (str : String)
      → get_elem? g i ≡ some cb
      → cb payload false ≡ (str, none)
      → c.ret ≡ (if is_done 0 done then first_response else default_response)
      → (if i == 0 then str else c.ret)
        ≡ (if is_done 0 (i ∷ done) then first_response else default_response)
  unfolding is_done
  ret_lem done c i cb str at eq ret = elim (Bool-cases (i == 0)) [
    | inl e ↦ rw e (
        let zeroth : i ≡ 0 = ground (arith, e) in
        response_lem (get_elem? g 0) cb str (ap (get_elem? g) (sym zeroth) ∙ at) eq)
    | inr e ↦ rw e ret
  ]

  finish_lem :
      (done : List ℕ) (c : Call) (i : ℕ) (cb : Callback P) (seen : Bool) (r : String × Option Error)
      → get_elem? g i ≡ some cb
      → (seen ≡ true → is_cancelled c ≡ true)
      → cb payload seen ≡ r
      → Tracks done c
      → Tracks (i ∷ done) (finish i r c)
  unfolding finish keep_first is_cancelled is_done
  finish_lem done c i cb seen (str, some x) at may eq (inl (e, f, w)) =
      inl (e, ap (λ o. keep_first o x) f, w)
  finish_lem done c i cb seen (str, none) at may eq (inl (e, f, w)) = inl (e, f, w)
  finish_lem done c i cb true r at may eq (inr (f, oks, ret)) =
      let b : true ≡ false = sym (may refl) ∙ not_cancelled c f in cc
  finish_lem done c i cb false (str, some x) at may eq (inr (f, oks, ret)) =
      inl (x, ap (λ o. keep_first o x) f, (i, cb, at, ap (λ y. y.1) eq))
  finish_lem done c i cb false (str, none) at may eq (inr (f, oks, ret)) =
      inr (f, oks_lem done i cb str at eq oks, ret_lem done c i cb str at eq ret)

  runs_lem : {done : List ℕ} {c : Call} → Runs g payload default_response done c → Tracks done c
  unfolding is_done
  runs_lem begins = inr (refl, (λ i cb at d. cc), refl)
  runs_lem (ends {done} {c} i cb seen r at fresh may) =
      finish_lem done c i cb seen (cb payload seen) at may refl (runs_lem r)

  -- All callbacks have ended.
  abbrev pub IsComplete : List ℕ → Type 0
  IsComplete done = (i : ℕ) → i < length g → is_done i done ≡ true

  no_first :
      (first : Option (Callback P))
      → ((cb : Callback P) → first ≡ some cb → ⊥)
      → default_response ≡ (elim first [ none ↦ default_response | some cb ↦ (cb payload false).0 ])
  no_first none h = refl
  no_first (some cb) h = elim (h cb refl) [ ]

  complete_lem :
      (done : List ℕ) (c : Call)
      → IsComplete done
      → c.ret ≡ (if is_done 0 done then first_response else default_response)
      → c.ret ≡ first_response
  complete_lem done c h = elim (Bool-cases (is_done 0 done)) [
    | inl e ↦ rw e (λ ret. ret)
    | inr e ↦ rw e (λ ret.
        ret
        ∙ no_first (get_elem? g 0)
            (λ cb at. let b : true ≡ false = sym (h 0 (get_elem?-lt 0 g cb at)) ∙ e in cc))
  ]

  -- Once all callbacks of a group have ended, in whatever order and whoever looked at the cancelled
  -- context, the trigger returns either the response of the callback that was registered first, or
  -- the default where there is none, and then no callback fails; or the error of a callback, one
  -- that it returns in a context that is not cancelled and so not a consequence of the
  -- cancellation.
  pub wait_lem :
      {done : List ℕ} {c : Call}
      → Runs g payload default_response done c
      → IsComplete done
      → ((wait c ≡ ok first_response)
          × ((i : ℕ) (cb : Callback P) → get_elem? g i ≡ some cb → (cb payload false).1 ≡ none))
        ⊎ ((e : Error) × (wait c ≡ err e) × Fails e)
  unfolding wait
  wait_lem {done} {c} r h = outcome_lem (runs_lem r)
    where
      outcome_lem :
          Tracks done c
          → ((wait c ≡ ok first_response)
              × ((i : ℕ) (cb : Callback P) → get_elem? g i ≡ some cb → (cb payload false).1 ≡ none))
            ⊎ ((e : Error) × (wait c ≡ err e) × Fails e)
      outcome_lem (inl (e, f, w)) = inr (e, rw (wait, f) refl, w)
      outcome_lem (inr (f, oks, ret)) = inl (
        rw (wait, f) (ap ok (complete_lem done c h ret)),
        λ i cb at. oks i cb at (h i (get_elem?-lt i g cb at)),
      )
