-- ===== src/Triggers/UserNew/Decision.antt =====
-- A viewer that Mist lets in has passed access control.
use dms_api.Prelude.{
  ℕ, ◌≡◌, refl, sym, ap, ap₂, ◌∙◌, String, Bool, true, false, Option, none, some, List, [], str_eq,
  if◌then◌else◌, inl, inr,
}
use dms_api.Errors.{Error}
use dms_api.Result.{Result, ok, err}
use dms_api.AccessControl.Store.{Store, Info, decided, failed, nil_entry, check_viewer_limit}
use dms_api.AccessControl.Request.{Env, is_authorized, is_redirect}
use dms_api.AccessControl.Cleared.{IsCleared}
use dms_api.AccessControl.Decision.{IsVouched, allowed-IsCleared}
use dms_api.Triggers.Broker.{Call, register_boolean, register, boolean_callback, wait, Runs}
use dms_api.Triggers.Broker.Outcome.{wait_lem, IsComplete}
use dms_api.Triggers.UserNew.{
  HttpAnswer, UserNewPayload, ParseUrl, read_request, answer_of, trigger_user_new, after_plus,
  handle_user_new, user_decision,
}

abbrev spoken : Bool → String
spoken b = if b then "true" else "false"

true_only : (b : Bool) → spoken b ≡ "true" → b ≡ true
true_only true h = refl
true_only false h = let e : false ≡ true = ap (λ t. str_eq t "true") h in cc

ok_only : (r : Result String) → (answer_of r).body ≡ "true" → r ≡ ok "true"
unfolding answer_of
ok_only (err e) h = let b : false ≡ true = ap (λ t. str_eq t "true") h in cc
ok_only (ok resp) h = ap ok h

decided_only : (i : Info) → user_decision i ≡ some (true, none) → i ≡ decided true
unfolding user_decision
decided_only (decided true) = λ h. refl
decided_only (decided false) = λ h. cc
decided_only (failed e) = λ h. cc
decided_only nil_entry = λ h. cc

answer_lem :
    (parse_url : ParseUrl) (body : String) (cookies : List (String × String)) (p : UserNewPayload)
    (respond : UserNewPayload → Result String)
    → read_request parse_url body cookies ≡ ok p
    → trigger_user_new parse_url body cookies respond ≡ answer_of (respond p)
unfolding trigger_user_new
answer_lem parse_url body cookies p respond h = rw (trigger_user_new, h) refl

ok_inj : (x y : String) → ok x ≡ ok y → x ≡ y
ok_inj x y h = cc

said_true :
    (cb : UserNewPayload → Bool → Bool × Option Error) (p : UserNewPayload) {done : List ℕ}
    {c : Call}
    → Runs (register_boolean cb []) p "" done c
    → IsComplete (register_boolean cb []) p "" done
    → wait c ≡ ok "true"
    → ((cb p false).0 ≡ true) × ((cb p false).1 ≡ none)
unfolding register_boolean register boolean_callback
said_true cb p {done} {c} r h w = elim (wait_lem (register_boolean cb []) p "" r h) [
  | inl (e, oks) ↦ (
    true_only (cb p false).0 (ok_inj (spoken (cb p false).0) "true" (sym e ∙ w)),
    oks 0 (boolean_callback cb) refl,
  )
  | inr (x, e, f) ↦ let no : ◌≡◌ {A = Result String} (err x) (ok "true") = sym e ∙ w in cc
]

module _ (env : Env) (now : ℕ) (blocked : List String) (between : Store → Store) (s s' : Store)
    (parse_url : ParseUrl) (body : String) (cookies : List (String × String)) (p : UserNewPayload)
    (cb : UserNewPayload → Bool → Bool × Option Error) where
  authorized :
      handle_user_new env now blocked between p s ≡ (some (cb p false), s')
      → (cb p false).0 ≡ true
      → (cb p false).1 ≡ none
      → is_authorized env now blocked (after_plus p.stream_name) p.viewer between s
        ≡ (decided true, s')
  unfolding handle_user_new
  authorized h t n =
      let r = is_authorized env now blocked (after_plus p.stream_name) p.viewer between s in
      let d : user_decision r.0 ≡ some (true, none) =
        ap (λ y. y.0) h ∙ ap₂ (λ (b : Bool) (e : Option Error). some (b, e)) t n in
      let stored : r.1 ≡ s' = ap (λ y. y.1) h in
      ap₂ (λ (i : Info) (x : Store). (i, x)) (decided_only r.0 d) stored

  -- Where the access control is the one callback of USER_NEW, in whatever way its call runs: if
  -- Mist is answered that the viewer may come in, and the viewer is no redirect between catalyst
  -- hosts, then the payload read from the body and the cookies carries an access key, or an
  -- unblocked JWT for the very stream that it names, or neither; the gate's answer, cached or
  -- fetched, allows the request with this access key, with the public key of this JWT, or with
  -- neither, under its own cache key; and the stream is within its viewer limit.
  pub trigger_user_new-IsCleared :
      {done : List ℕ} {c : Call}
      → read_request parse_url body cookies ≡ ok p
      → handle_user_new env now blocked between p s ≡ (some (cb p false), s')
      → Runs (register_boolean cb []) p "" done c
      → IsComplete (register_boolean cb []) p "" done
      → (trigger_user_new parse_url body cookies (λ q. wait c)).body ≡ "true"
      → is_redirect env p.viewer ≡ false
      → IsCleared env now blocked (after_plus p.stream_name) p.viewer
        × IsVouched env now (after_plus p.stream_name) p.viewer between s s'
        × (check_viewer_limit (after_plus p.stream_name) s' ≡ true)
  trigger_user_new-IsCleared {done} {c} read calls r h answer direct =
      let said = ok_only (wait c) (
        sym
          (ap (λ (a : HttpAnswer). a.body) (answer_lem parse_url body cookies p (λ q. wait c) read))
        ∙ answer) in
      let (t, n) = said_true cb p r h said in
      allowed-IsCleared env now blocked (after_plus p.stream_name) p.viewer between s s' direct
        (authorized calls t n)
