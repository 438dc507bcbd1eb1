-- ===== src/Triggers/Broker.antt =====
-- handlers/misttriggers/trigger_broker.go: a group of callbacks, which a trigger calls at the same
-- time. A callback gets the payload and whether its context is cancelled when it looks.
pub mod Outcome
use dms_api.Prelude.{
  ℕ, ◌≡◌, String, Bool, true, false, ◌||◌, Option, none, some, List, [], ◌∷◌, ◌++◌, ◌==◌,
  if◌then◌else◌, get_elem?,
}
use dms_api.Errors.{Error}
use dms_api.Result.{Result, ok, err}

-- What a callback returns: a text and an error.
abbrev pub Callback : Type 0 → Type 0
Callback P = P → Bool → String × Option Error

-- `funcGroup`
abbrev pub FuncGroup : Type 0 → Type 0
FuncGroup P = List (Callback P)

module _ {P : Type 0} where
  unfoldable pub register : Callback P → FuncGroup P → FuncGroup P
  register cb g = g ++ cb ∷ []

  unfoldable pub register_no_response : (P → Bool → Option Error) → FuncGroup P → FuncGroup P
  unfolding register
  register_no_response cb g = register (λ payload cancelled. ("", cb payload cancelled)) g

  unfoldable pub boolean_callback : (P → Bool → Bool × Option Error) → Callback P
  boolean_callback cb payload cancelled =
      (if (cb payload cancelled).0 then "true" else "false", (cb payload cancelled).1)

  unfoldable pub register_boolean : (P → Bool → Bool × Option Error) → FuncGroup P → FuncGroup P
  unfolding register boolean_callback
  register_boolean cb g = register (boolean_callback cb) g

-- A call of `TriggerWithDefault`: the response so far, and the first error of the error group,
-- which cancels the context.
pub record Call : Type 0 where
  pub ret : String
  pub failed : Option Error

abbrev pub start_call : String → Call
start_call default_response = record { ret = default_response; failed = none }

keep_first : Option Error → Error → Option Error
keep_first none e = some e
keep_first (some first) e = some first

-- The end of the goroutine of a callback.
unfoldable pub finish : ℕ → String × Option Error → Call → Call
unfolding keep_first
finish i (str, some e) c = record c { failed = keep_first c.failed e }
finish i (str, none) c = record c { ret = if i == 0 then str else c.ret }

-- `group.Wait` and what follows it
unfoldable pub wait : Call → Result String
wait c = elim c.failed [ some e ↦ err e | none ↦ ok c.ret ]

unfoldable pub is_cancelled : Call → Bool
is_cancelled c = elim c.failed [ some e ↦ true | none ↦ false ]

unfoldable pub is_done : ℕ → List ℕ → Bool
is_done i [] = false
is_done i (j ∷ js) = j == i || is_done i js

-- The calls that can be reached, with the callbacks that have ended: they end in any order, and one
-- that looks at the context may see a cancellation only after an error.
pub data Runs {P : Type 0} (g : FuncGroup P) (payload : P) (default_response : String)
    : List ℕ → Call → Type 0 where
  begins : Runs g payload default_response [] (start_call default_response)
  ends :
      {done : List ℕ} {c : Call} (i : ℕ) (cb : Callback P) (seen : Bool)
      → Runs g payload default_response done c
      → get_elem? g i ≡ some cb
      → is_done i done ≡ false
      → (seen ≡ true → is_cancelled c ≡ true)
      → Runs g payload default_response (i ∷ done) (finish i (cb payload seen) c)
