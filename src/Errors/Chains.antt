-- ===== src/Errors/Chains.antt =====
-- What `IsUnretriable` and `IsObjectNotFound` find however often an error is wrapped.
use dms_api.Prelude.{◌≡◌, refl, ◌∙◌, String, true, false, Option, none, some, List, [], ◌∷◌, arith}
use dms_api.Errors.{
  Error, plain, wrapped, unretriable_error, unwrap, is_unretriable, is_object_not_found,
  new_object_not_found_error, unretriable,
}

-- The error after it was passed up through `fmt.Errorf("…%w", err)` at each of some callers, the
-- innermost text first.
unfoldable pub wrap_all : List String → Error → Error
wrap_all [] e = e
wrap_all (msg ∷ msgs) e = wrap_all msgs (wrapped msg e)

is_unretriable-unwrap :
    (e f : Error) → unwrap e ≡ some f → is_unretriable f ≡ true → is_unretriable e ≡ true
unfolding unwrap is_unretriable
is_unretriable-unwrap (plain msg) f h u = ground arith
is_unretriable-unwrap (unretriable_error e) f h u = refl
is_unretriable-unwrap _ f h u = ground arith

is_unretriable-wrap_all :
    (msgs : List String) (e : Error) → is_unretriable (wrap_all msgs e) ≡ is_unretriable e
unfolding wrap_all is_unretriable
is_unretriable-wrap_all [] e = refl
is_unretriable-wrap_all (msg ∷ msgs) e = is_unretriable-wrap_all msgs (wrapped msg e)

is_object_not_found-wrap_all :
    (msgs : List String) (e : Error) → is_object_not_found (wrap_all msgs e) ≡ is_object_not_found e
unfolding wrap_all is_object_not_found
is_object_not_found-wrap_all [] e = refl
is_object_not_found-wrap_all (msg ∷ msgs) e = is_object_not_found-wrap_all msgs (wrapped msg e)

-- An error made by `Unretriable` is found to be unretriable through any number of wrappings, if
-- `backoff.Permanent` gives an error that unwraps to its argument.
pub is_unretriable-unretriable :
    (permanent : Error → Error)
    → ((e : Error) → unwrap (permanent e) ≡ some e)
    → (msgs : List String) (e : Error)
    → is_unretriable (wrap_all msgs (unretriable permanent e)) ≡ true
unfolding unretriable
is_unretriable-unretriable permanent unwraps msgs e =
    is_unretriable-wrap_all msgs (permanent (unretriable_error e))
    ∙ is_unretriable-unwrap (permanent (unretriable_error e)) (unretriable_error e)
        (unwraps (unretriable_error e)) (unfold is_unretriable in refl)

-- A not-found error is found to be unretriable and to be a not-found error through any number of
-- wrappings, with a cause or with none. An error built by wrapping a plain one is neither.
pub not_found_chain :
    (msgs : List String) (msg : String) (cause : Option Error)
    → (is_unretriable (wrap_all msgs (new_object_not_found_error msg cause)) ≡ true)
      × (is_object_not_found (wrap_all msgs (new_object_not_found_error msg cause)) ≡ true)
      × (is_unretriable (wrap_all msgs (plain msg)) ≡ false)
      × (is_object_not_found (wrap_all msgs (plain msg)) ≡ false)
not_found_chain msgs msg cause = (
  is_unretriable-wrap_all msgs (new_object_not_found_error msg cause) ∙ unretriable_head cause,
  is_object_not_found-wrap_all msgs (new_object_not_found_error msg cause) ∙ found_head cause,
  is_unretriable-wrap_all msgs (plain msg) ∙ (unfold is_unretriable in refl),
  is_object_not_found-wrap_all msgs (plain msg) ∙ (unfold is_object_not_found in refl),
)
  where
    unretriable_head : (c : Option Error) → is_unretriable (new_object_not_found_error msg c) ≡ true
    unretriable_head none = unfold is_unretriable new_object_not_found_error in refl
    unretriable_head (some e) = unfold is_unretriable new_object_not_found_error in refl

    found_head : (c : Option Error) → is_object_not_found (new_object_not_found_error msg c) ≡ true
    found_head none = unfold is_object_not_found new_object_not_found_error in refl
    found_head (some e) = unfold is_object_not_found new_object_not_found_error in refl
