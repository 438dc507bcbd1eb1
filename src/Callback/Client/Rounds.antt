-- ===== src/Callback/Client/Rounds.antt =====
-- A round of `SendCallbacks`.
use dms_api.Prelude.{
  ℕ, String, Bool, false, ◌&&◌, ◌||◌, Option, none, some, List, [], ◌∷◌, str_eq, if◌then◌else◌,
}
use dms_api.Prelude.Dict
use dms_api.Prelude.Dict.{Dict}
use dms_api.Callback.Status.{Message}
use dms_api.Callback.Client.{Client, is_timed_out}

-- The messages of the entries that are not timed out, in the order of the round.
unfoldable pub fresh_messages : ℕ → Dict Message → List Message
fresh_messages now [] = []
fresh_messages now ((k, m) ∷ entries) =
    let rest = fresh_messages now entries in if is_timed_out now m then rest else m ∷ rest

-- An entry that is not timed out.
unfoldable pub keep_fresh : ℕ → Option Message → Option Message
keep_fresh now none = none
keep_fresh now (some m) = if is_timed_out now m then none else some m

-- Some entry at the key is timed out.
any_timed_out : ℕ → String → Dict Message → Bool
any_timed_out now k [] = false
any_timed_out now k ((j, m) ∷ entries) =
    (is_timed_out now m && str_eq j k) || any_timed_out now k entries
