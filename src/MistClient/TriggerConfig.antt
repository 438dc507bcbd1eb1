-- ===== src/MistClient/TriggerConfig.antt =====
-- clients/mist_client.go: Mist's trigger configuration, which can only be replaced as a whole.
use dms_api.Prelude.{
  String, concat, Bool, true, false, ◌&&◌, ◌||◌, not, Option, none, some, List, [], ◌∷◌, ◌++◌,
  str_eq, if◌then◌else◌,
}
use Prim.Native.Nat.{Ordering}
use Prim.Native.String.{compare}
use dms_api.Prelude.Dict.{Dict, get, put}
use dms_api.Prelude.Text.{join}
use dms_api.Errors.{Error, plain}

pub record ConfigTrigger : Type 0 where
  pub handler : String
  pub streams : List String
  pub sync : Bool

abbrev pub Triggers : Type 0
Triggers = Dict (List ConfigTrigger)

insert_text : String → List String → List String
insert_text x [] = x ∷ []
insert_text x (y ∷ ys) =
    let rest = insert_text x ys in
    elim (compare x y) as (λ _. List String) [ Ordering.gt ↦ y ∷ rest | _ ↦ x ∷ y ∷ ys ]

-- `sort.Strings`
unfoldable pub sort_strings : List String → List String
unfolding insert_text
sort_strings [] = []
sort_strings (x ∷ xs) = insert_text x (sort_strings xs)

unfoldable pub texts_eq : List String → List String → Bool
texts_eq [] [] = true
texts_eq (x ∷ xs) (y ∷ ys) = str_eq x y && texts_eq xs ys
texts_eq xs ys = false

-- `sameStringSlice`
unfoldable pub same_string_slice : List String → List String → Bool
unfolding sort_strings texts_eq
same_string_slice s1 s2 = texts_eq (sort_strings s1) (sort_strings s2)

-- `deleteAllTriggersFor`
unfoldable pub delete_all_triggers_for : List ConfigTrigger → List String → List ConfigTrigger
unfolding same_string_slice
delete_all_triggers_for [] stream_names = []
delete_all_triggers_for (t ∷ ts) stream_names =
    let rest = delete_all_triggers_for ts stream_names in
    if same_string_slice stream_names t.streams then rest else t ∷ rest

-- A read of a missing name is the nil slice.
abbrev pub triggers_at : String → Triggers → List ConfigTrigger
triggers_at name m = elim (get name m) [ none ↦ [] | some ts ↦ ts ]

-- The trigger that replaces those of the streams, if any.
abbrev pub replacement : Option ConfigTrigger → List ConfigTrigger
replacement none = []
replacement (some t) = t ∷ []

-- `commandUpdateTrigger`
unfoldable pub command_update_trigger :
    List String → String → Triggers → Option ConfigTrigger → Triggers
unfolding delete_all_triggers_for get put
command_update_trigger stream_names name current replace =
    put name
      (delete_all_triggers_for (triggers_at name current) stream_names ++ replacement replace)
      current

-- `commandAddTrigger`
unfoldable pub command_add_trigger : List String → String → String → Triggers → Bool → Triggers
unfolding command_update_trigger
command_add_trigger stream_names name handler_url current sync =
    command_update_trigger stream_names name current
      (some (record { handler = handler_url; streams = stream_names; sync = sync }))

-- `commandDeleteTrigger`
unfoldable pub command_delete_trigger : List String → String → Triggers → Triggers
unfolding command_update_trigger
command_delete_trigger stream_names name current =
    command_update_trigger stream_names name current none

unfoldable pub bool_eq : Bool → Bool → Bool
bool_eq a b = if a then b else not b

-- Whether a trigger of the streams is there whose flag satisfies a test.
unfoldable pub has_trigger : List String → (Bool → Bool) → List ConfigTrigger → Bool
unfolding same_string_slice
has_trigger stream_names p [] = false
has_trigger stream_names p (t ∷ ts) =
    (same_string_slice t.streams stream_names && p t.sync) || has_trigger stream_names p ts

stream_text : String → List String → String → String
unfolding join
stream_text prefix stream_names name =
    concat prefix (
      concat "["
        (concat (join " " stream_names) (concat "]' found in trigger '" (concat name "'"))))

-- The end of `validateAddTrigger`, on the triggers of the reply
unfoldable pub check_added : List String → String → Bool → Triggers → Option Error
unfolding has_trigger bool_eq get stream_text
check_added stream_names name sync ts = elim (get name ts) [
  | none ↦ some (plain (concat "adding trigger failed, no trigger '" (concat name "' in response")))
  | some l ↦
      if has_trigger stream_names (λ s. bool_eq s sync) l
      then none
      else some (plain (stream_text "adding trigger failed, no stream '" stream_names name))
]

-- The end of `validateDeleteTrigger`
unfoldable pub check_deleted : List String → String → Triggers → Option Error
unfolding has_trigger get stream_text
check_deleted stream_names name ts = elim (get name ts) [
  | none ↦ none
  | some l ↦
      if has_trigger stream_names (λ s. true) l
      then some (plain (stream_text "deleting trigger failed, stream '" stream_names name))
      else none
]
