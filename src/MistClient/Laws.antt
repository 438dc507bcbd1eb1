-- ===== src/MistClient/Laws.antt =====
-- The client of Mist's API of clients/mist_client.go: replacing triggers.
use dms_api.Prelude.{
  ◌≡◌, refl, ◌∙◌, String, Bool, true, false, ◌||◌, Option, none, some, List, [], ◌∷◌, ◌++◌, arith,
  str_eq, eq_iff, eq_refl, if◌then◌else◌,
}
use dms_api.Prelude.Dict.{get, get-put}
use dms_api.MistClient.TriggerConfig.{
  ConfigTrigger, Triggers, sort_strings, texts_eq, same_string_slice, delete_all_triggers_for,
  triggers_at, replacement, command_update_trigger, command_add_trigger, command_delete_trigger,
  bool_eq, has_trigger, check_added, check_deleted,
}

texts_eq_refl : (xs : List String) → texts_eq xs xs ≡ true
unfolding texts_eq
texts_eq_refl [] = refl
texts_eq_refl (x ∷ xs) = ground (arith, eq_refl x, texts_eq_refl xs)

texts_eq_sym : (xs ys : List String) → texts_eq xs ys ≡ texts_eq ys xs
unfolding texts_eq
texts_eq_sym [] [] = refl
texts_eq_sym [] (y ∷ ys) = refl
texts_eq_sym (x ∷ xs) [] = refl
texts_eq_sym (x ∷ xs) (y ∷ ys) = ground (arith, texts_eq_sym xs ys, eq_iff x y, eq_iff y x)

same_refl : (xs : List String) → same_string_slice xs xs ≡ true
unfolding same_string_slice
same_refl xs = texts_eq_refl (sort_strings xs)

same_sym : (xs ys : List String) → same_string_slice xs ys ≡ same_string_slice ys xs
unfolding same_string_slice
same_sym xs ys = texts_eq_sym (sort_strings xs) (sort_strings ys)

module _ (streams : List String) where
  has_trigger-deleted :
      (p : Bool → Bool) (ts : List ConfigTrigger)
      → has_trigger streams p (delete_all_triggers_for ts streams) ≡ false
  unfolding has_trigger delete_all_triggers_for
  has_trigger-deleted p [] = refl
  has_trigger-deleted p (t ∷ ts) =
      ground (arith, has_trigger-deleted p ts, same_sym streams t.streams)

  has_trigger-append :
      (p : Bool → Bool) (xs ys : List ConfigTrigger)
      → has_trigger streams p (xs ++ ys) ≡ (has_trigger streams p xs || has_trigger streams p ys)
  unfolding has_trigger
  has_trigger-append p [] ys = refl
  has_trigger-append p (t ∷ ts) ys = ground (arith, has_trigger-append p ts ys)

  has_trigger-new :
      (handler : String) (sync : Bool)
      → has_trigger streams
          (λ s. bool_eq s sync)
          (record { handler = handler; streams = streams; sync = sync } ∷ [])
        ≡ true
  unfolding has_trigger bool_eq
  has_trigger-new handler true = ground (arith, same_refl streams)
  has_trigger-new handler false = ground (arith, same_refl streams)

abbrev pub new_trigger : List String → String → Bool → ConfigTrigger
new_trigger streams handler sync = record { handler = handler; streams = streams; sync = sync }

updated_at :
    (streams : List String) (name : String) (current : Triggers) (r : Option ConfigTrigger)
    (j : String)
    → get j (command_update_trigger streams name current r) ≡ (
        if str_eq name j
        then some (delete_all_triggers_for (triggers_at name current) streams ++ replacement r)
        else get j current)
unfolding command_update_trigger
updated_at streams name current r j =
    get-put name j (delete_all_triggers_for (triggers_at name current) streams ++ replacement r)
      current

updated_here :
    (streams : List String) (name : String) (current : Triggers) (r : Option ConfigTrigger)
    → get name (command_update_trigger streams name current r)
      ≡ some (delete_all_triggers_for (triggers_at name current) streams ++ replacement r)
updated_here streams name current r =
    updated_at streams name current r name ∙ rw (eq_refl name) refl

deleted_here :
    (streams : List String) (p : Bool → Bool) (ts : List ConfigTrigger) (r : Option ConfigTrigger)
    → has_trigger streams p (delete_all_triggers_for ts streams ++ replacement r)
      ≡ has_trigger streams p (replacement r)
deleted_here streams p ts r =
    has_trigger-append streams p (delete_all_triggers_for ts streams) (replacement r)
    ∙ rw (has_trigger-deleted streams p ts) refl

added_ok :
    (streams : List String) (name : String) (sync : Bool) (ts : Triggers) (l : List ConfigTrigger)
    → get name ts ≡ some l
    → has_trigger streams (λ s. bool_eq s sync) l ≡ true
    → check_added streams name sync ts ≡ none
unfolding check_added
added_ok streams name sync ts l e h = rw (check_added, e) (rw h refl)

deleted_of :
    (streams : List String) (name : String) (ts : Triggers) (l : List ConfigTrigger)
    → get name ts ≡ some l
    → has_trigger streams (λ s. true) l ≡ false
    → check_deleted streams name ts ≡ none
unfolding check_deleted
deleted_of streams name ts l e h = rw (check_deleted, e) (rw h refl)

deleted_ok :
    (streams : List String) (name : String) (current : Triggers)
    → check_deleted streams name (command_delete_trigger streams name current) ≡ none
unfolding command_delete_trigger
deleted_ok streams name current =
    deleted_of streams name (command_update_trigger streams name current none)
      (delete_all_triggers_for (triggers_at name current) streams ++ [])
      (updated_here streams name current none)
      (deleted_here streams (λ s. true) (triggers_at name current) none
        ∙ unfold has_trigger in refl)

module _ (streams : List String) (name handler : String) (sync : Bool) (current : Triggers) where
  -- The configuration that AddTrigger sends passes its own check when Mist answers with it,
  -- whatever the configuration was, and so does the one that DeleteTrigger sends, also right after
  -- AddTrigger; neither changes the triggers of another name.
  pub sent_triggers-accepted :
      (check_added streams name sync (command_add_trigger streams name handler current sync) ≡ none)
      × (check_deleted streams name (command_delete_trigger streams name current) ≡ none)
      × (check_deleted streams name (
            command_delete_trigger streams name
              (command_add_trigger streams name handler current sync))
          ≡ none)
      × ((j : String)
          → str_eq name j ≡ false
          → (get j (command_add_trigger streams name handler current sync) ≡ get j current)
            × (get j (command_delete_trigger streams name current) ≡ get j current))
  unfolding command_add_trigger command_delete_trigger
  sent_triggers-accepted = (
    added_ok streams name sync (command_add_trigger streams name handler current sync)
        (delete_all_triggers_for (triggers_at name current) streams
          ++ new_trigger streams handler sync ∷ [])
        (updated_here streams name current (some (new_trigger streams handler sync)))
        (deleted_here streams (λ s. bool_eq s sync) (triggers_at name current)
            (some (new_trigger streams handler sync))
          ∙ has_trigger-new streams handler sync),
    deleted_ok streams name current,
    deleted_ok streams name (command_add_trigger streams name handler current sync),
    (λ j h. (
      updated_at streams name current (some (new_trigger streams handler sync)) j ∙ rw h refl,
      updated_at streams name current none j ∙ rw h refl,
    )),
  )
