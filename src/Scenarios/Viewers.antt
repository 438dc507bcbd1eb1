-- ===== src/Scenarios/Viewers.antt =====
-- A viewer that is let in, from the body of the trigger to its answer, and a group of two
-- callbacks.
use dms_api.Prelude.{
  ℕ, ◌≡◌, refl, ap, String, Bool, true, false, Option, none, some, List, [], ◌∷◌, arith, ◌⊎◌,
  get_elem?,
}
use dms_api.Prelude.Text.{split, cut, occurs, trim_space, trim_left, trim_right, is_space}
use dms_api.Errors.{Error, plain}
use dms_api.Result.{ok, err}
use dms_api.AccessControl.Store.{check_viewer_limit}
use dms_api.AccessControl.Request.{is_redirect}
use dms_api.AccessControl.Cleared.{IsCleared}
use dms_api.AccessControl.Decision.{IsVouched}
use dms_api.Triggers.Broker.{
  Callback, Call, FuncGroup, register_boolean, register, boolean_callback, wait, finish, start_call,
  is_done, is_cancelled, Runs, begins, ends,
}
use dms_api.Triggers.Broker.Outcome.{wait_lem, IsComplete, first_response, Fails}
use dms_api.Triggers.UserNew.{
  user_decision, UserNewPayload, ParseUrl, lines, of_lines, parse_user_new_payload, read_request,
  trigger_user_new, after_plus, handle_user_new,
}
use dms_api.Triggers.UserNew.Decision.{trigger_user_new-IsCleared}
use dms_api.Scenarios.Access.{env, empty_store, payload, after, is_allowed}

abbrev any_url : ParseUrl
any_url s = ok payload.url

abbrev body : String
body = "video+stream\nnode\n17\nHLS\nhttps://host/stream\n1\n"

abbrev cookies : List (String × String)
cookies =
    ("User-Agent", "player")
    ∷ ("X-Forwarded-Proto", "https")
    ∷ ("Host", "host")
    ∷ ("X-Forwarded-For", "10.0.0.1")
    ∷ ("Livepeer-Jwt", "token")
    ∷ []

abbrev viewer : UserNewPayload
viewer = record {
  stream_name = "video+stream";
  hostname = "node";
  connection_id = "17";
  protocol = "HLS";
  full_url = "https://host/stream";
  original_url = "";
  viewer = payload;
}

is_read : read_request any_url body cookies ≡ ok viewer
unfolding read_request parse_user_new_payload lines trim_space trim_left trim_right is_space split
    of_lines
is_read = refl

abbrev lets_in : UserNewPayload → Bool → Bool × Option Error
lets_in p cancelled = (true, none)

abbrev access_group : FuncGroup UserNewPayload
access_group = register_boolean lets_in []

access_runs :
    Runs access_group viewer ""
      (0 ∷ [])
      (finish 0 (boolean_callback lets_in viewer false) (start_call ""))
unfolding register_boolean register is_done
access_runs = ends 0 (boolean_callback lets_in) false begins refl refl (λ e. cc)

access-IsComplete : IsComplete access_group viewer "" (0 ∷ [])
unfolding register_boolean register is_done
access-IsComplete i h = ground (arith, h)

handled :
    handle_user_new env 1000 [] (λ t. t) viewer empty_store ≡ (some (lets_in viewer false), after)
unfolding handle_user_new user_decision after_plus occurs cut
handled = ap (λ i. (user_decision i.0, i.1)) is_allowed

trigger_user_new-IsCleared_example :
    IsCleared env 1000 [] "stream" payload
    × IsVouched env 1000 "stream" payload (λ t. t) empty_store after
    × (check_viewer_limit "stream" after ≡ true)
unfolding after_plus occurs cut is_redirect boolean_callback finish wait trigger_user_new
    read_request parse_user_new_payload lines trim_space trim_left trim_right is_space split
    of_lines
trigger_user_new-IsCleared_example =
    trigger_user_new-IsCleared env 1000 [] (λ t. t) empty_store after any_url body cookies viewer
      lets_in is_read handled access_runs access-IsComplete refl refl

-- The second callback fails first; the first one succeeds although it sees the cancelled context.
abbrev pair_group : FuncGroup ℕ
pair_group = (λ p cancelled. ("first", none)) ∷ (λ p cancelled. ("", some (plain "denied"))) ∷ []

abbrev pair_call : Call
pair_call = record { ret = "first"; failed = some (plain "denied") }

pair_runs : Runs pair_group 5 "" (0 ∷ 1 ∷ []) pair_call
unfolding is_done is_cancelled finish
pair_runs =
    ends 0 (λ p cancelled. ("first", none)) true
      (ends 1 (λ p cancelled. ("", some (plain "denied"))) false begins refl refl (λ e. cc)) refl
      refl (λ e. refl)

pair-IsComplete : IsComplete pair_group 5 "" (0 ∷ 1 ∷ [])
unfolding is_done
pair-IsComplete i h = ground (arith, h)

wait_lem_example :
    ((wait pair_call ≡ ok (first_response pair_group 5 ""))
      × ((i : ℕ) (cb : Callback ℕ) → get_elem? pair_group i ≡ some cb → (cb 5 false).1 ≡ none))
    ⊎ ((e : Error) × (wait pair_call ≡ err e) × Fails pair_group 5 "" e)
wait_lem_example = wait_lem pair_group 5 "" pair_runs pair-IsComplete
