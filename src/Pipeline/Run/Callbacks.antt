-- ===== src/Pipeline/Run/Callbacks.antt =====
-- How many final callbacks a run of one pipeline sends to the caller.
pub mod Runs
use dms_api.Prelude.{
  ℕ, ◌+◌, ◌≡◌, ◌≢◌, refl, sym, ap, ◌∙◌, String, Bool, true, false, not, ◌&&◌, Option, none, some,
  List, [], ◌∷◌, ◌++◌, arith, str_eq, eq_iff, if◌then◌else◌,
}
use mathlib.Core.Option.{some-injective}
use mathlib.Core.Path.{subst}
use dms_api.Errors.{Error, message, is_unretriable}
use dms_api.Callback.Status.{
  Message, is_terminal, new_progress, new_error, new_completed, preparing,
}
use dms_api.Pipeline.Job.{
  UploadJobResult, HandlerOutput, Outcome, returns, panics, Pipe, Channel, nil_channel, chan,
  JobInfo, State, Handle,
}
use dms_api.Pipeline.Coordinator.{
  recovered, Finish, finished, is_none, final_message, with_state, with_result,
}
use dms_api.Pipeline.Mp4.{is_set}
use dms_api.Pipeline.Run.{
  conclude, finish_job, settle, run_handler, ready, start_one_upload_job, report_progress,
  store_job, prepare_job,
}
use dms_api.Pipeline.Run.Finishing.{succeeds, finish_job_lem, finish_job-eq}

-- A terminal message with an address, which is what the caller gets as the job's end.
abbrev pub is_final_callback : Message → Bool
is_final_callback m = is_terminal m && not (str_eq m.url "")

unfoldable pub count_final : List Message → ℕ
count_final [] = 0
count_final (m ∷ ms) = (if is_final_callback m then 1 else 0) + count_final ms

pub count_final-append :
    (ms ns : List Message) → count_final (ms ++ ns) ≡ count_final ms + count_final ns
unfolding count_final
count_final-append [] ns = omega arith
count_final-append (m ∷ ms) ns = omega (arith, count_final-append ms ns)

-- A handler ends with a panic, an error, or a result: it does not leave the job unfinished, and it
-- never returns an output with no result and no error.
unfoldable pub concludes : Outcome → Bool
unfolding is_set
concludes (panics rec) = true
concludes (returns out (some e)) = true
concludes (returns none none) = false
concludes (returns (some out) none) = not out.continue && is_set out.result

-- A handler ended with an error or a panic.
unfoldable pub fails : Outcome → Bool
unfolding is_none
fails o = not (is_none (recovered o).1)

-- What the coordinator relies on in a handler: it concludes, sends no final callback itself, and
-- leaves alone the fields of the job that are the coordinator's.
pub record IsHandler (h : Handle) : Type 0 where
  pub ends : (s : State) → concludes (h s).0 ≡ true
  pub quiet : (s : State) → count_final (h s).1.sent ≡ count_final s.sent
  pub result : (s : State) → (h s).1.job.info.result ≡ s.job.info.result
  pub has_fallback : (s : State) → (h s).1.job.info.has_fallback ≡ s.job.info.has_fallback
  pub callback_url : (s : State) → (h s).1.job.payload.callback_url ≡ s.job.payload.callback_url
  pub stream_name : (s : State) → (h s).1.job.stream_name ≡ s.job.stream_name

count-new_error :
    (time : ℕ) (url id msg : String) (u : Bool)
    → count_final (new_error time url id msg u ∷ []) ≡ (if str_eq url "" then 0 else 1)
unfolding count_final is_terminal new_error
count-new_error time url id msg u = ground arith

count-new_completed :
    (time : ℕ) (url id : String) (r : UploadJobResult)
    → count_final (new_completed time url id r.input_video r.outputs ∷ [])
      ≡ (if str_eq url "" then 0 else 1)
unfolding count_final is_terminal new_completed
count-new_completed time url id r = ground arith

-- Whether the final message is a final callback: not so for an error that a fallback follows.
pub final_message-count :
    (t : ℕ) (job : JobInfo) (out : Option HandlerOutput) (err : Option Error)
    → job.payload.callback_url ≢ ""
    → (tsm : Message) (st : String) → final_message t job out err ≡ some (tsm, st)
    → count_final (tsm ∷ []) ≡ (if job.info.has_fallback && not (is_none err) then 0 else 1)
unfolding final_message is_none
final_message-count t job out (some e) n tsm st m =
    let url : String = if job.info.has_fallback then "" else job.payload.callback_url in
    ap (λ (x : Message × String). count_final (x.0 ∷ [])) (sym (some-injective _ _ m))
    ∙ count-new_error t url job.payload.request_id (message e) (is_unretriable e)
    ∙ ground (arith, eq_iff job.payload.callback_url "", eq_iff url "")
final_message-count t job none none n tsm st m = cc
final_message-count t job (some out) none n tsm st m = completed out.result m
  where
    completed :
        (r : Option UploadJobResult)
        → ◌≡◌ {A = Option (Message × String)}
            (elim r [
              | none ↦ none
              | some x ↦ some (
                new_completed t job.payload.callback_url job.payload.request_id x.input_video
                    x.outputs,
                "completed",
              )
            ])
            (some (tsm, st))
        → count_final (tsm ∷ []) ≡ (if job.info.has_fallback && false then 0 else 1)
    completed none q = cc
    completed (some x) q =
        ap (λ (y : Message × String). count_final (y.0 ∷ [])) (sym (some-injective _ _ q))
        ∙ count-new_completed t job.payload.callback_url job.payload.request_id x
        ∙ ground (arith, eq_iff job.payload.callback_url "")

pub ready_facts :
    (now : State → ℕ) (pipe : Pipe) (hf : Bool) (s : State)
    → (count_final (ready now pipe hf s).sent ≡ count_final s.sent)
      × ((ready now pipe hf s).job.info.result ≡ chan none false)
      × ((ready now pipe hf s).job.info.has_fallback ≡ hf)
      × ((ready now pipe hf s).job.payload.callback_url ≡ s.job.payload.callback_url)
unfolding ready report_progress store_job prepare_job
ready_facts now pipe hf s = (
  count_final-append s.sent _ ∙ (unfold count_final is_terminal new_progress in omega arith),
  refl,
  refl,
  refl,
)
