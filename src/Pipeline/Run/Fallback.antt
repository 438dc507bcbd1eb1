-- ===== src/Pipeline/Run/Fallback.antt =====
-- A whole job: the strategies, the fallback, and what the caller is told.
use dms_api.Prelude.{
  ℕ, ◌+◌, ◌≡◌, ◌≢◌, refl, sym, ap, ◌∙◌, String, Bool, true, false, Option, none, some, List, arith,
  if◌then◌else◌, inl, inr, Bool-cases, if_both,
}
use mathlib.Core.Path.{subst}
use dms_api.Errors.{Error}
use dms_api.Callback.Status.{Message}
use dms_api.Pipeline.Strategy.{
  Strategy, external_dominance, catalyst_ffmpeg_dominance, fallback_external, other, is_valid,
}
use dms_api.Pipeline.Strategy.Compat.{chosen-is_valid}
use dms_api.Pipeline.Job.{Outcome, Pipe, pipe_ffmpeg, pipe_external, chan, State, Handle}
use dms_api.Pipeline.Coordinator.{Finish, finished}
use dms_api.Pipeline.Run.{
  receive, after_ffmpeg, start_one_upload_job, run_strategy, start_pipelines, job_strategy,
}
use dms_api.Pipeline.Run.Callbacks.{count_final, fails, IsHandler}
use dms_api.Pipeline.Run.Callbacks.Runs.{Ran, outcome_of, start_one-Ran}

abbrev pub is_true : Option Bool → Bool
is_true none = false
is_true (some b) = b

received : (b closed : Bool) → receive (chan (some b) closed) ≡ some b
unfolding receive
received b closed = refl

module _ (deliver : List Message → Message → Option Error) (now : State → ℕ) (has_db : Bool)
    (handle : Pipe → Handle) where
  -- The value that the first pipeline of a fallback reports.
  abbrev pub first_ok : State → Option Bool
  first_ok s =
      receive (start_one_upload_job deliver now has_db handle pipe_ffmpeg true s).1.job.info.result

  module _ (ffmpeg : IsHandler (handle pipe_ffmpeg))
      (external : IsHandler (handle pipe_external)) where
    abbrev run : Strategy → State → Finish × State
    run = run_strategy deliver now has_db handle

    after : Bool → Finish × State → Finish × State
    after b r = after_ffmpeg deliver now has_db handle (some b) r

    after_lem :
        (o : Outcome) (s : State) (r : Finish × State)
        → s.job.payload.callback_url ≢ ""
        → (ran : Ran deliver now has_db true o s r) (b : Bool) → ran.ok ≡ b
        → ((after b r).0 ≡ finished)
          × (count_final (after b r).1.sent
              ≡ count_final s.sent + (if fails o then 1 else if b then 1 else 2))
    unfolding after after_ffmpeg
    after_lem o s r n ran true e = (ran.done, ground (arith, ran.count, ran.failed))
    after_lem o s r n ran false e =
        let s1 = record (r.1) { job = record (r.1.job) { in_fallback_mode = true } } in
        let ran2 =
          start_one-Ran deliver now has_db handle pipe_external external false s1
            (λ q. n (sym ran.callback_url ∙ q)) in
        (ran2.done, ground (arith, ran.count, ran2.count))

    -- A job with a fallback and a callback URL comes to an end, where each handler concludes: it
    -- ends with a panic, an error, or a result that does not ask to continue, sends no final
    -- callback itself, and leaves alone the fields of the job that are the coordinator's. The
    -- caller gets one final callback, from whichever pipeline was the last to run; only where the
    -- first pipeline succeeded and its callback could not be delivered is a second one sent, since
    -- the fallback runs then too.
    pub fallback_callbacks :
        (s : State)
        → s.job.payload.callback_url ≢ ""
        → ((run fallback_external s).0 ≡ finished)
          × (count_final (run fallback_external s).1.sent
              ≡ count_final s.sent
                + (if fails (outcome_of now handle pipe_ffmpeg true s)
                    then 1
                    else if is_true (first_ok s)
                    then 1
                    else 2))
    unfolding run_strategy after
    fallback_callbacks s n =
        let r = start_one_upload_job deliver now has_db handle pipe_ffmpeg true s in
        let o = outcome_of now handle pipe_ffmpeg true s in
        let ran = start_one-Ran deliver now has_db handle pipe_ffmpeg ffmpeg true s n in
        let p : receive r.1.job.info.result ≡ some ran.ok =
          ap receive ran.result ∙ received ran.ok true in
        subst
          (λ (v : Option Bool).
            ((after_ffmpeg deliver now has_db handle v r).0 ≡ finished)
            × (count_final (after_ffmpeg deliver now has_db handle v r).1.sent
                ≡ count_final s.sent + (if fails o then 1 else if is_true v then 1 else 2)))
          (sym p) (after_lem o s r n ran ran.ok refl)

    module _ (delivers : (ms : List Message) (m : Message) → deliver ms m ≡ none) where
      first_ok-delivered :
          (s : State)
          → s.job.payload.callback_url ≢ ""
          → fails (outcome_of now handle pipe_ffmpeg true s) ≡ false
          → first_ok s ≡ some true
      first_ok-delivered s n f =
          let ran = start_one-Ran deliver now has_db handle pipe_ffmpeg ffmpeg true s n in
          ap receive ran.result ∙ received ran.ok true ∙ ap some (ran.passed delivers f)

      run_once :
          (st : Strategy) (s : State)
          → is_valid st ≡ true
          → s.job.payload.callback_url ≢ ""
          → ((run st s).0 ≡ finished) × (count_final (run st s).1.sent ≡ count_final s.sent + 1)
      unfolding run_strategy is_valid
      run_once external_dominance s v n =
          let ran = start_one-Ran deliver now has_db handle pipe_external external false s n in
          (ran.done, ran.count)
      run_once catalyst_ffmpeg_dominance s v n =
          let ran = start_one-Ran deliver now has_db handle pipe_ffmpeg ffmpeg false s n in
          (ran.done, ran.count)
      run_once fallback_external s v n =
          let (done, count) = fallback_callbacks s n in
          (
            done,
            count
                ∙ ap (λ k. count_final s.sent + k)
                    (elim (Bool-cases (fails (outcome_of now handle pipe_ffmpeg true s))) [
                      | inl f ↦ rw f
                      | inr f ↦ rw (f, first_ok-delivered s n f)
                    ]),
          )
      run_once (other name) s v n = cc

      -- If no delivery fails, the job has a callback URL, the strategy of the coordinator is a
      -- known one, and each handler concludes, the pipelines of a job end with exactly one final
      -- callback to its caller, whatever the strategy of the job and the input. A handler concludes
      -- if it ends with a panic, an error, or a result that does not ask to continue, sends no
      -- final callback itself, and leaves alone the fields of the job that are the coordinator's.
      pub one_final_callback :
          (parse_float : String → Option ℕ) (strategy : Strategy) (s : State)
          → is_valid strategy ≡ true
          → s.job.payload.callback_url ≢ ""
          → ((start_pipelines deliver now has_db handle parse_float strategy s).0 ≡ finished)
            × (count_final (start_pipelines deliver now has_db handle parse_float strategy s).1.sent
                ≡ count_final s.sent + 1)
      unfolding start_pipelines job_strategy
      one_final_callback parse_float strategy s v n =
          run_once _ _
            (chosen-is_valid parse_float (job_strategy strategy s) s.job.payload.input_file_info (
              if_both (λ x. is_valid x ≡ true) (is_valid s.job.payload.pipeline_strategy)
                s.job.payload.pipeline_strategy strategy (λ e. e) (λ _. v)))
            n
