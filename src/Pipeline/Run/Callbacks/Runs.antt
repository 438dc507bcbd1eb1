-- ===== src/Pipeline/Run/Callbacks/Runs.antt =====
-- A run of one pipeline, up to its end.
use dms_api.Prelude.{
  ℕ, ◌+◌, ◌≡◌, ◌≢◌, refl, sym, ap, ◌∙◌, String, Bool, true, false, not, ◌&&◌, Option, none, some,
  List, [], ◌∷◌, arith, if◌then◌else◌,
}
use mathlib.Core.Path.{subst}
use dms_api.Errors.{Error}
use dms_api.Callback.Status.{Message, new_completed}
use dms_api.Pipeline.Job.{
  UploadJobResult, HandlerOutput, Outcome, returns, panics, Pipe, chan, State, Handle,
}
use dms_api.Pipeline.Coordinator.{
  recovered, Finish, finished, is_none, final_message, with_state, with_result,
}
use dms_api.Pipeline.Run.{conclude, finish_job, settle, run_handler, ready, start_one_upload_job}
use dms_api.Pipeline.Run.Finishing.{succeeds, finish_job_lem, finish_job-eq}
use dms_api.Pipeline.Run.Callbacks.{
  count_final, count_final-append, concludes, fails, IsHandler, final_message-count, ready_facts,
}

-- How the handler of a pipeline ends when the pipeline is started at a state.
abbrev pub outcome_of : (State → ℕ) → (Pipe → Handle) → Pipe → Bool → State → Outcome
outcome_of now handle pipe hf s = (handle pipe (ready now pipe hf s)).0

module _ (deliver : List Message → Message → Option Error) (now : State → ℕ) (has_db : Bool) where
  -- A concluding outcome is settled by finishing the job with a message.
  settle_lem :
      (o : Outcome) (s : State)
      → concludes o ≡ true
      → (tsm : Message) × (st : String) × (final_message
            (now s)
            s.job
            (recovered o).0
            (recovered o).1
          ≡ some (tsm, st))
        × (settle deliver now has_db (recovered o) s
            ≡ finish_job deliver now has_db (recovered o).0 (recovered o).1 s)
  unfolding concludes recovered settle final_message
  settle_lem (panics rec) s h = (_, _, refl, refl)
  settle_lem (returns out (some e)) s h = (_, _, refl, refl)
  settle_lem (returns none none) s h = cc
  settle_lem (returns (some out) none) s h = with_output out.result refl
    where
      with_output :
          (r : Option UploadJobResult)
          → out.result ≡ r
          → (tsm : Message) × (st : String) × (final_message (now s) s.job (some out) none
              ≡ some (tsm, st))
            × (settle deliver now has_db (some out, none) s
                ≡ finish_job deliver now has_db (some out) none s)
      with_output none q = absurd (ground arith)
      with_output (some r) q = (
        new_completed (now s) s.job.payload.callback_url s.job.payload.request_id r.input_video
            r.outputs,
        "completed",
        rw (q, final_message),
        ground arith,
      )

  finish_job-callback_url :
      (out : Option HandlerOutput) (err : Option Error) (s : State) (tsm : Message) (st : String)
      → final_message (now s) s.job out err ≡ some (tsm, st)
      → (finish_job deliver now has_db out err s).1.job.payload.callback_url
        ≡ s.job.payload.callback_url
  unfolding conclude with_state with_result
  finish_job-callback_url out err s tsm st m =
      ap (λ (r : Finish × State). r.1.job.payload.callback_url)
        (finish_job-eq deliver now has_db out err s tsm st m)

  -- What one run of a pipeline leaves: it is finished, its caller gets a truth value, which is
  -- false after a failure, and the final callbacks sent are counted.
  pub record Ran (hf : Bool) (o : Outcome) (s : State) (r : Finish × State) : Type 0 where
    pub done : r.0 ≡ finished
    pub ok : Bool
    pub result : r.1.job.info.result ≡ chan (some ok) true
    pub failed : fails o ≡ true → ok ≡ false
    pub passed :
        ((ms : List Message) (m : Message) → deliver ms m ≡ none) → fails o ≡ false → ok ≡ true
    pub count : count_final r.1.sent ≡ count_final s.sent + (if hf && fails o then 0 else 1)
    pub callback_url : r.1.job.payload.callback_url ≡ s.job.payload.callback_url

  finish-Ran :
      (o : Outcome) (s : State) (hf : Bool)
      → concludes o ≡ true
      → s.job.info.result ≡ chan none false
      → s.job.info.has_fallback ≡ hf
      → s.job.payload.callback_url ≢ ""
      → Ran hf o s (settle deliver now has_db (recovered o) s)
  unfolding fails
  finish-Ran o s hf c h f n =
      let (tsm, st, m, e) = settle_lem o s c in
      let out = (recovered o).0 in
      let err = (recovered o).1 in
      let (fin, res, _, sent, _) = finish_job_lem deliver now has_db out err s tsm st h m in
      subst (Ran hf o s) (sym e) (record {
        done = fin;
        ok = succeeds deliver err s tsm;
        result = res;
        failed = λ q. ground arith;
        passed = λ d q. ground (arith, d s.sent tsm);
        count =
            ap count_final sent
            ∙ count_final-append s.sent (tsm ∷ [])
            ∙ ap (λ k. count_final s.sent + k)
                (final_message-count (now s) s.job out err n tsm st m
                  ∙ ap (λ b. if b && not (is_none err) then 0 else 1) f);
        callback_url = finish_job-callback_url out err s tsm st m;
      })

  module _ (handle : Pipe → Handle) (pipe : Pipe) (is_handler : IsHandler (handle pipe)) where
    -- Starting a pipeline whose handler keeps the coordinator's conditions finishes the job, with
    -- one final callback, or none if the handler failed and a fallback follows.
    pub start_one-Ran :
        (hf : Bool) (s : State)
        → s.job.payload.callback_url ≢ ""
        → Ran hf
            (outcome_of now handle pipe hf s)
            s
            (start_one_upload_job deliver now has_db handle pipe hf s)
    unfolding start_one_upload_job run_handler
    start_one-Ran hf s n =
        let s2 = ready now pipe hf s in
        let (sent, res, fb, url) = ready_facts now pipe hf s in
        let url' = is_handler.callback_url s2 ∙ url in
        let ran =
          finish-Ran (outcome_of now handle pipe hf s) (handle pipe s2).1 hf (is_handler.ends s2)
            (is_handler.result s2 ∙ res) (is_handler.has_fallback s2 ∙ fb)
            (λ e. n (sym url' ∙ e)) in
        record {
          done = ran.done;
          ok = ran.ok;
          result = ran.result;
          failed = ran.failed;
          passed = ran.passed;
          count =
              ran.count
              ∙ ap (λ k. k + (if hf && fails (outcome_of now handle pipe hf s) then 0 else 1))
                  (is_handler.quiet s2 ∙ sent);
          callback_url = ran.callback_url ∙ url';
        }
