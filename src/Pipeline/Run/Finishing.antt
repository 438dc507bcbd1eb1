-- ===== src/Pipeline/Run/Finishing.antt =====
-- What `finishJob` does, on every way to it.
use dms_api.Prelude.{
  ℕ, ◌≡◌, refl, String, Bool, true, false, ◌&&◌, Option, none, some, List, [], ◌∷◌, ◌++◌, arith,
  eq_iff, if◌then◌else◌,
}
use dms_api.Cache
use dms_api.Cache.{Cache}
use dms_api.Cache.Laws.{count_key, count-remove}
use dms_api.Errors.{Error, message, is_unretriable}
use dms_api.Callback.Status.{Message, new_error}
use dms_api.Pipeline.Job.{HandlerOutput, nil_channel, chan, State}
use dms_api.Pipeline.Coordinator.{
  finished, blocked, send_result, is_none, final_message, with_state, with_result,
}
use dms_api.Pipeline.Run.{conclude, finish_job}

-- Whether the job counts as a success: no error, and the final message was delivered.
abbrev pub succeeds :
    (List Message → Message → Option Error) → Option Error → State → Message → Bool
succeeds deliver err s tsm = is_none err && is_none (deliver s.sent tsm)

module _ (deliver : List Message → Message → Option Error) (now : State → ℕ) (has_db : Bool) where
  pub finish_job-eq :
      (out : Option HandlerOutput) (err : Option Error) (s : State) (tsm : Message) (st : String)
      → final_message (now s) s.job out err ≡ some (tsm, st)
      → finish_job deliver now has_db out err s ≡ conclude deliver now has_db tsm st out err s
  unfolding finish_job
  finish_job-eq out err s tsm st m = rw (m, finish_job)

  -- The state that a job's final message goes with.
  final_state :
      (out : Option HandlerOutput) (err : Option Error) (s : State) (tsm : Message) (st : String)
      → final_message (now s) s.job out err ≡ some (tsm, st)
      → st ≡ (if is_none err then "completed" else "failed")
  unfolding final_message is_none
  final_state out (some e) s tsm st m = ground arith
  final_state none none s tsm st m = cc
  final_state (some out) none s tsm st m = ground arith

  -- A finished job has reported one final message, is out of the cache of jobs, and is "completed"
  -- exactly if there was no error and the message was delivered; the same truth value goes to the
  -- waiting caller over the job's fresh result channel, which is then closed.
  pub finish_job_lem :
      (out : Option HandlerOutput) (err : Option Error) (s : State) (tsm : Message) (st : String)
      → s.job.info.result ≡ chan none false
      → final_message (now s) s.job out err ≡ some (tsm, st)
      → ((finish_job deliver now has_db out err s).0 ≡ finished)
        × ((finish_job deliver now has_db out err s).1.job.info.result
            ≡ chan (some (succeeds deliver err s tsm)) true)
        × ((finish_job deliver now has_db out err s).1.job.info.state
            ≡ (if succeeds deliver err s tsm then "completed" else "failed"))
        × ((finish_job deliver now has_db out err s).1.sent ≡ s.sent ++ tsm ∷ [])
        × (count_key s.job.stream_name
              (Cache.get_keys (finish_job deliver now has_db out err s).1.jobs)
            ≡ 0)
  unfolding conclude send_result with_state with_result
  finish_job_lem out err s tsm st h m = rw (finish_job-eq out err s tsm st m) (
      let e = final_state out err s tsm st m in
      (
        ground (arith, h),
        ground (arith, h),
        ground (arith, h, e),
        refl,
        ground (
          arith,
          count-remove s.job.stream_name s.job.stream_name s.jobs,
          eq_iff s.job.stream_name s.job.stream_name,
        ),
      ))

  -- While a job's result channel is nil, as it is before its first pipeline starts, finishing it
  -- with an error waits for ever, after the error message was sent and the job left the cache. So
  -- the goroutine and the job's lock are never given back.
  pub finish_job-blocked :
      (out : Option HandlerOutput) (e : Error) (s : State)
      → s.job.info.result ≡ nil_channel
      → ((finish_job deliver now has_db out (some e) s).0 ≡ blocked)
        × ((finish_job deliver now has_db out (some e) s).1.sent
            ≡ s.sent
              ++ new_error
                  (now s)
                  (if s.job.info.has_fallback then "" else s.job.payload.callback_url)
                  s.job.payload.request_id
                  (message e)
                  (is_unretriable e)
                ∷ [])
        × (count_key s.job.stream_name
              (Cache.get_keys (finish_job deliver now has_db out (some e) s).1.jobs)
            ≡ 0)
  unfolding finish_job final_message conclude send_result with_state with_result
  finish_job-blocked out e s h = (
    ground (arith, h),
    refl,
    ground (
      arith,
      count-remove s.job.stream_name s.job.stream_name s.jobs,
      eq_iff s.job.stream_name s.job.stream_name,
    ),
  )
