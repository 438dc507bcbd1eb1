-- ===== src/Pipeline/Upload/Failure.antt =====
-- A job whose source cannot be fetched.
use dms_api.Prelude.{
  false, [], ◌∷◌, ◌++◌, if◌then◌else◌, ℕ, ◌≡◌, refl, sym, ap, ◌∙◌, String, Bool, Option, none, some,
  List,
}
use dms_api.Cache
use dms_api.Cache.{Cache}
use dms_api.Cache.Laws.{count_key}
use dms_api.Errors.{Error, message, is_unretriable}
use dms_api.Result.{err}
use dms_api.Callback.Status.{Message, failed, new_error, new_progress}
use dms_api.Pipeline.Strategy.{Strategy}
use dms_api.Pipeline.Job.{nil_channel, UploadJobPayload, Pipe, State, Handle}
use dms_api.Pipeline.Coordinator.{Finish, blocked}
use dms_api.Pipeline.Run.{report_progress, store_job, finish_job}
use dms_api.Pipeline.Run.Finishing.{finish_job-blocked}
use dms_api.Pipeline.Upload.{
  Sources, fetch_source, new_job, after_fetch, start_upload_job, stored, segmenting_stream_name,
}

-- The caller of a job is told of its error.
abbrev pub IsReport : UploadJobPayload → Error → Message → Type 0
IsReport p e m =
    (m.url ≡ p.callback_url)
    × (m.request_id ≡ p.request_id)
    × (m.status ≡ failed)
    × (m.error ≡ message e)
    × (m.unretriable ≡ is_unretriable e)

-- A job that waits for its source: it has no result channel, and no fallback.
stored_facts :
    (now : State → ℕ) (address : ℕ) (region : String) (p : UploadJobPayload) (s : State)
    → let s' = stored now address region p s in
      (s'.job.info.result ≡ nil_channel)
      × (s'.job.info.has_fallback ≡ false)
      × (s'.job.payload ≡ p)
      × ((first : Message) × (s'.sent ≡ s.sent ++ first ∷ []) × (first.url ≡ p.callback_url))
      × (s'.job.stream_name ≡ segmenting_stream_name p.request_id)
unfolding stored new_job store_job report_progress new_progress
stored_facts now address region p s = (refl, refl, refl, (_, refl, refl), refl)

report :
    (time : ℕ) (fallback : Bool) (p q : UploadJobPayload) (e : Error)
    → fallback ≡ false
    → q ≡ p
    → IsReport p e (
        new_error time
          (if fallback then "" else q.callback_url)
          q.request_id
          (message e)
          (is_unretriable e))
unfolding new_error
report time fallback p q e f h = rw (f, h) (refl, refl, refl, refl, refl)

module _ (deliver : List Message → Message → Option Error) (now : State → ℕ) (has_db : Bool)
    (handle : Pipe → Handle) (parse_float : String → Option ℕ) (strategy : Strategy) (src : Sources)
    (has_c2pa : Bool) (address : ℕ) (region : String) (p : UploadJobPayload) (s : State) where
  abbrev waiting : State
  waiting = stored now address region p s

  abbrev started : Finish × State
  started =
      start_upload_job deliver now has_db handle parse_float strategy src has_c2pa address region p
        s

  -- If the source of a job cannot be fetched, for whatever error, the messages sent are a first one
  -- and one with this error, both to the callback URL of the job, and the job leaves the cache, but
  -- the goroutine of the job waits for ever on the result channel, which is made only when a
  -- pipeline starts.
  pub fetch_failure-blocked :
      (e : Error)
      → fetch_source src has_c2pa (now waiting) waiting.job ≡ err e
      → (first : Message) × (m : Message) × (started.0 ≡ blocked)
        × (started.1.sent ≡ (s.sent ++ first ∷ []) ++ m ∷ [])
        × (first.url ≡ p.callback_url)
        × IsReport p e m
        × (count_key (segmenting_stream_name p.request_id) (Cache.get_keys started.1.jobs) ≡ 0)
  unfolding start_upload_job after_fetch
  fetch_failure-blocked e h =
      let (channel, fallback, payload, (first, before, told), name) =
        stored_facts now address region p s in
      let (fin, sent, keys) = finish_job-blocked deliver now has_db none e waiting channel in
      let final =
        new_error (now waiting)
          (if waiting.job.info.has_fallback then "" else waiting.job.payload.callback_url)
          waiting.job.payload.request_id (message e) (is_unretriable e) in
      let r : started ≡ finish_job deliver now has_db none (some e) waiting =
        ap (λ x. after_fetch deliver now has_db handle parse_float strategy src has_c2pa x waiting)
          h in
      (
        first,
        final,
        ap (λ x. x.0) r ∙ fin,
        ap (λ x. x.1.sent) r ∙ sent ∙ ap (λ l. l ++ final ∷ []) before,
        told,
        report (now waiting) waiting.job.info.has_fallback p waiting.job.payload e fallback payload,
        ap (λ x. count_key (segmenting_stream_name p.request_id) (Cache.get_keys x.1.jobs)) r
            ∙ ap
                (λ k.
                  count_key k
                    (Cache.get_keys (finish_job deliver now has_db none (some e) waiting).1.jobs))
                (sym name)
            ∙ keys,
      )
