-- ===== src/Scenarios/Callbacks.antt =====
-- Errors, the cache of jobs, and the callback client at concrete inputs.
use dms_api.Prelude.{ℕ, ◌≡◌, refl, String, true, false, Option, none, some, List, [], ◌∷◌, arith}
use dms_api.Cache.{Cache}
use dms_api.Prelude.Dict
use dms_api.Prelude.Dict.{Dict}
use dms_api.Errors.{Error, foreign}
use dms_api.Callback.Ratio.{frac, leb_ratio, Between}
use dms_api.Callback.Status.{
  Message, preparing, transcoding, overall_completion_ratio, is_terminal, new_progress, new_error,
}
use dms_api.Callback.Status.Bands.{overall-Between}
use dms_api.Callback.Client.{Client, callback_step, is_timed_out, send_callbacks}
use dms_api.Callback.Client.Progress.{update_all, new_progress-IsReport, progress_monotone}

abbrev two_jobs : Cache ℕ
two_jobs = record { cache = ("a", 1) ∷ ("b", 5) ∷ [] }

abbrev permanent : Error → Error
permanent e = foreign "permanent" e

overall-Between_example : Between 4 9 (overall_completion_ratio transcoding (frac 3 2))
overall-Between_example = overall-Between transcoding (frac 3 2) (λ e. cc) (omega arith)

abbrev url : String
url = "http://studio"

abbrev half_way : Message
half_way = new_progress 10 url "job" transcoding (frac 1 2)

abbrev late : Message
late = new_progress 12 url "job" preparing (frac 9 10)

abbrev busy : Dict Message
busy = ("job", half_way) ∷ []

abbrev client : Client
client = record { latest = busy; posted = [] }

abbrev accepts : List Message → Message → Option Error
accepts ms m = none

abbrev the_end : Message
the_end = new_error 20 url "job" "boom" false

-- Thirty minutes after its last update a job is given up.
gives_up : (send_callbacks 2000000 client).latest ≡ []
unfolding send_callbacks callback_step is_timed_out new_progress Dict.delete
gives_up = refl

progress_monotone_example :
    (m : Message) × (Dict.get "job" (update_all (late ∷ []) busy) ≡ some m)
    × (leb_ratio half_way.completion_ratio m.completion_ratio ≡ true)
unfolding Dict.get is_terminal
progress_monotone_example =
    progress_monotone "job" half_way (late ∷ []) busy
      (new_progress-IsReport 10 url "job" transcoding (frac 1 2) refl (omega arith))
      (new_progress-IsReport 12 url "job" preparing (frac 9 10) refl (omega arith), tt) refl
