-- ===== src/Cache.antt =====
-- cache/cache.go: the generic cache of jobs. A method that writes returns the new cache. The mutex
-- makes each method one atomic step, so the methods are plain functions.
pub mod Laws
use dms_api.Prelude.{String, List, [], none, some, map}
use dms_api.Prelude.Dict
use dms_api.Prelude.Dict.{Dict}

pub record Cache {ℓ} (T : Type ℓ) : Type ℓ where
  pub cache : Dict T

module _ {ℓ} {T : Type ℓ} where
  unfoldable pub new : Cache T
  new = record { cache = [] }

  unfoldable pub remove : String → Cache T → Cache T
  remove stream_name c = record { cache = Dict.delete stream_name c.cache }

  -- A missing key reads as the zero value of `T`.
  unfoldable pub get : T → String → Cache T → T
  get zero_value stream_name c = elim (Dict.get stream_name c.cache) [
    | some info ↦ info
    | none ↦ zero_value
  ]

  unfoldable pub get_jobs : Cache T → List T
  get_jobs c = map (λ e. e.1) c.cache

  unfoldable pub get_keys : Cache T → List String
  get_keys c = map (λ e. e.0) c.cache

  unfoldable pub store : String → T → Cache T → Cache T
  store stream_name value c = record { cache = Dict.put stream_name value c.cache }
