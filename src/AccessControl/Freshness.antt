-- ===== src/AccessControl/Freshness.antt =====
-- handlers/accesscontrol/access-control.go: how long a decision stands, and what changes it.
use dms_api.Prelude.{
  ℕ, ◌≤◌, ◌<◌, ◌≡◌, refl, ap, ◌∙◌, String, Bool, true, false, ◌&&◌, Option, none, some, arith,
  str_eq, eq_iff, eq_refl, if◌then◌else◌, inl, inr, Bool-cases,
}
use dms_api.Prelude.Dict
use dms_api.Prelude.Dict.{Dict, get-put}
use dms_api.Errors.{Error}
use dms_api.Result.{Result, ok, err}
use dms_api.AccessControl.Gate.{GateConfig}
use dms_api.AccessControl.Store.{
  Store, Entry, Info, decided, failed, get_info, after_fetch, cache_answer, entry_at, is_expired,
  inner, read_entry, add_seconds,
}

-- The decision that a read of the store would give.
abbrev pub cached : String → String → Store → Info
cached id k s = read_entry (entry_at id k s)

inner-put :
    (id id' : String) (es : Dict Entry) (d : Dict (Dict Entry))
    → inner id' (Dict.put id es d) ≡ (if str_eq id id' then es else inner id' d)
unfolding inner
inner-put id id' es d = elim (Bool-cases (str_eq id id')) [
  | inl e ↦ rw (inner, get-put id id' es d, e) refl
  | inr e ↦ rw (inner, get-put id id' es d, e) refl
]

get-inner-put :
    (id k id' k' : String) (v : Entry) (d : Dict (Dict Entry))
    → Dict.get k' (inner id' (Dict.put id (Dict.put k v (inner id d)) d))
      ≡ (if str_eq id id' && str_eq k k' then some v else Dict.get k' (inner id' d))
get-inner-put id k id' k' v d = elim (Bool-cases (str_eq id id')) [
  | inl e ↦
      ap (Dict.get k') (inner-put id id' (Dict.put k v (inner id d)) d ∙ rw e refl)
      ∙ get-put k k' v (inner id d)
      ∙ rw ((eq_iff id id').0 e) (rw (eq_refl id') refl)
  | inr e ↦ ap (Dict.get k') (inner-put id id' (Dict.put k v (inner id d)) d) ∙ rw e refl
]

abbrev entry_of : ℕ → Bool → GateConfig → Entry
entry_of now allow config = record {
  stale = add_seconds now config.stale_while_revalidate;
  max_age = add_seconds now config.max_age;
  allow = allow;
}

-- A fetched answer is written under its key and nowhere else.
pub entry_at-cache_answer :
    (now : ℕ) (id k id' k' : String) (allow : Bool) (config : GateConfig) (s : Store)
    → entry_at id' k' (cache_answer now id k (ok (allow, config)) s).1 ≡ (
        if str_eq id id' && str_eq k k'
        then some (entry_of now allow config)
        else entry_at id' k' s)
unfolding entry_at cache_answer inner
entry_at-cache_answer now id k id' k' allow config s =
    get-inner-put id k id' k' (entry_of now allow config) s.cache

-- When the gate fails, a request whose entry is missing or past its staleness time fails with the
-- gate's error, any other gets the cached decision, and the store stays as it is. No other
-- goroutine changes the store between the two reads.
pub get_info-unchanged :
    (now : ℕ) (id k : String) (e : Error) (s : Store)
    → get_info now id k (err e) (λ t. t) s
      ≡ ((if is_expired now (entry_at id k s) then failed e else cached id k s), s)
unfolding get_info cache_answer after_fetch
get_info-unchanged now id k e s = elim (Bool-cases (is_expired now (entry_at id k s))) [
  | inl x ↦ rw x refl
  | inr x ↦ rw x refl
]

not_expired : (now : ℕ) (e : Entry) → now ≤ e.stale → is_expired now (some e) ≡ false
unfolding is_expired
not_expired now e h = ground arith

get_info-fresh :
    (now : ℕ) (id k : String) (e : Entry) (answer : Result (Bool × GateConfig)) (s : Store)
    → entry_at id k s ≡ some e
    → now ≤ e.stale
    → get_info now id k answer (λ t. t) s ≡ (decided e.allow, s)
unfolding get_info after_fetch read_entry
get_info-fresh now id k e answer s h l =
    rw (ap (is_expired now) h ∙ not_expired now e l, get_info) (ap (λ x. (read_entry x, s)) h)

-- There is no entry, or its staleness time is past.
abbrev pub IsOverdue : ℕ → Option Entry → Type 0
IsOverdue now none = Unit
IsOverdue now (some e) = e.stale < now

overdue : (now : ℕ) (e : Option Entry) → IsOverdue now e → is_expired now e ≡ true
unfolding is_expired
overdue now none h = refl
overdue now (some e) h = ground arith

-- The first request for an entry that is missing or past its staleness time is answered as the gate
-- says; and until the staleness time that the gate gave, every later request for the same key gets
-- that answer from the cache, whatever the gate would now say, and leaves the store as it is. No
-- other goroutine changes the store in between.
pub fetched_decision :
    (now now' : ℕ) (id k : String) (allow : Bool) (config : GateConfig)
    (answer : Result (Bool × GateConfig)) (s : Store)
    → IsOverdue now (entry_at id k s)
    → now' ≤ add_seconds now config.stale_while_revalidate
    → (get_info now id k (ok (allow, config)) (λ t. t) s
        ≡ (decided allow, (cache_answer now id k (ok (allow, config)) s).1))
      × (get_info now' id k answer (λ t. t) (cache_answer now id k (ok (allow, config)) s).1
          ≡ (decided allow, (cache_answer now id k (ok (allow, config)) s).1))
unfolding get_info after_fetch read_entry
fetched_decision now now' id k allow config answer s h l = (
  rw (overdue now (entry_at id k s) h, get_info)
      (ap (λ x. (read_entry x, (cache_answer now id k (ok (allow, config)) s).1)) here),
  get_info-fresh now' id k (entry_of now allow config) answer _ here l,
)
  where
    here :
        entry_at id k (cache_answer now id k (ok (allow, config)) s).1
        ≡ some (entry_of now allow config)
    here =
        entry_at-cache_answer now id k id k allow config s ∙ rw (eq_refl id) (rw (eq_refl k) refl)
