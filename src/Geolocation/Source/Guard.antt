-- ===== src/Geolocation/Source/Guard.antt =====
-- What the answer to STREAM_SOURCE may be, and what the code may do on the way to it.
use dms_api.Prelude.{
  ℕ, zero, suc, ◌≤◌, ◌≡◌, ◌≢◌, refl, String, Bool, true, false, ◌&&◌, Option, none, some, List, [],
  ◌∷◌, ◌++◌, arith, str_eq, eq_iff, ltb, ◌==◌, if◌then◌else◌, inl, inr, ◌⊎◌, Bool-cases, All,
}
use mathlib.Core.Path.{subst}
use text.Mathlib.Text.{starts_with}
use dms_api.Errors.{Error}
use dms_api.Result.{Result, ok, err}
use dms_api.Geolocation.Members.{UrlTools}
use dms_api.Geolocation.Pull.{
  Node, Moment, Pulled, PullResult, Stream, StreamPull, Effect, StreamPullRateLimit, pull_from,
  no_pull, rate_limit, no_stream, stream_suspended, stream_deleted,
  no_stream_source_for_active_stream, pull_wrong_region, lock_pull, waited, looked_up,
  sent_playback, asked_lock, get_stream_pull, stream_source_retries, of_stream, in_region, locked,
  after_lock, pull_url, is_elsewhere, should_limit, stream_source_max_wrong_region_retries,
}
use dms_api.Geolocation.Source.{
  SourceReply, reply_to, try_source, handle_stream_source, resolve_replicated_stream,
  playback_id_for,
}

-- An effect with what must hold when it happens.
abbrev pub IsAllowed : Node → Effect → Type 0
IsAllowed n (looked_up id) = n.has_lapi ≡ true
IsAllowed n (sent_playback i id region) = (i ≡ 0) × (region ≢ "") × (region ≢ n.own_region)
IsAllowed n (asked_lock i s) =
    (s.suspended ≡ false)
    × (s.deleted ≡ false)
    × ((s.pull_region ≡ "") ⊎ (s.pull_region ≡ n.own_region) ⊎ (3 ≤ i))
IsAllowed n waited = Unit

-- A pull whose lock was given at a moment.
pub record IsLocked (n : Node) (t : Moment) (url : String) : Type 0 where
  pub stream : Stream
  pub pull : StreamPull
  pub answered : t.stream ≡ ok stream
  pub has_pull : stream.pull ≡ some pull
  pub given : t.lock ≡ none
  pub is_url : url ≡ pull_url n.query_escape pull

abbrev pub IsPullResult : Node → Moment → PullResult → Type 0
IsPullResult n t (pull_from url) = (url ≡ "") ⊎ IsLocked n t url
IsPullResult n t (no_pull e) = Unit

pub elsewhere_cases :
    (n : Node) (s : Stream) (retry : ℕ)
    → (is_elsewhere n s && ltb retry stream_source_max_wrong_region_retries) ≡ false
    → (s.pull_region ≡ "") ⊎ (s.pull_region ≡ n.own_region) ⊎ (3 ≤ retry)
unfolding is_elsewhere
elsewhere_cases n s retry h =
    ground (arith, eq_iff s.pull_region "", eq_iff n.own_region s.pull_region)

elsewhere_lem :
    (n : Node) (s : Stream) (retry : ℕ)
    → (is_elsewhere n s && ltb retry stream_source_max_wrong_region_retries) ≡ true
    → (s.pull_region ≢ "") × (s.pull_region ≢ n.own_region)
unfolding is_elsewhere
elsewhere_lem n s retry h =
    ground (arith, eq_iff s.pull_region "", eq_iff n.own_region s.pull_region)

after_lock-IsPullResult :
    (n : Node) (t : Moment) (s : Stream) (p : StreamPull) (lock : Option Error)
    → t.stream ≡ ok s
    → s.pull ≡ some p
    → t.lock ≡ lock
    → IsPullResult n t (after_lock n.query_escape p lock)
unfolding after_lock
after_lock-IsPullResult n t s p (some e) a h l = tt
after_lock-IsPullResult n t s p none a h l =
    inr (record { stream = s; pull = p; answered = a; has_pull = h; given = l; is_url = refl })

in_region_lem :
    (n : Node) (retry : ℕ) (t : Moment) (id : String) (s : Stream) (p : StreamPull)
    → t.stream ≡ ok s
    → s.pull ≡ some p
    → s.suspended ≡ false
    → s.deleted ≡ false
    → All (IsAllowed n) (in_region n retry t id s p).1
      × IsPullResult n t (in_region n retry t id s p).0
unfolding in_region locked
in_region_lem n retry t id s p a h u d =
    elim (Bool-cases (is_elsewhere n s && ltb retry stream_source_max_wrong_region_retries)) [
      | inl e ↦ rw e (elim (Bool-cases (retry == 0)) [
        | inl z ↦ rw z (
          ((ground (arith, z), (elsewhere_lem n s retry e).0, (elsewhere_lem n s retry e).1), tt),
          tt,
        )
        | inr z ↦ rw z (tt, tt)
      ])
      | inr e ↦ rw e (
        ((u, d, elsewhere_cases n s retry e), tt),
        after_lock-IsPullResult n t s p t.lock a h refl,
      )
    ]

abbrev IsGood : Node → Moment → Pulled → Type 0
IsGood n t p = All (IsAllowed n) p.effects × IsPullResult n t p.result

pulled_lem :
    (n : Node) (retry : ℕ) (t : Moment) (id : String) (l : StreamPullRateLimit) (s : Stream)
    (pull : Option StreamPull)
    → t.stream ≡ ok s
    → s.pull ≡ pull
    → s.suspended ≡ false
    → s.deleted ≡ false
    → IsGood n t (of_stream n retry t id l (ok s))
unfolding of_stream
pulled_lem n retry t id l s none a h u d = rw (u, d, h) (tt, no_pull_lem s.is_active)
  where
    no_pull_lem :
        (active : Bool)
        → IsPullResult n t
            (if active then no_pull no_stream_source_for_active_stream else pull_from "")
    no_pull_lem true = tt
    no_pull_lem false = inl refl
pulled_lem n retry t id l s (some p) a h u d = rw (u, d, h) (in_region_lem n retry t id s p a h u d)

of_stream_lem :
    (n : Node) (retry : ℕ) (t : Moment) (id : String) (l : StreamPullRateLimit)
    (found : Result Stream)
    → t.stream ≡ found
    → IsGood n t (of_stream n retry t id l found)
unfolding of_stream
of_stream_lem n retry t id l (err e) a = (tt, tt)
of_stream_lem n retry t id l (ok s) a = elim (Bool-cases s.suspended) [
  | inl u ↦ rw u (tt, tt)
  | inr u ↦ elim (Bool-cases s.deleted) [
    | inl d ↦ rw (u, d) (tt, tt)
    | inr d ↦ pulled_lem n retry t id l s s.pull a refl u d
  ]
]

get_stream_pull_lem :
    (n : Node) (retry : ℕ) (t : Moment) (id : String) (l : StreamPullRateLimit)
    → IsGood n t (get_stream_pull n retry t id l)
unfolding get_stream_pull
get_stream_pull_lem n retry t id l = elim (Bool-cases n.has_lapi) [
  | inr e ↦ simp e (tt, inl refl)
  | inl e ↦ simp e (elim (Bool-cases (should_limit t.now l id)) [
    | inl h ↦ rw h (tt, tt)
    | inr h ↦ rw h (
      (e, (of_stream_lem n retry t id l t.stream refl).0),
      (of_stream_lem n retry t id l t.stream refl).1,
    )
  ])
]

-- A reply of the loop: no source, the balancer's source at some moment, or a pull whose lock was
-- given.
abbrev pub IsJustified : UrlTools → Node → (ℕ → Moment) → String → Type 0
IsJustified tools n times url =
    (url ≡ "push://")
    ⊎ ((i : ℕ) × (dtsc_url : String) × ((times i).known_source ≡ ok dtsc_url)
        × (url ≡ resolve_replicated_stream tools (times i).members dtsc_url))
    ⊎ ((i : ℕ) × IsLocked n (times i) url)

some_inj : (x y : String) → some x ≡ some y → x ≡ y
some_inj x y h = cc

locked_lem :
    (n : Node) (t : Moment) (u url : String)
    → str_eq u "" ≡ false
    → (u ≡ "") ⊎ IsLocked n t u
    → u ≡ url
    → IsLocked n t url
locked_lem n t u url e (inl z) h = elim (absurd_lem e z) [ ]
  where
    absurd_lem : str_eq u "" ≡ false → u ≡ "" → ⊥
    absurd_lem e z = ground (arith, eq_iff u "")
locked_lem n t u url e (inr lk) h = subst (IsLocked n t) h lk

reply_lem :
    (tools : UrlTools) (n : Node) (times : ℕ → Moment) (i : ℕ) (r : PullResult) (url : String)
    → IsPullResult n (times i) r
    → reply_to r ≡ some url
    → IsJustified tools n times url
unfolding reply_to
reply_lem tools n times i (pull_from u) url g = elim (Bool-cases (str_eq u "")) [
  | inl e ↦ rw e (λ h. inl cc)
  | inr e ↦ rw e (λ h. inr (inr (i, locked_lem n (times i) u url e g (some_inj u url h))))
]
reply_lem tools n times i (no_pull rate_limit) url g = λ h. cc
reply_lem tools n times i (no_pull pull_wrong_region) url g = λ h. cc
reply_lem tools n times i (no_pull lock_pull) url g = λ h. cc
reply_lem tools n times i (no_pull (no_stream e)) url g = λ h. inl cc
reply_lem tools n times i (no_pull stream_suspended) url g = λ h. inl cc
reply_lem tools n times i (no_pull stream_deleted) url g = λ h. inl cc
reply_lem tools n times i (no_pull no_stream_source_for_active_stream) url g = λ h. inl cc

module _ (tools : UrlTools) (n : Node) (times : ℕ → Moment) where
  abbrev pub IsSafe : SourceReply → Type 0
  IsSafe r = IsJustified tools n times r.url × All (IsAllowed n) r.effects

  All-append :
      (xs ys : List Effect)
      → All (IsAllowed n) xs
      → All (IsAllowed n) ys
      → All (IsAllowed n) (xs ++ ys)
  All-append [] ys a b = b
  All-append (x ∷ xs) ys a b = (a.0, All-append xs ys a.1 b)

  -- The end of an attempt that found no source: a reply, or the rest of the loop.
  retry_lem :
      (i : ℕ) (p : Pulled) (reply : Option String) (rest : SourceReply)
      → IsGood n (times i) p
      → reply_to p.result ≡ reply
      → IsSafe rest
      → IsSafe (elim reply [
        | some url ↦ record { url = url; limits = p.limits; effects = p.effects }
        | none ↦ record rest { effects = p.effects ++ waited ∷ rest.effects }
      ])
  retry_lem i p (some url) rest g e r = (reply_lem tools n times i p.result url g.1 e, g.0)
  retry_lem i p none rest g e r = (r.0, All-append p.effects (waited ∷ rest.effects) g.0 (tt, r.1))

  try_source-IsSafe :
      (id : String) (left i : ℕ) (l : StreamPullRateLimit)
      → IsSafe (try_source tools n times id left i l)
  unfolding try_source
  try_source-IsSafe id zero i l = (inl refl, tt)
  try_source-IsSafe id (suc left) i l =
      source_lem (times i).known_source refl (try_source-IsSafe id left (suc i) pulled.limits)
    where
      pulled : Pulled
      pulled = get_stream_pull n i (times i) id l

      source_lem :
          (source : Result String)
          → (times i).known_source ≡ source
          → IsSafe (try_source tools n times id left (suc i) pulled.limits)
          → IsSafe (try_source tools n times id (suc left) i l)
      source_lem (ok dtsc_url) e rest = rw (try_source, e) (inr (inl (i, dtsc_url, e, refl)), tt)
      source_lem (err x) e rest =
          rw (try_source, e)
            (retry_lem i pulled (reply_to pulled.result)
              (try_source tools n times id left (suc i) pulled.limits)
              (get_stream_pull_lem n i (times i) id l) refl rest)

  -- The answer to STREAM_SOURCE for a stream that is not a VOD source: it is push://, or the
  -- resolved URL of a source that the balancer knew at some attempt, or the pull URL of a stream
  -- whose lock the API gave at some attempt. And of what happens on the way: the API is called only
  -- if there is a client; a lock is asked only for a stream that is neither suspended nor deleted
  -- and that is to be pulled in the region of the node or in no particular one, unless three
  -- attempts have been made; a playback request is sent to another region only, and at the first
  -- attempt only.
  pub handle_stream_source-IsSafe :
      (stream_name : String) (l : StreamPullRateLimit)
      → starts_with stream_name "catalyst_vod_" ≡ false
      → starts_with stream_name "tr_src_" ≡ false
      → IsSafe (handle_stream_source tools n times stream_name l)
  unfolding handle_stream_source
  handle_stream_source-IsSafe stream_name l a b =
      rw (a, b) (try_source-IsSafe (playback_id_for stream_name) stream_source_retries 0 l)
