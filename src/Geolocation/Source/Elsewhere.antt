-- ===== src/Geolocation/Source/Elsewhere.antt =====
-- A stream that is to be pulled in another region.
use dms_api.Prelude.{
  ℕ, suc, ◌+◌, ◌≤◌, ◌≡◌, ◌≢◌, refl, ap, ◌∙◌, String, true, false, none, some, [], ◌∷◌, ◌++◌, arith,
  str_eq, eq_iff, eq_refl, ltb, ◌==◌, if◌then◌else◌,
}
use text.Mathlib.Text.{starts_with}
use dms_api.Prelude.Dict
use dms_api.Prelude.Dict.{Dict}
use dms_api.Errors.{Error}
use dms_api.Result.{ok, err}
use dms_api.Geolocation.Members.{UrlTools}
use dms_api.Geolocation.Pull.{
  Node, Moment, Pulled, Stream, StreamPull, StreamPullRateLimit, pull_from, no_pull,
  pull_wrong_region, waited, looked_up, sent_playback, asked_lock, get_stream_pull, of_stream,
  in_region, locked, after_lock, pull_url, is_elsewhere, should_limit, mark,
}
use dms_api.Geolocation.Source.{
  SourceReply, reply_to, try_source, handle_stream_source, playback_id_for,
}

not_empty : (u : String) → u ≢ "" → str_eq u "" ≡ false
not_empty u h = ground (arith, h, eq_iff u "")

should_limit-mark :
    (now later : ℕ) (l : StreamPullRateLimit) (id : String)
    → now + l.timeout ≤ later
    → should_limit later (mark now l id) id ≡ false
unfolding should_limit mark
should_limit-mark now later l id h =
    rw (should_limit, mark, Dict.get-put id id now l.pulls, eq_refl id) (ground (arith, h))

module _ (tools : UrlTools) (n : Node) (times : ℕ → Moment) (id : String) (s : Stream)
    (p : StreamPull) (lapi : n.has_lapi ≡ true) (live : s.suspended ≡ false)
    (kept : s.deleted ≡ false) (pulled : s.pull ≡ some p) (elsewhere : s.pull_region ≢ "")
    (foreign : n.own_region ≢ s.pull_region) where
  abbrev marked : ℕ → StreamPullRateLimit → StreamPullRateLimit
  marked i l = mark (times i).now l id

  is_elsewhere_lem : is_elsewhere n s ≡ true
  unfolding is_elsewhere
  is_elsewhere_lem =
      ground (arith, elsewhere, foreign, eq_iff s.pull_region "", eq_iff n.own_region s.pull_region)

  wrong_region :
      (i : ℕ) (l : StreamPullRateLimit)
      → (times i).stream ≡ ok s
      → should_limit (times i).now l id ≡ false
      → ltb i 3 ≡ true
      → get_stream_pull n i (times i) id l ≡ record {
        result = no_pull pull_wrong_region;
        limits = marked i l;
        effects = looked_up id ∷ (if i == 0 then sent_playback i id s.pull_region ∷ [] else []);
      }
  unfolding get_stream_pull of_stream in_region
  wrong_region i l a h e = simp (lapi, h, a, live, kept, pulled, is_elsewhere_lem, e) refl

  right_time :
      (i : ℕ) (l : StreamPullRateLimit)
      → (times i).stream ≡ ok s
      → (times i).lock ≡ none
      → should_limit (times i).now l id ≡ false
      → ltb i 3 ≡ false
      → get_stream_pull n i (times i) id l ≡ record {
        result = pull_from (pull_url n.query_escape p);
        limits = marked i l;
        effects = looked_up id ∷ asked_lock i s ∷ [];
      }
  unfolding get_stream_pull of_stream in_region locked after_lock
  right_time i l a k h e = simp (lapi, h, a, live, kept, pulled, is_elsewhere_lem, e, k) refl

  retry_eq :
      (left i : ℕ) (l : StreamPullRateLimit) (e : Error) (q : Pulled)
      → (times i).known_source ≡ err e
      → get_stream_pull n i (times i) id l ≡ q
      → reply_to q.result ≡ none
      → try_source tools n times id (suc left) i l
        ≡ record (try_source tools n times id left (suc i) q.limits) {
          effects =
              q.effects ++ waited ∷ (try_source tools n times id left (suc i) q.limits).effects;
        }
  unfolding try_source
  retry_eq left i l e q a g r = simp (try_source, a, g, r) refl

  answer_eq :
      (left i : ℕ) (l : StreamPullRateLimit) (e : Error) (q : Pulled) (url : String)
      → (times i).known_source ≡ err e
      → get_stream_pull n i (times i) id l ≡ q
      → reply_to q.result ≡ some url
      → try_source tools n times id (suc left) i l
        ≡ record { url = url; limits = q.limits; effects = q.effects }
  unfolding try_source
  answer_eq left i l e q url a g r = simp (try_source, a, g, r) refl

  module _ (l : StreamPullRateLimit) (streams : (i : ℕ) → (times i).stream ≡ ok s)
      (sources : (i : ℕ) → (e : Error) × ((times i).known_source ≡ err e))
      (clock : (i : ℕ) → (times i).now + l.timeout ≤ (times (suc i)).now) where
    refused :
        (left i : ℕ) (l' : StreamPullRateLimit)
        → should_limit (times i).now l' id ≡ false
        → ltb i 3 ≡ true
        → try_source tools n times id (suc left) i l'
          ≡ record (try_source tools n times id left (suc i) (marked i l')) {
            effects =
                (looked_up id ∷ (if i == 0 then sent_playback i id s.pull_region ∷ [] else []))
                ++ waited ∷ (try_source tools n times id left (suc i) (marked i l')).effects;
          }
    unfolding reply_to
    refused left i l' h e =
        retry_eq left i l' (sources i).0
          (record {
            result = no_pull pull_wrong_region;
            limits = marked i l';
            effects = looked_up id ∷ (if i == 0 then sent_playback i id s.pull_region ∷ [] else []);
          })
          (sources i).1 (wrong_region i l' (streams i) h e) refl

    given :
        (left i : ℕ) (l' : StreamPullRateLimit)
        → pull_url n.query_escape p ≢ ""
        → (times i).lock ≡ none
        → should_limit (times i).now l' id ≡ false
        → ltb i 3 ≡ false
        → try_source tools n times id (suc left) i l' ≡ record {
          url = pull_url n.query_escape p;
          limits = marked i l';
          effects = looked_up id ∷ asked_lock i s ∷ [];
        }
    unfolding reply_to
    given left i l' u k h e =
        answer_eq left i l' (sources i).0
          (record {
            result = pull_from (pull_url n.query_escape p);
            limits = marked i l';
            effects = looked_up id ∷ asked_lock i s ∷ [];
          })
          (pull_url n.query_escape p) (sources i).1 (right_time i l' (streams i) k h e)
          (rw (not_empty (pull_url n.query_escape p) u) refl)

    abbrev after : ℕ → SourceReply → SourceReply
    after i r = record r {
      effects =
          (looked_up id ∷ (if i == 0 then sent_playback i id s.pull_region ∷ [] else []))
          ++ waited ∷ r.effects;
    }

    handle_lem :
        (stream_name : String)
        → starts_with stream_name "catalyst_vod_" ≡ false
        → starts_with stream_name "tr_src_" ≡ false
        → playback_id_for stream_name ≡ id
        → handle_stream_source tools n times stream_name l ≡ try_source tools n times id 20 0 l
    unfolding handle_stream_source
    handle_lem stream_name v w named = rw (v, w) (ap (λ i. try_source tools n times i 20 0 l) named)

    -- A stream to be pulled in another region, whose source the balancer does not find, and whose
    -- lookups succeed: the first attempt sends a playback request to that region, and each of the
    -- first three attempts ends with a wait; the fourth asks for the lock and, where the API gives
    -- it, answers with the URL of the pull. So a node outside the region takes the pull over after
    -- three waits. The stream is not suspended or deleted and its pull has a URL, a wait lasts the
    -- timeout of the rate limit at least, and the stream is not limited at the first attempt.
    pub handle_stream_source-elsewhere :
        (stream_name : String)
        → starts_with stream_name "catalyst_vod_" ≡ false
        → starts_with stream_name "tr_src_" ≡ false
        → playback_id_for stream_name ≡ id
        → should_limit (times 0).now l id ≡ false
        → (times 3).lock ≡ none
        → pull_url n.query_escape p ≢ ""
        → ((handle_stream_source tools n times stream_name l).url ≡ pull_url n.query_escape p)
          × ((handle_stream_source tools n times stream_name l).effects
              ≡ looked_up id
                ∷ sent_playback 0 id s.pull_region
                ∷ waited
                ∷ looked_up id
                ∷ waited
                ∷ looked_up id
                ∷ waited
                ∷ looked_up id
                ∷ asked_lock 3 s
                ∷ [])
    unfolding mark
    handle_stream_source-elsewhere stream_name v w named h k u =
        let l1 = marked 0 l in
        let l2 = marked 1 l1 in
        let l3 = marked 2 l2 in
        let h1 = should_limit-mark (times 0).now (times 1).now l id (clock 0) in
        let h2 = should_limit-mark (times 1).now (times 2).now l1 id (clock 1) in
        let h3 = should_limit-mark (times 2).now (times 3).now l2 id (clock 2) in
        let whole =
          handle_lem stream_name v w named
          ∙ refused 19 0 l h refl
          ∙ ap (after 0) (
              refused 18 1 l1 h1 refl
              ∙ ap (after 1)
                  (refused 17 2 l2 h2 refl ∙ ap (after 2) (given 16 3 l3 u k h3 refl))) in
        (ap (λ (r : SourceReply). r.url) whole, ap (λ (r : SourceReply). r.effects) whole)
