-- ===== src/AccessControl/Cleared.antt =====
-- handlers/accesscontrol/access-control.go: what the code makes of a request before it asks the
-- gate.
use dms_api.Prelude.{
  ℕ, ◌≡◌, refl, sym, String, concat, true, false, not, List, [], ◌∷◌, str_eq, if◌then◌else◌, inl,
  inr, ◌⊎◌, Bool-cases, if_both,
}
use mathlib.Core.Path.{subst}
use dms_api.Errors.{plain}
use dms_api.Result.{Result, ok, err}
use dms_api.AccessControl.Request.{
  Env, Payload, Request, Prepared, refused, ready, prepare, access_key_of, jwt_of, extract_key,
  is_in, Claims, decode_jwt, with_key, with_pub, with_jwt, headers_of, new_request, key_of,
}

-- The JWT is not blocked, and it decodes to claims for this playback id.
abbrev pub IsForStream : Env → ℕ → List String → String → String → Type 0
IsForStream env now blocked playback_id jwt =
    (is_in jwt blocked ≡ false)
    × (c : Claims) × (decode_jwt env now jwt ≡ ok c)
    × (str_eq playback_id c.subject ≡ true)

-- The request carries an access key, or a JWT for the stream, or neither.
abbrev pub IsCleared : Env → ℕ → List String → String → Payload → Type 0
IsCleared env now blocked playback_id p =
    (str_eq (access_key_of p) "" ≡ false)
    ⊎ ((str_eq (jwt_of p) "" ≡ true) ⊎ IsForStream env now blocked playback_id (jwt_of p))

abbrev pub asked_headers : String → Payload → List (String × String)
asked_headers id p =
    ("User-Agent", p.user_agent)
    ∷ ("Referer", p.referer)
    ∷ ("X-Forwarded-Proto", p.forwarded_proto)
    ∷ ("X-Tlive-Spanid", p.session_id)
    ∷ ("Tx-Stream-Id", id)
    ∷ ("Host", p.host)
    ∷ ("Origin", p.origin)
    ∷ []

-- What the gate is asked about a viewer of a stream, with a type, a public key and an access key.
abbrev pub asked : String → Payload → String → String → String → Request
asked id p type pub_key access_key = record {
  type = type;
  pub_key = pub_key;
  access_key = access_key;
  stream = id;
  webhook_payload = record {
    user_ip = p.origin_ip;
    play_domain = p.url.host;
    play_url = p.url.text;
    headers = asked_headers id p;
  };
  webhook_headers = asked_headers id p;
}

-- The cache key is a prefix before the hash of the request.
abbrev pub IsHashed : Env → String → Request → String → Type 0
IsHashed env prefix r k = (h : String) × (env.hash r ≡ ok h) × (k ≡ concat prefix h)

-- The cache key and the request of a viewer: with the access key, else with the public key of the
-- JWT, else with neither and under the empty key.
abbrev pub IsKeyed : Env → ℕ → String → Payload → String → Request → Type 0
IsKeyed env now id p k r =
    ((str_eq (access_key_of p) "" ≡ false)
      × (r ≡ asked id p "accessKey" "" (access_key_of p))
      × IsHashed env "accessKey_" (asked id p "accessKey" "" (access_key_of p)) k)
    ⊎ (((str_eq (access_key_of p) "" ≡ true)
          × (str_eq (jwt_of p) "" ≡ false)
          × ((c : Claims) × (decode_jwt env now (jwt_of p) ≡ ok c)
              × (r ≡ asked id p "jwt" c.public_key "")
              × IsHashed env "jwtPubKey_" (asked id p "jwt" c.public_key "") k))
        ⊎ ((str_eq (access_key_of p) "" ≡ true)
            × (str_eq (jwt_of p) "" ≡ true)
            × (r ≡ asked id p "accessKey" "" "")
            × (k ≡ "")))

unfoldable pub stream_of : String → Prepared → String
stream_of id (ready k r) = r.stream
stream_of id _ = id

stream_of-with_key :
    (id prefix : String) (r : Request) (h : Result String)
    → r.stream ≡ id
    → stream_of id (with_key prefix r h) ≡ id
unfolding with_key stream_of
stream_of-with_key id prefix r (err e) p = refl
stream_of-with_key id prefix r (ok h) p = p

ready_inj : {k l : String} {r t : Request} → ready l t ≡ ready k r → (r ≡ t) × (k ≡ l)
ready_inj q = ((let e : _ ≡ _ = cc in e), (let e : _ ≡ _ = cc in e))

key_of-Subject :
    (id key : String) (r : Result Claims)
    → key_of id r ≡ ok key
    → (c : Claims) × (r ≡ ok c) × (str_eq id c.subject ≡ true)
unfolding key_of
key_of-Subject id key (err e) p = cc
key_of-Subject id key (ok c) p = elim (Bool-cases (str_eq id c.subject)) [
  | inl e ↦ (c, refl, e)
  | inr e ↦ absurd (mismatch e p)
]
  where
    mismatch :
        str_eq id c.subject ≡ false
        → (if str_eq id c.subject then ok c.public_key else err (plain "playbackId mismatch"))
          ≡ ok key
        → ⊥
    mismatch e = rw e (λ q. cc)

module _ (env : Env) (now : ℕ) (blocked : List String) (id : String) where
  stream_of-with_pub :
      (r : Request) (k : Result String) → r.stream ≡ id → stream_of id (with_pub env r k) ≡ id
  unfolding with_pub stream_of
  stream_of-with_pub r (err e) p = refl
  stream_of-with_pub r (ok key) p =
      let r' = record r { pub_key = key; type = "jwt" } in
      stream_of-with_key id "jwtPubKey_" r' (env.hash r') p

  pub stream_of-prepare : (p : Payload) → stream_of id (prepare env now blocked id p) ≡ id
  unfolding prepare new_request with_jwt stream_of
  stream_of-prepare p =
      if_both (λ x. stream_of id x ≡ id) (not (str_eq (access_key_of p) "")) _ _
        (λ _. stream_of-with_key id "accessKey_" _ _ refl)
        (λ _.
          if_both (λ x. stream_of id x ≡ id) (not (str_eq (jwt_of p) "")) _ _
            (λ _.
              if_both (λ x. stream_of id x ≡ id) (is_in (jwt_of p) blocked) _ _ (λ _. refl)
                (λ _. stream_of-with_pub (new_request id p) _ refl))
            (λ _. refl))

  with_pub-Subject :
      (r r' : Request) (jwt k : String) (x : Result String)
      → extract_key env now jwt id ≡ x
      → with_pub env r x ≡ ready k r'
      → (c : Claims) × (decode_jwt env now jwt ≡ ok c) × (str_eq id c.subject ≡ true)
  unfolding with_pub extract_key
  with_pub-Subject r r' jwt k (err e) e' q = absurd ((let f : refused ≡ ready k r' = q in cc))
  with_pub-Subject r r' jwt k (ok key) e q = key_of-Subject id key (decode_jwt env now jwt) e

  -- A request that is ready for the gate is for the stream it names, and cleared.
  pub prepare-IsCleared :
      (p : Payload) (k : String) (r : Request)
      → prepare env now blocked id p ≡ ready k r
      → IsCleared env now blocked id p
  unfolding prepare new_request with_jwt
  prepare-IsCleared p k r = elim (Bool-cases (str_eq (access_key_of p) "")) [
    | inr e ↦ λ _. inl e
    | inl e ↦ elim (Bool-cases (str_eq (jwt_of p) "")) [
      | inl j ↦ λ _. inr (inl j)
      | inr j ↦ elim (Bool-cases (is_in (jwt_of p) blocked)) [
        | inl b ↦ rw (e, j, b, prepare) (λ q. cc)
        | inr b ↦
            rw (e, j, b, prepare)
              (λ q.
                let v = with_pub-Subject (new_request id p) r (jwt_of p) k _ refl q in
                inr (inr (refl, v.0, v.1, v.2)))
      ]
    ]
  ]

  with_key-IsHashed :
      (prefix : String) (r0 r : Request) (k : String) (x : Result String)
      → env.hash r0 ≡ x
      → with_key prefix r0 x ≡ ready k r
      → (r ≡ r0) × IsHashed env prefix r0 k
  unfolding with_key
  with_key-IsHashed prefix r0 r k (err e) h = λ q. cc
  with_key-IsHashed prefix r0 r k (ok y) h =
      λ q. ((let e : r0 ≡ r = cc in sym e), (y, h, (let e : concat prefix y ≡ k = cc in sym e)))

  key_of-public :
      (key : String) (r : Result Claims)
      → key_of id r ≡ ok key
      → (c : Claims) × (r ≡ ok c) × (key ≡ c.public_key)
  unfolding key_of
  key_of-public key (err e) p = cc
  key_of-public key (ok c) p = elim (Bool-cases (str_eq id c.subject)) [
    | inl e ↦ (c, refl, same e p)
    | inr e ↦ absurd (differs e p)
  ]
    where
      same :
          str_eq id c.subject ≡ true
          → (if str_eq id c.subject then ok c.public_key else err (plain "playbackId mismatch"))
            ≡ ok key
          → key ≡ c.public_key
      same e = rw e (λ q. let w : c.public_key ≡ key = cc in sym w)

      differs :
          str_eq id c.subject ≡ false
          → (if str_eq id c.subject then ok c.public_key else err (plain "playbackId mismatch"))
            ≡ ok key
          → ⊥
      differs e = rw e (λ q. cc)

  with_pub-Keyed :
      (p : Payload) (r : Request) (jwt k : String) (x : Result String)
      → extract_key env now jwt id ≡ x
      → with_pub env (asked id p "accessKey" "" "") x ≡ ready k r
      → (c : Claims) × (decode_jwt env now jwt ≡ ok c)
        × (r ≡ asked id p "jwt" c.public_key "")
        × IsHashed env "jwtPubKey_" (asked id p "jwt" c.public_key "") k
  unfolding with_pub extract_key
  with_pub-Keyed p r jwt k (err e) e' q = absurd (let f : refused ≡ ready k r = q in cc)
  with_pub-Keyed p r jwt k (ok key) e q =
      let d = key_of-public key (decode_jwt env now jwt) e in
      let w =
        with_key-IsHashed "jwtPubKey_" (asked id p "jwt" key "") r k
          (env.hash (asked id p "jwt" key "")) refl q in
      let v =
        subst
          (λ t. (r ≡ asked id p "jwt" t "") × IsHashed env "jwtPubKey_" (asked id p "jwt" t "") k)
          d.2 w in
      (d.0, d.1, v.0, v.1)

  pub prepare-IsKeyed :
      (p : Payload) (k : String) (r : Request)
      → prepare env now blocked id p ≡ ready k r
      → IsKeyed env now id p k r
  unfolding prepare new_request headers_of with_jwt
  prepare-IsKeyed p k r = elim (Bool-cases (str_eq (access_key_of p) "")) [
    | inr e ↦
        rw (e, prepare)
          (λ q.
            let w =
              with_key-IsHashed "accessKey_" (asked id p "accessKey" "" (access_key_of p)) r k
                (env.hash (asked id p "accessKey" "" (access_key_of p))) refl q in
            inl (refl, w.0, w.1))
    | inl e ↦ elim (Bool-cases (str_eq (jwt_of p) "")) [
      | inl j ↦ rw (e, j, prepare) (λ q. let w = ready_inj q in inr (inr (refl, refl, w.0, w.1)))
      | inr j ↦ elim (Bool-cases (is_in (jwt_of p) blocked)) [
        | inl b ↦ rw (e, j, b, prepare) (λ q. cc)
        | inr b ↦
            rw (e, j, b, prepare)
              (λ q. inr (inl (refl, refl, with_pub-Keyed p r (jwt_of p) k _ refl q)))
      ]
    ]
  ]
