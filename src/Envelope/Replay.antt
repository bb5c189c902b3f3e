-- ===== src/Envelope/Replay.antt =====
-- Replay protection of `verify_flatbuffer_envelope_for_peer`.
use beemesh.Prelude.{
  Bytes, ℕ, ◌+◌, ◌≤◌, ◌≡◌, ◌≢◌, String, false, List, [], ◌∷◌, arith, Result, ok, err, ◌>>◌, str_eq,
  eq_iff, inl, inr, Bool-cases, unwrap_or, All,
}
use beemesh.Envelope.{
  EnvelopeTable, Primitives, EnvelopeError, NonceStore, VerifiedEnvelopeParts, replay_detected,
  invalid_signature, check_and_insert_nonce_for_peer, verify_flatbuffer_envelope_for_peer, opened,
  verified, canonical_of, check_opened,
}
use beemesh.Envelope.Nonces.{Remembers, check-Remembers, check-keeps-Remembers, Remembers-refused}

-- One envelope that arrives, with the clock and the peer that it is verified for.
pub record Arrival : Type 0 where
  pub now : ℕ
  pub bytes : Bytes
  pub peer_id : String

-- The only error of the nonce check at a nonce that is not empty is the replay.
check_refuses_replays :
    (window now : ℕ) (store : NonceStore) (nonce peer_id : String)
    (answer : Result VerifiedEnvelopeParts EnvelopeError)
    → nonce ≢ ""
    → ((check_and_insert_nonce_for_peer now store nonce window peer_id).1 >> answer)
      ≢ err replay_detected
    → (check_and_insert_nonce_for_peer now store nonce window peer_id).1 ≡ ok tt
unfolding check_and_insert_nonce_for_peer
check_refuses_replays window now store nonce peer_id answer filled ne =
    ground (arith, eq_iff nonce "")

module _ (prim : Primitives) (window : ℕ) where
  -- The bytes are an envelope with this nonce, whose encodings can be read.
  pub record Carries (bytes : Bytes) (nonce : String) : Type 0 where
    pub env : EnvelopeTable
    pub sig_bytes : Bytes
    pub pub_bytes : Bytes
    pub opens : opened prim bytes ≡ ok (env, sig_bytes, pub_bytes)
    pub has_nonce : unwrap_or env.nonce "" ≡ nonce

  abbrev pub verify_at :
      NonceStore → Arrival → NonceStore × Result VerifiedEnvelopeParts EnvelopeError
  verify_at store a = verify_flatbuffer_envelope_for_peer prim a.now store a.bytes window a.peer_id

  abbrev verify_opened :
      NonceStore
      → Arrival
      → Result (EnvelopeTable × Bytes × Bytes) EnvelopeError
      → NonceStore × Result VerifiedEnvelopeParts EnvelopeError
  verify_opened store a = check_opened prim a.now store window a.peer_id

  -- the nonce store after a sequence of envelopes, accepted or not
  pub verify_all : NonceStore → List Arrival → NonceStore
  verify_all store [] = store
  verify_all store (a ∷ as') = verify_all (verify_at store a).0 as'

  -- With a nonce, the check of an opened envelope leaves the store of the nonce check, and answers
  -- with the nonce check's error if there is one.
  check_opened_lem :
      (store : NonceStore) (a : Arrival) (env : EnvelopeTable) (sig_bytes pub_bytes : Bytes)
      → str_eq (unwrap_or env.nonce "") "" ≡ false
      → verify_opened store a (ok (env, sig_bytes, pub_bytes)) ≡ (
          let (store', fresh) =
            check_and_insert_nonce_for_peer a.now store (unwrap_or env.nonce "") window a.peer_id in
          (store', (do fresh; verified prim env (canonical_of prim env) sig_bytes pub_bytes)))
  unfolding check_opened
  check_opened_lem store a env sig_bytes pub_bytes filled = rw filled

  verify_carried :
      (store : NonceStore) (a : Arrival) (nonce : String)
      → nonce ≢ ""
      → (c : Carries a.bytes nonce)
      → verify_at store a ≡ (
          let (store', fresh) =
            check_and_insert_nonce_for_peer a.now store nonce window a.peer_id in
          (
            store',
            (do fresh; verified prim c.env (canonical_of prim c.env) c.sig_bytes c.pub_bytes),
          ))
  unfolding verify_flatbuffer_envelope_for_peer
  verify_carried store a nonce filled c =
      let f : str_eq (unwrap_or c.env.nonce "") "" ≡ false =
        rw c.has_nonce (ground (arith, eq_iff nonce "")) in
      rw (c.opens, check_opened_lem store a c.env c.sig_bytes c.pub_bytes f, c.has_nonce)

  -- An envelope that got past the nonce check has its nonce remembered, accepted or not.
  verify-Remembers :
      (store : NonceStore) (a : Arrival) (nonce : String)
      → nonce ≢ ""
      → Carries a.bytes nonce
      → (verify_at store a).1 ≢ err replay_detected
      → Remembers a.peer_id nonce a.now (verify_at store a).0
  verify-Remembers store a nonce filled c passes =
      let e = verify_carried store a nonce filled c in
      rw e (check-Remembers window a.now store nonce a.peer_id (accepted (rw e at passes)))
    where
      accepted :
          ((check_and_insert_nonce_for_peer a.now store nonce window a.peer_id).1
              >> verified prim c.env (canonical_of prim c.env) c.sig_bytes c.pub_bytes)
            ≢ err replay_detected
          → (check_and_insert_nonce_for_peer a.now store nonce window a.peer_id).1 ≡ ok tt
      accepted ne = check_refuses_replays window a.now store nonce a.peer_id _ filled ne

  verify-keeps-Remembers :
      (peer_id nonce : String) (t : ℕ) (store : NonceStore) (a : Arrival)
      → a.now ≤ t + window
      → Remembers peer_id nonce t store
      → Remembers peer_id nonce t (verify_at store a).0
  unfolding verify_flatbuffer_envelope_for_peer
  verify-keeps-Remembers peer_id nonce t store a young r = after (opened prim a.bytes)
    where
      after :
          (o : Result (EnvelopeTable × Bytes × Bytes) EnvelopeError)
          → Remembers peer_id nonce t (verify_opened store a o).0
      after (err e) = unfold check_opened in r
      after (ok (env, sig_bytes, pub_bytes)) =
          elim (Bool-cases (str_eq (unwrap_or env.nonce "") "")) [
            | inl blank ↦ unfold check_opened in rw blank r
            | inr filled ↦ rw (check_opened_lem store a env sig_bytes pub_bytes filled) (
                check-keeps-Remembers window peer_id nonce t a.now store (unwrap_or env.nonce "")
                  a.peer_id young r)
          ]

  verify_all-keeps-Remembers :
      (peer_id nonce : String) (t : ℕ) (store : NonceStore) (between : List Arrival)
      → All (λ a. a.now ≤ t + window) between
      → Remembers peer_id nonce t store
      → Remembers peer_id nonce t (verify_all store between)
  unfolding verify_all
  verify_all-keeps-Remembers peer_id nonce t store [] young r = r
  verify_all-keeps-Remembers peer_id nonce t store (a ∷ rest) young r =
      verify_all-keeps-Remembers peer_id nonce t (verify_at store a).0 rest young.1
        (verify-keeps-Remembers peer_id nonce t store a young.0 r)

  verify_refused :
      (store : NonceStore) (a : Arrival) (nonce : String) (t : ℕ)
      → nonce ≢ ""
      → Carries a.bytes nonce
      → a.now ≤ t + window
      → Remembers a.peer_id nonce t store
      → (verify_at store a).1 ≡ err replay_detected
  verify_refused store a nonce t filled c young r = rw (
    verify_carried store a nonce filled c,
    Remembers-refused window a.peer_id nonce t a.now store filled young r,
  )

  module _ (store : NonceStore) (first second : Arrival) (between : List Arrival) (nonce : String)
      (filled : nonce ≢ "") (same_peer : second.peer_id ≡ first.peer_id)
      (young : All (λ a. a.now ≤ first.now + window) (second ∷ between))
      (first_carries : Carries first.bytes nonce)
      (second_carries : Carries second.bytes nonce) where
    refused_after :
        (verify_at store first).1 ≢ err replay_detected
        → (verify_at (verify_all (verify_at store first).0 between) second).1 ≡ err replay_detected
    refused_after passes = verify_refused _ second nonce first.now filled second_carries young.0 (
        rw same_peer (
          verify_all-keeps-Remembers first.peer_id nonce first.now _ between young.1
            (verify-Remembers store first nonce filled first_carries passes)))

    -- Once an envelope with a nonce that is not empty was accepted for a peer, every envelope with
    -- the same nonce that can be opened is refused as a replay for that peer within the window,
    -- whatever envelopes come in between, accepted or not, none of them later than the window.
    pub replay_refused :
        (parts : VerifiedEnvelopeParts)
        → (verify_at store first).1 ≡ ok parts
        → (verify_at (verify_all (verify_at store first).0 between) second).1 ≡ err replay_detected
    replay_refused parts accepted = refused_after (λ e. cc)

    -- The nonce is spent before the signature is checked: after an envelope with a nonce that is
    -- not empty was refused for its invalid signature, every envelope with the same nonce that can
    -- be opened, the genuine one too, is refused as a replay for that peer within the window,
    -- whatever envelopes come in between within it.
    pub forgery_spends_nonce :
        (verify_at store first).1 ≡ err invalid_signature
        → (verify_at (verify_all (verify_at store first).0 between) second).1 ≡ err replay_detected
    forgery_spends_nonce forged = refused_after (λ e. cc)
