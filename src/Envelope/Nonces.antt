-- ===== src/Envelope/Nonces.antt =====
-- Replay protection: a nonce that was accepted stays refused for the window, whatever is verified
-- in between, and the nonce is spent before the signature is looked at.
use beemesh.Prelude.{
  ℕ, ◌+◌, ◌-◌, ◌≤◌, ◌≡◌, ◌≢◌, String, false, some, Option-cases, [], arith, ok, err, leb, str_eq,
  eq_iff, Bool-cases, inl, inr, unwrap_or,
}
use beemesh.HashMap.{HashMap, get, insert, retain}
use beemesh.HashMap.Laws.{get-insert, get-retain_kept}
use beemesh.Envelope.{NonceStore, replay_detected, check_and_insert_nonce_for_peer}

-- The store holds the nonce for the peer, with the time at which it was seen.
pub record Remembers (peer_id nonce : String) (t : ℕ) (store : NonceStore) : Type 0 where
  pub nonces : HashMap ℕ
  pub of_peer : get peer_id store ≡ some nonces
  pub at_time : get nonce nonces ≡ some t

module _ (window : ℕ) where
  -- The nonces of the peer that survive the pruning.
  kept : ℕ → NonceStore → String → HashMap ℕ
  kept now store peer_id = retain (λ _ t. leb (now - t) window) (unwrap_or (get peer_id store) [])

  kept-Remembers :
      (now t : ℕ) (store : NonceStore) (peer_id nonce : String)
      → now ≤ t + window
      → Remembers peer_id nonce t store
      → get nonce (kept now store peer_id) ≡ some t
  unfolding kept
  kept-Remembers now t store peer_id nonce young r =
      rw r.of_peer (get-retain_kept _ nonce t r.nonces r.at_time (ground arith))

  -- A nonce that was just accepted is remembered.
  pub check-Remembers :
      (now : ℕ) (store : NonceStore) (nonce peer_id : String)
      → (check_and_insert_nonce_for_peer now store nonce window peer_id).1 ≡ ok tt
      → Remembers peer_id nonce now
          (check_and_insert_nonce_for_peer now store nonce window peer_id).0
  unfolding check_and_insert_nonce_for_peer kept
  check-Remembers now store nonce peer_id e = elim (Bool-cases (str_eq nonce "")) [
    | inl blank ↦ absurd (ground arith)
    | inr filled ↦ elim (Option-cases (get nonce (kept now store peer_id))) [
      | inr (t, old) ↦ absurd (ground arith)
      | inl new ↦
          rw (filled, new)
            (record {
              nonces = insert nonce now (kept now store peer_id);
              of_peer = rw get-insert (ground (arith, eq_iff peer_id peer_id));
              at_time = rw get-insert (ground (arith, eq_iff nonce nonce));
            })
    ]
  ]

  module _ (peer_id nonce : String) (t : ℕ) where
    insert-Remembers :
        (nonces : HashMap ℕ) (store : NonceStore)
        → get nonce nonces ≡ some t
        → Remembers peer_id nonce t (insert peer_id nonces store)
    insert-Remembers nonces store e = record {
      nonces = nonces;
      of_peer = rw get-insert (ground (arith, eq_iff peer_id peer_id));
      at_time = e;
    }

    insert-Remembers_ne :
        (other_peer : String) (nonces : HashMap ℕ) (store : NonceStore)
        → str_eq other_peer peer_id ≡ false
        → Remembers peer_id nonce t store
        → Remembers peer_id nonce t (insert other_peer nonces store)
    insert-Remembers_ne other_peer nonces store differ r = record {
      nonces = r.nonces;
      of_peer = rw (get-insert, differ) r.of_peer;
      at_time = r.at_time;
    }

    keeps_same :
        (now : ℕ) (store : NonceStore) (other : String)
        → now ≤ t + window
        → Remembers peer_id nonce t store
        → Remembers peer_id nonce t
            (check_and_insert_nonce_for_peer now store other window peer_id).0
    unfolding check_and_insert_nonce_for_peer kept
    keeps_same now store other young r =
        let nonces = kept now store peer_id in
        let held = kept-Remembers now t store peer_id nonce young r in
        elim (Bool-cases (str_eq other "")) [
          | inl blank ↦ rw blank r
          | inr filled ↦ elim (Option-cases (get other nonces)) [
            | inr (u, old) ↦ rw (filled, old) (insert-Remembers nonces store held)
            | inl new ↦
                let unlike : str_eq other nonce ≡ false = ground (arith, eq_iff other nonce) in
                rw (filled, new)
                  (insert-Remembers (insert other now nonces) store (rw (get-insert, unlike) held))
          ]
        ]

    keeps_ne :
        (now : ℕ) (store : NonceStore) (other other_peer : String)
        → str_eq other_peer peer_id ≡ false
        → Remembers peer_id nonce t store
        → Remembers peer_id nonce t
            (check_and_insert_nonce_for_peer now store other window other_peer).0
    unfolding check_and_insert_nonce_for_peer kept
    keeps_ne now store other other_peer differ r =
        let nonces = kept now store other_peer in
        elim (Bool-cases (str_eq other "")) [
          | inl blank ↦ rw blank r
          | inr filled ↦ elim (Option-cases (get other nonces)) [
            | inr (u, old) ↦ rw (filled, old) (insert-Remembers_ne other_peer nonces store differ r)
            | inl new ↦
                rw (filled, new)
                  (insert-Remembers_ne other_peer (insert other now nonces) store differ r)
          ]
        ]

    -- Within the window no check forgets the nonce.
    pub check-keeps-Remembers :
        (now : ℕ) (store : NonceStore) (other other_peer : String)
        → now ≤ t + window
        → Remembers peer_id nonce t store
        → Remembers peer_id nonce t
            (check_and_insert_nonce_for_peer now store other window other_peer).0
    check-keeps-Remembers now store other other_peer young r =
        elim (Bool-cases (str_eq other_peer peer_id)) [
          | inl same ↦ rw ((eq_iff other_peer peer_id).0 same) (keeps_same now store other young r)
          | inr differ ↦ keeps_ne now store other other_peer differ r
        ]

    -- A remembered nonce is refused.
    pub Remembers-refused :
        (now : ℕ) (store : NonceStore)
        → nonce ≢ ""
        → now ≤ t + window
        → Remembers peer_id nonce t store
        → (check_and_insert_nonce_for_peer now store nonce window peer_id).1 ≡ err replay_detected
    unfolding check_and_insert_nonce_for_peer kept
    Remembers-refused now store filled young r =
        let f : str_eq nonce "" ≡ false = ground (arith, eq_iff nonce "") in
        rw (f, kept-Remembers now t store peer_id nonce young r)
