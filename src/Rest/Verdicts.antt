-- ===== src/Rest/Verdicts.antt =====
-- What an accepted envelope was read as and verified with.
use beemesh.Prelude.{
  ℕ, ◌≡◌, refl, ap, sym, Bytes, String, Option, none, some, Result, ok, err, ◌>>=◌, ◌>>◌, str_eq,
  unwrap_or, Bool-cases, inl, inr,
}
use beemesh.Envelope.{
  EnvelopeTable, Primitives, or_fail, NonceStore, EnvelopeError, VerifiedEnvelopeParts,
  malformed_envelope, bad_pubkey_encoding, verified, canonical_of, check_opened, opened,
  verify_envelope, check_and_insert_nonce_for_peer, normalize_and_decode_signature,
}

module _ {B E : Type 0} where
  then_ok :
      (r : Result Unit E) (k : Result B E) (b : B) → (r >> k) ≡ ok b → (r ≡ ok tt) × (k ≡ ok b)
  then_ok (ok tt) k b e = (refl, e)
  then_ok (err x) k b e = cc

module _ {A B C E : Type 0} where
  abbrev last : A → Result B E → Result C E → Result (A × B × C) E
  last x r s = do y ← r; z ← s; ok (x, y, z)

  abbrev all : Result A E → (A → Result B E) → (A → Result C E) → Result (A × B × C) E
  all q r s = do x ← q; last x (r x) (s x)

  last_ok :
      (x a : A) (b : B) (c : C) (r : Result B E) (s : Result C E)
      → last x r s ≡ ok (a, b, c)
      → (x ≡ a) × (s ≡ ok c)
  last_ok x a b c (err f) s e = cc
  last_ok x a b c (ok y) (err f) e = cc
  last_ok x a b c (ok y) (ok z) e = (cc, cc)

  all_ok :
      (a : A) (b : B) (c : C) (q : Result A E) (r : A → Result B E) (s : A → Result C E)
      → all q r s ≡ ok (a, b, c)
      → (q ≡ ok a) × (s a ≡ ok c)
  all_ok a b c (err f) r s e = cc
  all_ok a b c (ok x) r s e =
      let (same, third) = last_ok x a b c (r x) (s x) e in (ap ok same, rw⁻¹ same third)

or_fail_ok {ℓ} :
    {A : Type ℓ} (o : Option A) (x : EnvelopeError) (a : A) → or_fail o x ≡ ok a → o ≡ some a
or_fail_ok none x a e = cc
or_fail_ok (some b) x a e = cc

module _ (prim : Primitives) where
  pub opened_ok :
      (bytes : Bytes) (env : EnvelopeTable) (sig_bytes pub_bytes : Bytes)
      → opened prim bytes ≡ ok (env, sig_bytes, pub_bytes)
      → (prim.root_as_envelope bytes ≡ some env)
        × (prim.decode (unwrap_or env.pubkey "") ≡ some pub_bytes)
  unfolding opened
  opened_ok bytes env sig_bytes pub_bytes e =
      let (at_env, at_pub) =
        all_ok env sig_bytes pub_bytes (or_fail (prim.root_as_envelope bytes) malformed_envelope)
          (λ env. normalize_and_decode_signature prim (some (unwrap_or env.sig "")))
          (λ env. or_fail (prim.decode (unwrap_or env.pubkey "")) bad_pubkey_encoding) e in
      (or_fail_ok _ _ _ at_env, or_fail_ok _ _ _ at_pub)

  pub verified_ok :
      (env : EnvelopeTable) (message sig_bytes pub_bytes : Bytes) (parts : VerifiedEnvelopeParts)
      → verified prim env message sig_bytes pub_bytes ≡ ok parts
      → (verify_envelope prim pub_bytes message sig_bytes ≡ ok tt) × (parts.pubkey ≡ pub_bytes)
  unfolding verified
  verified_ok env message sig_bytes pub_bytes parts e =
      let (valid, rest) =
        then_ok (verify_envelope prim pub_bytes message sig_bytes) (ok _) parts e in
      (valid, sym (ap (λ r. elim r [ ok p ↦ p.pubkey | err _ ↦ pub_bytes ]) rest))

  pub check_opened_ok :
      (now : ℕ) (store : NonceStore) (window : ℕ) (peer_id : String)
      (o : Result (EnvelopeTable × Bytes × Bytes) EnvelopeError) (parts : VerifiedEnvelopeParts)
      → (check_opened prim now store window peer_id o).1 ≡ ok parts
      → (env : EnvelopeTable) × (sig_bytes : Bytes) × (pub_bytes : Bytes) × (o
          ≡ ok (env, sig_bytes, pub_bytes))
        × (verified prim env (canonical_of prim env) sig_bytes pub_bytes ≡ ok parts)
  unfolding check_opened
  check_opened_ok now store window peer_id (err x) parts e = cc
  check_opened_ok now store window peer_id (ok (env, sig_bytes, pub_bytes)) parts e = (
    env,
    sig_bytes,
    pub_bytes,
    refl,
    elim (Bool-cases (str_eq (unwrap_or env.nonce "") "")) [
      | inl unnamed ↦ (rw unnamed at e)
      | inr named ↦
          (then_ok
            (check_and_insert_nonce_for_peer now store (unwrap_or env.nonce "") window peer_id).1
            (verified prim env (canonical_of prim env) sig_bytes pub_bytes) parts (rw named at e)).1
    ],
  )

  -- a signature over the canonical bytes of the envelope that verifies with the key
  abbrev pub SignedBy : EnvelopeTable → (pubkey : Bytes) → Type 0
  SignedBy env pubkey =
      (sig_bytes : Bytes) × (verify_envelope prim pubkey (canonical_of prim env) sig_bytes ≡ ok tt)
