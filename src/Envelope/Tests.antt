-- ===== src/Envelope/Tests.antt =====
-- Runs with a signature scheme that takes one signature for good, and every buffer for the same
-- envelope but for its signature.
use beemesh.Prelude.{
  Bytes, ◌≡◌, ◌≢◌, refl, String, Bool, true, false, none, some, [], ◌∷◌, ok, err, str_eq, eq_iff,
  if◌then◌else◌, arith, ◌==◌,
}
use beemesh.Envelope.{
  EnvelopeTable, Primitives, VerifiedEnvelopeParts, replay_detected, invalid_signature,
  signed_table, after_colon, check_and_insert_nonce, check_and_insert_nonce_for_peer,
  normalize_and_decode_signature, verify_envelope, opened, verified, check_opened,
  verify_flatbuffer_envelope, verify_flatbuffer_envelope_for_peer,
  verify_flatbuffer_envelope_skip_nonce_check,
}
use beemesh.Envelope.Replay.{
  Arrival, Carries, verify_at, verify_all, replay_refused, forgery_spends_nonce,
}

abbrev envelope : String → EnvelopeTable
envelope sig = signed_table (7 ∷ []) "t" "n" 5 "ml-dsa-65" "ml-dsa-65" sig "k" "p" none

abbrev is_good : Bytes → Bool
is_good [] = false
is_good (x ∷ xs) = x == 1

-- The buffer that starts with 0 is the forged one.
abbrev prim : Primitives
prim = record {
  finish = λ env. env.ts ∷ [];
  root_as_envelope = λ bytes. some (if is_good bytes then envelope "good" else envelope "bad");
  encode = λ bytes. "good";
  decode = λ text. some (if str_eq text "bad" then 0 ∷ [] else 1 ∷ []);
  pqc_ready = true;
  public_key = λ key. some key;
  sign = λ secret message. some (1 ∷ []);
  verify = λ public message signature. some (is_good signature);
}

abbrev genuine : Arrival
genuine = record { now = 10; bytes = 1 ∷ []; peer_id = "p" }

abbrev forged : Arrival
forged = record { now = 10; bytes = 0 ∷ []; peer_id = "p" }

abbrev again : Arrival
again = record { now = 20; bytes = 1 ∷ []; peer_id = "p" }

abbrev parts : VerifiedEnvelopeParts
parts = record {
  payload = 7 ∷ [];
  pubkey = 1 ∷ [];
  signature = 1 ∷ [];
  timestamp_ms = 5;
  payload_type = "t";
}

fresh_then_replayed :
    (check_and_insert_nonce 3 (check_and_insert_nonce 2 [] "n" 10).0 "n" 10).1 ≡ err replay_detected
unfolding check_and_insert_nonce check_and_insert_nonce_for_peer
fresh_then_replayed = refl

expired_nonce : (check_and_insert_nonce 13 (check_and_insert_nonce 2 [] "n" 10).0 "n" 10).1 ≡ ok tt
unfolding check_and_insert_nonce check_and_insert_nonce_for_peer
expired_nonce = refl

accepted : (verify_flatbuffer_envelope prim 10 [] (1 ∷ []) 100).1 ≡ ok parts
unfolding verify_flatbuffer_envelope verify_flatbuffer_envelope_for_peer check_opened opened
    verified normalize_and_decode_signature signed_table after_colon check_and_insert_nonce_for_peer
    verify_envelope
accepted = refl

accepted_for_peer : (verify_at prim 100 [] genuine).1 ≡ ok parts
unfolding verify_flatbuffer_envelope_for_peer check_opened opened verified
    normalize_and_decode_signature signed_table after_colon check_and_insert_nonce_for_peer
    verify_envelope
accepted_for_peer = refl

refused : (verify_at prim 100 [] forged).1 ≡ err invalid_signature
unfolding verify_flatbuffer_envelope_for_peer check_opened opened verified
    normalize_and_decode_signature signed_table after_colon check_and_insert_nonce_for_peer
    verify_envelope
refused = refl

accepted_without_nonce : verify_flatbuffer_envelope_skip_nonce_check prim (1 ∷ []) ≡ ok parts
unfolding verify_flatbuffer_envelope_skip_nonce_check opened verified normalize_and_decode_signature
    signed_table after_colon verify_envelope
accepted_without_nonce = refl

genuine-Carries : Carries prim 100 genuine.bytes "n"
unfolding opened normalize_and_decode_signature signed_table after_colon
genuine-Carries = record {
  env = envelope "good";
  sig_bytes = 1 ∷ [];
  pub_bytes = 1 ∷ [];
  opens = refl;
  has_nonce = refl;
}

forged-Carries : Carries prim 100 forged.bytes "n"
unfolding opened normalize_and_decode_signature signed_table after_colon
forged-Carries = record {
  env = envelope "bad";
  sig_bytes = 0 ∷ [];
  pub_bytes = 1 ∷ [];
  opens = refl;
  has_nonce = refl;
}

abbrev nonce : String
nonce = "n"

named : nonce ≢ ""
named e = ground (arith, eq_iff nonce "")

replay_refused_example :
    (verify_at prim 100
      (verify_all prim 100 (verify_at prim 100 [] genuine).0 (forged ∷ []))
      again).1
    ≡ err replay_detected
replay_refused_example =
    replay_refused prim 100 [] genuine again (forged ∷ []) "n" named refl
      (omega arith, (omega arith, tt)) genuine-Carries genuine-Carries parts accepted_for_peer

forgery_spends_nonce_example :
    (verify_at prim 100 (verify_all prim 100 (verify_at prim 100 [] forged).0 []) again).1
    ≡ err replay_detected
forgery_spends_nonce_example =
    forgery_spends_nonce prim 100 [] forged again [] "n" named refl (omega arith, tt) forged-Carries
      genuine-Carries refused
