-- ===== src/Rest/Tests.antt =====
-- Runs of the handlers of a node without engines, and the theorems at them.
use beemesh.Prelude.{
  List, length, ◌≤◌, All, ℕ, ◌≡◌, ◌⊎◌, refl, Bytes, String, Bool, true, false, none, some, [], ◌∷◌,
  ok, ltb, is_some, str_eq, if◌then◌else◌, ◌^◌,
}
use beemesh.HashMap.{get}
use beemesh.Envelope.{
  EnvelopeTable, Primitives, verify_flatbuffer_envelope_for_peer, opened, check_opened, verified,
  normalize_and_decode_signature, after_colon, check_and_insert_nonce_for_peer, verify_envelope,
}
use beemesh.Resources.{new_verifier}
use beemesh.Node.{Libraries, Node}
use beemesh.Node.Removal.{remove_workloads_by_manifest_id}
use beemesh.Runtime.Registry.{new_registry}
use beemesh.Rest.{
  Answer, candidates_response, EnvelopeMetadata, Request, empty_metadata, envelope_middleware,
}
use beemesh.Rest.Ids.{hash_id, cli_hash_id, hash_id-cli_hash_id}
use beemesh.Rest.Tasks.{RestState, Fresh, Hashes, manifest_id_for, create_task}
use beemesh.Rest.Deletion.{
  Control, delete_if_peer, handle_local_delete, received, delete_task, Received, timed_out,
}
use beemesh.Rest.Lifecycle.{Created, create_task-Created}
use beemesh.Rest.Anyone.{removals, delete_task_any_requester}
use beemesh.Rest.Forwarding.{get_candidates}
use beemesh.Rest.Candidates.{Named, Uncut, get_candidates-Named}
use beemesh.Rest.Admission.{Unsigned, Signed, envelope_middleware_admits}

hash_id-cli_hash_id_example :
    (hash_id 255 ≡ (if ltb 255 (2 ^ 60) then none else cli_hash_id 255))
    × (is_some (cli_hash_id 255) ≡ true)
hash_id-cli_hash_id_example = hash_id-cli_hash_id 255

abbrev envelope : EnvelopeTable
envelope = record {
  payload = some (1 ∷ []);
  payload_type = some "manifest";
  nonce = some "n1";
  ts = 1000;
  alg = none;
  sig = some "sig";
  pubkey = some "key";
  peer_id = some "p1";
  kem_pubkey = none;
}

abbrev prim : Primitives
prim = record {
  finish = λ env. [];
  root_as_envelope = λ bytes. some envelope;
  encode = λ bytes. "";
  decode = λ text. if str_eq text "" then some [] else some (9 ∷ []);
  pqc_ready = true;
  public_key = λ bytes. some bytes;
  sign = λ secret message. none;
  verify = λ public message signature. some true;
}

abbrev lib : Libraries String
lib = record {
  prim = prim;
  root_as_apply_request = λ bytes. none;
  root_as_delete_request = λ bytes. none;
  root_as_capacity_request = λ bytes. none;
  root_as_capacity_reply = λ bytes. none;
  as_bytes = λ text. 7 ∷ [];
  from_utf8 = λ bytes. some "kind: Pod";
  from_utf8_lossy = λ bytes. "force=true";
  from_yaml = λ text. none;
  to_yaml = λ doc. none;
  field = λ key doc. none;
  set_field = λ key value doc. doc;
  is_mapping = λ doc. false;
  insert_key = λ key value doc. doc;
  as_str = λ doc. none;
  one = "1";
  decrypt = λ bytes. some (8 ∷ []);
}

-- a node that knows the manifest's owner
abbrev node : Node ℕ
node = record {
  registry = some new_registry;
  provider_manager = none;
  verifier = new_verifier;
  owners = ("m", 4 ∷ []) ∷ [];
  nonces = [];
  host = 0;
}

abbrev request : Request
request = record { content_type = some "application/octet-stream"; body = some (2 ∷ []) }

-- the envelope's key and its decrypted payload
handed_on : envelope_middleware lib 0 request node ≡ (
  (envelope_middleware lib 0 request node).0,
  ok (record { signing_pubkey = 9 ∷ []; kem_pubkey = []; peer_id = some "p1" }, 8 ∷ []),
)
unfolding envelope_middleware verify_flatbuffer_envelope_for_peer opened check_opened verified
    normalize_and_decode_signature after_colon check_and_insert_nonce_for_peer verify_envelope
handed_on = refl

abbrev metadata : EnvelopeMetadata
metadata = record { signing_pubkey = 9 ∷ []; kem_pubkey = []; peer_id = some "p1" }

envelope_middleware_admits_example :
    Unsigned lib 0 request node metadata (8 ∷ []) (envelope_middleware lib 0 request node).0
    ⊎ Signed lib 0 request node metadata (8 ∷ []) (envelope_middleware lib 0 request node).0
envelope_middleware_admits_example =
    envelope_middleware_admits lib 0 request node refl metadata (8 ∷ []) _ handed_on

abbrev hashes : Hashes
hashes = record { of_text = λ text. 5; of_bytes = λ bytes. 0xfedcba9876543210 }

abbrev fresh : Fresh
fresh = record { uuid = "u1"; envelope_nonce = 3 ∷ []; now_ms = 12; now = 12 }

abbrev st : RestState ℕ
st = record { node = node; task_store = []; operation_manifest_mapping = [] }

abbrev never : Bytes → Bool
never key = false

given_id : manifest_id_for lib hashes (("manifest_id", "m") ∷ []) (8 ∷ []) ≡ some "m"
unfolding manifest_id_for
given_id = refl

create_task-Created_example :
    (done : RestState ℕ × _) × (create_task lib hashes never fresh
        (("manifest_id", "m") ∷ [])
        metadata
        (8 ∷ [])
        st
      ≡ some done)
    × Created lib hashes "m" metadata st done
create_task-Created_example =
    create_task-Created lib hashes never fresh (("manifest_id", "m") ∷ []) metadata (8 ∷ []) "m" st
      given_id

-- the node is the only provider
abbrev control : Control
control = record {
  holders = λ id. some (received ("me" ∷ []));
  local_peer = some (received "me");
  peer_error = λ peer. none;
  ask_delete = λ peer id operation origin force. none;
  ask_apply = λ peer manifest. none;
  send_error = "closed";
  debug_list = λ l. "";
  error_text = λ e. "";
}

delete_task_any_requester_example :
    (delete_task lib control never 12 "m" empty_metadata [] node).0
    ≡ removals control "m" "me" ("me" ∷ []) node
delete_task_any_requester_example =
    delete_task_any_requester lib control "m" "me" ("me" ∷ []) refl refl never 12 empty_metadata []
      node

-- a deletion without an envelope: the owner is forgotten
deleted : get "m" (delete_task lib control never 12 "m" empty_metadata [] node).0.owners ≡ none
unfolding delete_task delete_if_peer handle_local_delete remove_workloads_by_manifest_id
    new_registry
deleted = refl

-- one node answers twice, another without a key
abbrev replies : List (Received String)
replies =
    received "12D3KooWExampleA:key"
    ∷ received "12D3KooWExampleA:key"
    ∷ received "12D3KooWExampleB:"
    ∷ timed_out
    ∷ []

get_candidates-Named_example :
    ((answer : Answer) × (l : List (String × String)) × (get_candidates true never replies metadata
        ≡ some answer)
      × (answer.reply ≡ candidates_response true l)
      × (length l ≤ 5)
      × All (Named replies) l)
    ⊎ ((get_candidates true never replies metadata ≡ none) × Uncut true replies)
get_candidates-Named_example = get_candidates-Named true never replies metadata

candidates_run :
    get_candidates true never replies metadata
    ≡ some (record {
      reply = candidates_response true (("12D3KooWExampleA", "key") ∷ []);
      encrypted_for = none;
    })
unfolding get_candidates
candidates_run = refl

-- a text of less than 16 bytes is no harm unless it is logged
short_run :
    (get_candidates true never (received "p:k" ∷ []) metadata ≡ none)
    × (get_candidates false never (received "p:k" ∷ []) metadata
        ≡ some
            (record { reply = candidates_response true (("p", "k") ∷ []); encrypted_for = none }))
unfolding get_candidates
short_run = (refl, refl)
