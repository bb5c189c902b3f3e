-- ===== src/Node/Tests.antt =====
-- Runs of a node with one engine, whose libraries answer every call alike, and the theorems at it.
use beemesh.Prelude.{
  ℕ, ◌+◌, Bytes, ◌≡◌, ◌⊎◌, refl, String, true, false, Option, none, some, [], ◌∷◌, ok, arith,
  eq_iff,
}
use beemesh.HashMap.{get}
use beemesh.Envelope.{
  EnvelopeTable, Primitives, VerifiedEnvelopeParts, verify_flatbuffer_envelope_for_peer, opened,
  check_opened, verified, normalize_and_decode_signature, after_colon,
  check_and_insert_nonce_for_peer, verify_envelope,
}
use beemesh.Resources.{
  has_active_reservation_for_manifest, prune_expired_reservations, verify_capacity,
  reserve_capacity, reservable, first_shortage, total_reserved_resources, fold_reserved,
  available_cpu_milli, available_memory_bytes, available_storage_bytes, total_cpu_milli,
  total_memory_bytes, total_storage_bytes, can_accept_more_workloads, new_request, admit, commit,
}
use beemesh.Provider.{ProviderManager, default_provider_config}
use beemesh.Runtime.{WorkloadInfo, running}
use beemesh.Runtime.Registry.{RuntimeEngine, RuntimeRegistry, list_engines, get_engine}
use beemesh.Node.{
  ApplyRequest, CapacityRequest, Libraries, Node, Moment, get_manifest_owner, verify_signed_message,
  verify_envelope_and_check_nonce_for_peer,
}
use beemesh.Node.Deployment.{Deploy, process_manifest_deployment, decrypt_manifest_content}
use beemesh.Node.Apply.{apply_request, apply_manifest, deployment_reply}
use beemesh.Node.Delete.{process_delete_request, remove_all}
use beemesh.Node.Bidding.{
  BidClock, CapacityReply, candidate_request_id, extract_manifest_id_from_request_id,
  capacity_reply, bid, bid_for, bid_checked, resource_request, or_dashed, colon_part,
  scheduler_request, bid_as_node,
}
use beemesh.Node.Owners.{Denied, process_delete_request_denies}
use beemesh.Node.Takeover.{Untouched, Asks, Reserved, apply_request_needs, apply_request_takes_over}
use beemesh.Node.Sweep.{all_listed}
use beemesh.Node.Requests.{extract-candidate_request_id}
use beemesh.Node.Bids.{Promised, scheduler_request_holds, apply_manifest-bid_as_node}
use beemesh.Text.{split}

abbrev workload : String → WorkloadInfo
workload id = record {
  id = id;
  manifest_id = "m";
  status = running;
  metadata = [];
  created_at = 0;
  updated_at = 0;
  ports = [];
}

-- The engine keeps how often it was called.
abbrev engine : RuntimeEngine ℕ
engine = record {
  name = "podman";
  is_available = λ w. true;
  deploy_workload = λ id content config w. (w + 1, ok (workload "w1"));
  get_workload_status = λ id w. ok (workload id);
  list_workloads = λ w. ok (workload "w1" ∷ []);
  remove_workload = λ id w. (w + 1, ok tt);
  get_workload_logs = λ id tail w. ok "";
  validate_manifest = λ content w. ok tt;
  export_manifest = λ id w. ok [];
}

abbrev registry : RuntimeRegistry ℕ
registry = record { engines = ("podman", engine) ∷ []; default_engine = some "podman" }

abbrev envelope : EnvelopeTable
envelope = record {
  payload = some (1 ∷ []);
  payload_type = some "apply";
  nonce = some "n1";
  ts = 1000;
  alg = none;
  sig = some "sig";
  pubkey = some "key";
  peer_id = none;
  kem_pubkey = none;
}

abbrev prim : Primitives
prim = record {
  finish = λ env. [];
  root_as_envelope = λ bytes. some envelope;
  encode = λ bytes. "";
  decode = λ text. some (9 ∷ []);
  pqc_ready = true;
  public_key = λ bytes. some bytes;
  sign = λ secret message. none;
  verify = λ public message signature. some true;
}

abbrev apply_req : ApplyRequest
apply_req = record {
  replicas = 3;
  operation_id = some "op";
  manifest_json = some "manifest";
  manifest_id = some "m";
}

abbrev capacity_req : CapacityRequest
capacity_req = record {
  request_id = some "beemesh-free-capacity:m:u1";
  cpu_milli = 500;
  memory_bytes = 1000;
  storage_bytes = 1000;
  replicas = 1;
}

abbrev lib : Libraries String
lib = record {
  prim = prim;
  root_as_apply_request = λ bytes. some apply_req;
  root_as_delete_request = λ bytes. none;
  root_as_capacity_request = λ bytes. some capacity_req;
  root_as_capacity_reply = λ bytes. none;
  as_bytes = λ text. 7 ∷ [];
  from_utf8 = λ bytes. none;
  from_utf8_lossy = λ bytes. "";
  from_yaml = λ text. none;
  to_yaml = λ doc. none;
  field = λ key doc. none;
  set_field = λ key value doc. doc;
  is_mapping = λ doc. false;
  insert_key = λ key value doc. doc;
  as_str = λ doc. none;
  one = "1";
  decrypt = λ bytes. none;
}

abbrev moment : Moment
moment = record {
  nonce_clock = 0;
  instant = 5;
  t_announced = 0;
  t_seen = 0;
  dht = ok tt;
  local_peer_id = "me";
}

abbrev providers : ProviderManager
providers = record {
  local_providers = [];
  remote_providers = [];
  pending_queries = [];
  config = default_provider_config;
}

-- a node of 8 cores that holds a reservation for the manifest until the instant 10, and whose
-- recorded owner of it is another
abbrev node : Node ℕ
node = record {
  registry = some registry;
  provider_manager = some providers;
  verifier = record {
    system_resources = record {
      total_cpu_cores = 8;
      total_cpu_milli = 8000;
      total_memory_bytes = 8_000_000_000;
      total_storage_bytes = 100_000_000_000;
      allocated_cpu_milli = 0;
      allocated_memory_bytes = 0;
      allocated_storage_bytes = 0;
      running_workloads = 0;
    };
    reservations =
        (
          "r1",
          record {
            cpu_milli = 1;
            memory_bytes = 1;
            storage_bytes = 1;
            manifest_id = some "m";
            expires_at = 10;
          },
        )
        ∷ [];
  };
  owners = ("m", 4 ∷ []) ∷ [];
  nonces = [];
  host = 0;
}

abbrev no_mock : Option (Deploy ℕ)
no_mock = none

abbrev bid_clock : BidClock
bid_clock = record { nonce_clock = 0; now_ms = 1200; t_verify = 0; t_prune = 0; t_hold = 0 }

process_delete_request_denies_example :
    (get_manifest_owner "m" node ≡ some (5 ∷ []))
    ⊎ ((false ≡ true) × ((owner : Bytes) × (get_manifest_owner "m" node ≡ some owner)))
    ⊎ Denied node (process_delete_request "m" false (5 ∷ []) node)
process_delete_request_denies_example = process_delete_request_denies "m" false (5 ∷ []) node

-- a valid request: the workload is deployed, and its signer is the owner now
accepted_run :
    let (n', reply) = apply_request lib moment no_mock [] "p" node in
    (reply.ok ≡ true) × (n'.host ≡ 1) × (get "m" n'.owners ≡ some (9 ∷ []))
unfolding apply_request has_active_reservation_for_manifest prune_expired_reservations
    verify_flatbuffer_envelope_for_peer opened check_opened verified normalize_and_decode_signature
    after_colon check_and_insert_nonce_for_peer verify_envelope
accepted_run = (refl, refl, refl)

apply_request_needs_example :
    Untouched lib moment no_mock node (apply_request lib moment no_mock [] "p" node)
    ⊎ ((id : String) × (Asks lib moment no_mock [] "p" node id
          × Reserved lib moment no_mock id node))
apply_request_needs_example = apply_request_needs lib moment no_mock [] "p" node

asking : Asks lib moment no_mock [] "p" node "m"
unfolding verify_envelope_and_check_nonce_for_peer verify_flatbuffer_envelope_for_peer opened
    check_opened verified normalize_and_decode_signature after_colon check_and_insert_nonce_for_peer
    verify_envelope
asking = record {
  parts = record {
    payload = 1 ∷ [];
    pubkey = 9 ∷ [];
    signature = 9 ∷ [];
    timestamp_ms = 1000;
    payload_type = "apply";
  };
  req = apply_req;
  json = "manifest";
  signed = refl;
  parsed = refl;
  content = refl;
  named = refl;
  nonempty = λ e. ground (arith, eq_iff "m" "");
}

apply_request_takes_over_example :
    let n' = (apply_request lib moment no_mock [] "p" node).0 in
    process_delete_request "m" false (9 ∷ []) n' ≡ remove_all "m" n'
unfolding decrypt_manifest_content has_active_reservation_for_manifest prune_expired_reservations
    asking
apply_request_takes_over_example =
    apply_request_takes_over lib moment no_mock [] "p" node "m" asking refl (7 ∷ []) refl refl

-- the same node with a second engine, which lists two workloads of the manifest and one of another
abbrev second_engine : RuntimeEngine ℕ
second_engine = record engine {
  name = "docker";
  list_workloads = λ w.
      ok (workload "w2" ∷ record (workload "w3") { manifest_id = "other" } ∷ workload "w4" ∷ []);
}

abbrev both : RuntimeRegistry ℕ
both = record {
  engines = ("podman", engine) ∷ ("docker", second_engine) ∷ [];
  default_engine = some "podman";
}

abbrev two_engines : Node ℕ
two_engines = record node { registry = some both }

both_listed : all_listed both "m" 0 (list_engines both) ≡ "w1" ∷ "w2" ∷ "w4" ∷ []
unfolding list_engines get_engine
both_listed = refl

extract-candidate_request_id_example :
    extract_manifest_id_from_request_id (candidate_request_id "task-1" "u:1") ≡ some "task-1"
extract-candidate_request_id_example =
    extract-candidate_request_id "task-1" "u:1" refl (λ e. ground (arith, eq_iff "task-1" ""))

-- what the node bids, from its own check of the request
abbrev reply : CapacityReply
reply =
    capacity_reply none "beemesh-free-capacity:m:u1" "me"
      (verify_capacity node.verifier 0 (resource_request capacity_req)).1

scheduler_request_holds_example :
    (false ≡ false)
    × ((parts : VerifiedEnvelopeParts) × ((verify_signed_message prim 0 [] "p" []).1 ≡ some parts)
        × Promised bid_clock 4 reply parts.timestamp_ms
            (scheduler_request lib bid_clock none false [] "p" "me" node).0)
unfolding scheduler_request verify_envelope_and_check_nonce_for_peer bid_as_node bid bid_for
    bid_checked resource_request extract_manifest_id_from_request_id or_dashed colon_part split
    verify_capacity reserve_capacity prune_expired_reservations reservable first_shortage
    total_reserved_resources fold_reserved available_cpu_milli available_memory_bytes
    available_storage_bytes total_cpu_milli total_memory_bytes total_storage_bytes
    can_accept_more_workloads new_request admit commit verify_flatbuffer_envelope_for_peer opened
    check_opened verified normalize_and_decode_signature after_colon check_and_insert_nonce_for_peer
    verify_envelope
scheduler_request_holds_example =
    scheduler_request_holds lib bid_clock none [] "p" "me" 4 reply (omega arith) false node refl

apply_manifest-bid_as_node_example :
    let n' : Node ℕ = record (bid_as_node bid_clock none "me" 1000 capacity_req node).0 {
      owners = [];
    } in
    let (deployed, answer) =
      process_manifest_deployment lib moment no_mock apply_req "manifest"
        (9 ∷ [])
        (record n' { verifier = (has_active_reservation_for_manifest n'.verifier 5 "m").0 }) in
    apply_manifest lib moment no_mock apply_req "manifest" "m" (9 ∷ []) n'
    ≡ (deployed, deployment_reply answer)
unfolding bid_as_node bid bid_for bid_checked resource_request extract_manifest_id_from_request_id
    or_dashed colon_part split verify_capacity reserve_capacity prune_expired_reservations
    reservable first_shortage total_reserved_resources fold_reserved available_cpu_milli
    available_memory_bytes available_storage_bytes total_cpu_milli total_memory_bytes
    total_storage_bytes can_accept_more_workloads new_request admit commit
apply_manifest-bid_as_node_example =
    apply_manifest-bid_as_node lib bid_clock moment no_mock none "me" 1000 capacity_req node
      (record (bid_as_node bid_clock none "me" 1000 capacity_req node).0 { owners = [] }) reply
      apply_req "manifest" "m" (9 ∷ []) refl refl refl (λ e. ground (arith, eq_iff "m" ""))
      (omega arith)
