-- ===== src/Node/Bidding.antt =====
-- The bids on capacity requests: machineplane/machine/src/libp2p_beemesh/behaviour's
-- scheduler_message.rs and gossipsub_message.rs, with utils.rs, capacity.rs and reply.rs.
-- `now_ms` is the wall clock in milliseconds, and `kem_pub` the node's KEM key in base64, where it
-- could be loaded. A panic of a spawned thread is not modelled.
use Prim.Native.String.{◌++◌ as append}
use beemesh.Prelude.{
  ℕ, ◌-◌, ◌*◌, Bytes, String, Bool, true, not, ◌&&◌, Option, none, some, List, [], ◌∷◌, map, Result,
  ok, err, ltb, str_eq, if◌then◌else◌, unwrap_or,
}
use beemesh.HashMap.{HashMap, get}
use beemesh.Text.{codes, split, starts_with}
use beemesh.Envelope.{VerifiedEnvelopeParts}
use beemesh.Resources.{
  ResourceRequest, ResourceVerifier, CapacityCheckResult, Shortage, new_request, verify_capacity,
  reserve_capacity,
}
use beemesh.Node.{CapacityRequest, CapacityReplyTable, Libraries, Node, verify_signed_message}

abbrev pub free_capacity_prefix : String
free_capacity_prefix = "beemesh-free-capacity"

abbrev pub free_capacity_timeout_ms : ℕ
free_capacity_timeout_ms = 500

-- the request id that `get_candidates` of restapi/mod.rs makes
unfoldable pub candidate_request_id : (task_id uuid : String) → String
candidate_request_id task_id uuid =
    append free_capacity_prefix (append ":" (append task_id (append ":" uuid)))

-- what stands between the first two colons, behind the prefix
unfoldable pub colon_part : List String → Option String
colon_part [] = none
colon_part (prefix ∷ []) = none
colon_part (prefix ∷ manifest ∷ _) =
    if str_eq prefix free_capacity_prefix && not (str_eq manifest "") then some manifest else none

unfoldable pub dash_part : List String → Option String
dash_part [] = none
dash_part (first ∷ []) = none
dash_part (first ∷ second ∷ _) = if str_eq second "" then none else some second

unfoldable pub or_dashed : (request_id : String) → Option String → Option String
or_dashed request_id (some manifest) = some manifest
or_dashed request_id none =
    if starts_with (codes free_capacity_prefix) (codes request_id)
    then dash_part (split b'-' request_id)
    else none

unfoldable pub extract_manifest_id_from_request_id : (request_id : String) → Option String
extract_manifest_id_from_request_id request_id =
    or_dashed request_id (colon_part (split b':' request_id))

-- `notify_capacity_observers`: the senders are numbers
unfoldable pub notify_capacity_observers :
    HashMap (List ℕ) → (request_id payload : String) → List (ℕ × String)
notify_capacity_observers pending_queries request_id payload =
    map (λ tx. (tx, payload)) (unwrap_or (get request_id pending_queries) [])

-- `CapacityReplyParams`, with the KEM key that `build_capacity_reply` adds
pub record CapacityReply : Type 0 where
  pub ok : Bool
  pub cpu_milli : ℕ
  pub memory_bytes : ℕ
  pub storage_bytes : ℕ
  pub request_id : String
  pub responder_peer : String
  pub region : String
  pub capabilities : List String
  pub kem_pub_b64 : Option String

unfoldable pub baseline_reply :
    (kem_pub : Option String) → (request_id responder_peer : String) → CapacityReply
baseline_reply kem_pub request_id responder_peer = record {
  ok = true;
  cpu_milli = 1000;
  memory_bytes = 1024 * 1024 * 512;
  storage_bytes = 1024 * 1024 * 1024;
  request_id = request_id;
  responder_peer = responder_peer;
  region = "local";
  capabilities = "default" ∷ [];
  kem_pub_b64 = kem_pub;
}

-- `compose_capacity_reply` with the amounts of a check
unfoldable pub capacity_reply :
    (kem_pub : Option String)
    → (request_id responder_peer : String) → CapacityCheckResult
    → CapacityReply
unfolding baseline_reply
capacity_reply kem_pub request_id responder_peer check =
    record (baseline_reply kem_pub request_id responder_peer) {
      ok = true;
      cpu_milli = check.available_cpu_milli;
      memory_bytes = check.available_memory_bytes;
      storage_bytes = check.available_storage_bytes;
    }

-- the request that the verifier is asked about
unfoldable pub resource_request : CapacityRequest → ResourceRequest
resource_request cap_req =
    new_request (some cap_req.cpu_milli) (some cap_req.memory_bytes) (some cap_req.storage_bytes)
      cap_req.replicas

-- the clocks of a bid: of the envelope check, the wall clock, and those of the verifier's calls
pub record BidClock : Type 0 where
  pub nonce_clock : ℕ
  pub now_ms : ℕ
  pub t_verify : ℕ
  pub t_prune : ℕ
  pub t_hold : ℕ

unfoldable pub reserved_bid :
    CapacityReply
    → ResourceVerifier × Result (Unit {0}) Shortage
    → ResourceVerifier × Option CapacityReply
reserved_bid reply (v, ok _) = (v, some reply)
reserved_bid reply (v, err _) = (v, none)

-- The check, and the reservation behind it. Without capacity there is no reply.
unfoldable pub bid_checked :
    BidClock
    → (kem_pub : Option String) → (local_peer manifest_id request_id : String) → ResourceRequest
    → ResourceVerifier × CapacityCheckResult
    → ResourceVerifier × Option CapacityReply
unfolding reserved_bid capacity_reply
bid_checked at kem_pub local_peer manifest_id request_id request (v, check) =
    if check.has_capacity
    then reserved_bid (capacity_reply kem_pub request_id local_peer check)
        (reserve_capacity v at.t_prune at.t_hold request_id (some manifest_id) request)
    else (v, none)

unfoldable pub bid_for :
    BidClock
    → (kem_pub : Option String) → (local_peer : String) → CapacityRequest
    → (manifest_id : Option String) → ResourceVerifier
    → ResourceVerifier × Option CapacityReply
bid_for at kem_pub local_peer cap_req none v = (v, none)
bid_for at kem_pub local_peer cap_req (some manifest_id) v =
    bid_checked at kem_pub local_peer manifest_id (unwrap_or cap_req.request_id "")
      (resource_request cap_req) (verify_capacity v at.t_verify (resource_request cap_req))

-- a request that is too old is dropped
unfoldable pub bid :
    BidClock
    → (kem_pub : Option String) → (local_peer : String) → (timestamp_ms : ℕ) → CapacityRequest
    → ResourceVerifier
    → ResourceVerifier × Option CapacityReply
bid at kem_pub local_peer timestamp_ms cap_req v =
    if ltb free_capacity_timeout_ms (at.now_ms - timestamp_ms)
    then (v, none)
    else bid_for at kem_pub local_peer cap_req
        (extract_manifest_id_from_request_id (unwrap_or cap_req.request_id "")) v

-- what a handler sends: a reply, or a line to the waiting queries
pub data Sent : Type 0 where
  nothing : Sent
  replied : CapacityReply → Sent
  told : List (ℕ × String) → Sent

unfoldable pub sent_reply : Option CapacityReply → Sent
sent_reply none = nothing
sent_reply (some reply) = replied reply

unfoldable pub bid_as_node :
    {W : Type 0}
    → BidClock
    → (kem_pub : Option String) → (local_peer : String) → (timestamp_ms : ℕ) → CapacityRequest
    → Node W
    → Node W × Sent
unfolding sent_reply
bid_as_node at kem_pub local_peer timestamp_ms cap_req n =
    let (v, reply) = bid at kem_pub local_peer timestamp_ms cap_req n.verifier in
    (record n { verifier = v }, sent_reply reply)

module _ {Y W : Type 0} (lib : Libraries Y) (at : BidClock) (kem_pub : Option String) where
  unfoldable pub scheduler_parsed :
      (local_peer : String) → (timestamp_ms : ℕ) → Option CapacityRequest → Node W → Node W × Sent
  unfolding bid_as_node
  scheduler_parsed local_peer timestamp_ms none n = (n, nothing)
  scheduler_parsed local_peer timestamp_ms (some cap_req) n =
      bid_as_node at kem_pub local_peer timestamp_ms cap_req n

  unfoldable pub scheduler_verified :
      (local_peer : String) → Option VerifiedEnvelopeParts → Node W → Node W × Sent
  unfolding scheduler_parsed
  scheduler_verified local_peer none n = (n, nothing)
  scheduler_verified local_peer (some parts) n =
      scheduler_parsed local_peer parts.timestamp_ms (lib.root_as_capacity_request parts.payload) n

  -- a scheduler request; a node whose scheduling is disabled does not even check it
  unfoldable pub scheduler_request :
      (disabled : Bool) → (bytes : Bytes) → (peer local_peer : String) → Node W → Node W × Sent
  unfolding verify_signed_message scheduler_verified
  scheduler_request disabled bytes peer local_peer n =
      if disabled
      then (n, nothing)
      else let (nonces', verified) =
          verify_signed_message lib.prim at.nonce_clock n.nonces peer bytes in
        scheduler_verified local_peer verified (record n { nonces = nonces' })

  -- a gossip message: a request is bid on, and a reply is passed on to the queries that wait
  unfoldable pub gossip_parsed :
      (peer local_peer : String)
      → HashMap (List ℕ)
      → (timestamp_ms : ℕ) → Option CapacityRequest
      → Option CapacityReplyTable
      → Node W
      → Node W × Sent
  unfolding bid_as_node notify_capacity_observers
  gossip_parsed peer local_peer pending ts (some cap_req) reply n =
      bid_as_node at kem_pub local_peer ts cap_req n
  gossip_parsed peer local_peer pending ts none (some reply) n =
      (n, told (notify_capacity_observers pending (unwrap_or reply.request_id "") peer))
  gossip_parsed peer local_peer pending ts none none n = (n, nothing)

  unfoldable pub gossip_verified :
      (peer local_peer : String)
      → HashMap (List ℕ)
      → Option VerifiedEnvelopeParts
      → Node W
      → Node W × Sent
  unfolding gossip_parsed
  gossip_verified peer local_peer pending none n = (n, nothing)
  gossip_verified peer local_peer pending (some parts) n =
      gossip_parsed peer local_peer pending parts.timestamp_ms
        (lib.root_as_capacity_request parts.payload) (lib.root_as_capacity_reply parts.payload) n

  unfoldable pub gossipsub_message :
      (bytes : Bytes) → (peer local_peer : String) → HashMap (List ℕ) → Node W → Node W × Sent
  unfolding verify_signed_message gossip_verified
  gossipsub_message bytes peer local_peer pending n =
      let (nonces', verified) = verify_signed_message lib.prim at.nonce_clock n.nonces peer bytes in
      gossip_verified peer local_peer pending verified (record n { nonces = nonces' })

-- the line that a reply to a scheduler request gives the waiting queries: the peer and its key
unfoldable pub scheduler_response :
    {Y : Type 0} → Libraries Y → (bytes : Bytes) → (peer : String) → HashMap (List ℕ) → Sent
unfolding notify_capacity_observers
scheduler_response lib bytes peer pending = elim (lib.root_as_capacity_reply bytes) [
  | none ↦ nothing
  | some reply ↦ told (
      notify_capacity_observers pending (unwrap_or reply.request_id "")
        (append peer (append ":" (unwrap_or reply.kem_pubkey ""))))
]
