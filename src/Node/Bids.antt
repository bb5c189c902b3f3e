-- ===== src/Node/Bids.antt =====
-- What a node promises with a bid, and what an apply request finds of it: scheduler_message.rs,
-- gossipsub_message.rs and workload_integration.rs together.
use beemesh.Prelude.{
  ap, ◌∙◌, ℕ, ◌+◌, ◌-◌, ◌≤◌, ◌<◌, Bytes, ◌≡◌, ◌≢◌, refl, inl, inr, String, Bool, true, false,
  Bool-cases, Option, none, some, List, Result, ok, err, arith, ltb, unwrap_or,
}
use beemesh.HashMap.{HashMap}
use beemesh.Envelope.{VerifiedEnvelopeParts}
use beemesh.Resources.{
  ResourceRequest, ResourceVerifier, CapacityCheckResult, Shortage, verify_capacity,
  reserve_capacity, has_active_reservation_for_manifest, reservation_hold_duration,
}
use beemesh.Resources.Reserve.{has_active-reserve_capacity}
use beemesh.Node.{
  ApplyRequest, CapacityRequest, CapacityReplyTable, Libraries, Node, Moment, verify_signed_message,
}
use beemesh.Node.Deployment.{Deploy, process_manifest_deployment}
use beemesh.Node.Apply.{apply_manifest, deploy_reserved, deployment_reply}
use beemesh.Node.Takeover.{apply_manifest_reserved}
use beemesh.Node.Bidding.{
  CapacityReply, BidClock, replied, sent_reply, free_capacity_timeout_ms,
  extract_manifest_id_from_request_id, capacity_reply, resource_request, reserved_bid, bid_checked,
  bid_for, bid, bid_as_node, scheduler_verified, scheduler_parsed, gossip_verified, gossip_parsed,
  scheduler_request, gossipsub_message,
}

reserved_bid-reply :
    (r reply : CapacityReply) (p : ResourceVerifier × Result (Unit {0}) Shortage)
    → (reserved_bid r p).1 ≡ some reply
    → (p.1 ≡ ok tt) × ((reserved_bid r p).0 ≡ p.0) × (reply.request_id ≡ r.request_id)
unfolding reserved_bid
reserved_bid-reply r reply (v, ok x) h = (refl, refl, cc)
reserved_bid-reply r reply (v, err e) h = cc

module _ (at : BidClock) (kem_pub : Option String) (local_peer : String) where
  -- the manifest is reserved at the time
  abbrev pub IsReserved : (t : ℕ) → String → ResourceVerifier → Type 0
  IsReserved t m v = (has_active_reservation_for_manifest v t m).1 ≡ true

  bid_checked_holds :
      (t : ℕ) (m id : String) (request : ResourceRequest)
      (c : ResourceVerifier × CapacityCheckResult) (reply : CapacityReply)
      → t < at.t_hold + reservation_hold_duration
      → (bid_checked at kem_pub local_peer m id request c).1 ≡ some reply
      → IsReserved t m (bid_checked at kem_pub local_peer m id request c).0
  unfolding bid_checked
  bid_checked_holds t m id request (v, check) reply early h = elim (Bool-cases check.has_capacity) [
    | inl room ↦
        let p = reserve_capacity v at.t_prune at.t_hold id (some m) request in
        let h = rw room at h in
        let (done, same, _) =
          reserved_bid-reply (capacity_reply kem_pub id local_peer check) reply p h in
        rw (room, same)
          (has_active-reserve_capacity v at.t_prune at.t_hold id (some m) request m t refl done
            early)
    | inr full ↦ let h = rw full at h in cc
  ]

  -- the reply bears the id that it was asked with
  bid_checked-id :
      (m id : String) (request : ResourceRequest) (c : ResourceVerifier × CapacityCheckResult)
      (reply : CapacityReply)
      → (bid_checked at kem_pub local_peer m id request c).1 ≡ some reply
      → reply.request_id ≡ id
  unfolding bid_checked
  bid_checked-id m id request (v, check) reply h = elim (Bool-cases check.has_capacity) [
    | inl room ↦
        let p = reserve_capacity v at.t_prune at.t_hold id (some m) request in
        let h = rw room at h in
        (reserved_bid-reply (capacity_reply kem_pub id local_peer check) reply p h).2
    | inr full ↦ let h = rw full at h in cc
  ]

  bid_for_holds :
      (t : ℕ) (req : CapacityRequest) (named : Option String) (v : ResourceVerifier)
      (reply : CapacityReply)
      → t < at.t_hold + reservation_hold_duration
      → (bid_for at kem_pub local_peer req named v).1 ≡ some reply
      → (m : String) × (named ≡ some m)
        × (reply.request_id ≡ unwrap_or req.request_id "")
        × IsReserved t m (bid_for at kem_pub local_peer req named v).0
  unfolding bid_for
  bid_for_holds t req none v reply early h = cc
  bid_for_holds t req (some m) v reply early h =
      let id = unwrap_or req.request_id "" in
      let c = verify_capacity v at.t_verify (resource_request req) in
      (
        m,
        refl,
        bid_checked-id m id (resource_request req) c reply h,
        bid_checked_holds t m id (resource_request req) c reply early h,
      )

  -- A bid is made only on a request that is at most half a second old and names a manifest, and it
  -- holds what it promises: until the hold duration is over, the manifest has a reservation.
  pub bid_holds :
      (t timestamp_ms : ℕ) (req : CapacityRequest) (v : ResourceVerifier) (reply : CapacityReply)
      → t < at.t_hold + reservation_hold_duration
      → (bid at kem_pub local_peer timestamp_ms req v).1 ≡ some reply
      → (at.now_ms - timestamp_ms ≤ free_capacity_timeout_ms)
        × ((m : String) × (extract_manifest_id_from_request_id reply.request_id ≡ some m)
            × IsReserved t m (bid at kem_pub local_peer timestamp_ms req v).0)
  unfolding bid
  bid_holds t timestamp_ms req v reply early h =
      elim (Bool-cases (ltb free_capacity_timeout_ms (at.now_ms - timestamp_ms))) [
        | inl stale ↦ let h = rw stale at h in cc
        | inr fresh ↦
            let h = rw fresh at h in
            let (m, named, same_id, held) =
              bid_for_holds t req
                (extract_manifest_id_from_request_id (unwrap_or req.request_id "")) v reply early
                h in
            rw fresh (ground arith, (m, rw same_id named, held))
      ]

sent_reply-replied :
    (o : Option CapacityReply) (reply : CapacityReply)
    → sent_reply o ≡ replied reply
    → o ≡ some reply
unfolding sent_reply
sent_reply-replied none reply h = cc
sent_reply-replied (some r) reply h = cc

-- A manifest has a reservation on a node at the time of an apply request.
abbrev pub ReservedAt : {W : Type 0} → ℕ → String → Node W → Type 0
ReservedAt t m n = (has_active_reservation_for_manifest n.verifier t m).1 ≡ true

bid_as_node_holds :
    {W : Type 0} (at : BidClock) (kem_pub : Option String) (local_peer : String)
    (t timestamp_ms : ℕ) (req : CapacityRequest) (n : Node W) (reply : CapacityReply)
    → t < at.t_hold + reservation_hold_duration
    → (bid_as_node at kem_pub local_peer timestamp_ms req n).1 ≡ replied reply
    → (at.now_ms - timestamp_ms ≤ free_capacity_timeout_ms)
      × ((m : String) × (extract_manifest_id_from_request_id reply.request_id ≡ some m)
          × ReservedAt t m (bid_as_node at kem_pub local_peer timestamp_ms req n).0)
unfolding bid_as_node
bid_as_node_holds at kem_pub local_peer t timestamp_ms req n reply early h =
    bid_holds at kem_pub local_peer t timestamp_ms req n.verifier reply early
      (sent_reply-replied (bid at kem_pub local_peer timestamp_ms req n.verifier).1 reply h)

-- the request is at most half a second old, and its manifest is reserved on the node
abbrev pub Promised :
    {W : Type 0} → BidClock → (t : ℕ) → CapacityReply → (timestamp_ms : ℕ) → Node W → Type 0
Promised at t reply timestamp_ms n =
    (at.now_ms - timestamp_ms ≤ free_capacity_timeout_ms)
    × ((m : String) × (extract_manifest_id_from_request_id reply.request_id ≡ some m)
        × ReservedAt t m n)

module _ {Y W : Type 0} (lib : Libraries Y) (at : BidClock) (kem_pub : Option String)
    (bytes : Bytes) (peer local_peer : String) (t : ℕ) (reply : CapacityReply)
    (early : t < at.t_hold + reservation_hold_duration) where
  scheduler_parsed_holds :
      (ts : ℕ) (parsed : Option CapacityRequest) (n : Node W)
      → (scheduler_parsed lib at kem_pub local_peer ts parsed n).1 ≡ replied reply
      → Promised at t reply ts (scheduler_parsed lib at kem_pub local_peer ts parsed n).0
  unfolding scheduler_parsed
  scheduler_parsed_holds ts none n h = cc
  scheduler_parsed_holds ts (some req) n h =
      bid_as_node_holds at kem_pub local_peer t ts req n reply early h

  scheduler_verified_holds :
      (verified : Option VerifiedEnvelopeParts) (n : Node W)
      → (scheduler_verified lib at kem_pub local_peer verified n).1 ≡ replied reply
      → (parts : VerifiedEnvelopeParts) × (verified ≡ some parts)
        × Promised at t reply parts.timestamp_ms
            (scheduler_verified lib at kem_pub local_peer verified n).0
  unfolding scheduler_verified
  scheduler_verified_holds none n h = cc
  scheduler_verified_holds (some parts) n h = (
    parts,
    refl,
    scheduler_parsed_holds parts.timestamp_ms (lib.root_as_capacity_request parts.payload) n h,
  )

  gossip_parsed_holds :
      (pending : HashMap (List ℕ)) (ts : ℕ) (parsed : Option CapacityRequest)
      (table : Option CapacityReplyTable) (n : Node W)
      → (gossip_parsed lib at kem_pub peer local_peer pending ts parsed table n).1 ≡ replied reply
      → Promised at t reply ts
          (gossip_parsed lib at kem_pub peer local_peer pending ts parsed table n).0
  unfolding gossip_parsed
  gossip_parsed_holds pending ts (some req) table n h =
      bid_as_node_holds at kem_pub local_peer t ts req n reply early h
  gossip_parsed_holds pending ts none (some table) n h = cc
  gossip_parsed_holds pending ts none none n h = cc

  gossip_verified_holds :
      (pending : HashMap (List ℕ)) (verified : Option VerifiedEnvelopeParts) (n : Node W)
      → (gossip_verified lib at kem_pub peer local_peer pending verified n).1 ≡ replied reply
      → (parts : VerifiedEnvelopeParts) × (verified ≡ some parts)
        × Promised at t reply parts.timestamp_ms
            (gossip_verified lib at kem_pub peer local_peer pending verified n).0
  unfolding gossip_verified
  gossip_verified_holds pending none n h = cc
  gossip_verified_holds pending (some parts) n h = (
    parts,
    refl,
    gossip_parsed_holds pending parts.timestamp_ms (lib.root_as_capacity_request parts.payload)
        (lib.root_as_capacity_reply parts.payload) n h,
  )

  -- A node that answers a scheduler request has scheduling enabled, has checked the request's
  -- envelope, and holds a reservation for the manifest that the reply's id names, until the hold
  -- duration is over.
  pub scheduler_request_holds :
      (disabled : Bool) (n : Node W)
      → (scheduler_request lib at kem_pub disabled bytes peer local_peer n).1 ≡ replied reply
      → (disabled ≡ false)
        × ((parts : VerifiedEnvelopeParts) × ((verify_signed_message lib.prim at.nonce_clock
                n.nonces peer bytes).1
              ≡ some parts)
            × Promised at t reply parts.timestamp_ms
                (scheduler_request lib at kem_pub disabled bytes peer local_peer n).0)
  unfolding scheduler_request
  scheduler_request_holds true n h = cc
  scheduler_request_holds false n h = (
    refl,
    scheduler_verified_holds (verify_signed_message lib.prim at.nonce_clock n.nonces peer bytes).1
        (record n {
          nonces = (verify_signed_message lib.prim at.nonce_clock n.nonces peer bytes).0;
        })
        h,
  )

  -- A gossip message that a node answers with a bid has passed the same checks, and the reservation
  -- is held in the same way.
  pub gossipsub_message_holds :
      (pending : HashMap (List ℕ)) (n : Node W)
      → (gossipsub_message lib at kem_pub bytes peer local_peer pending n).1 ≡ replied reply
      → (parts : VerifiedEnvelopeParts) × ((verify_signed_message lib.prim at.nonce_clock n.nonces
            peer bytes).1
          ≡ some parts)
        × Promised at t reply parts.timestamp_ms
            (gossipsub_message lib at kem_pub bytes peer local_peer pending n).0
  unfolding gossipsub_message
  gossipsub_message_holds pending n h =
      gossip_verified_holds pending
        (verify_signed_message lib.prim at.nonce_clock n.nonces peer bytes).1
        (record n {
          nonces = (verify_signed_message lib.prim at.nonce_clock n.nonces peer bytes).0;
        })
        h

same_name : {o : Option String} (m id : String) → o ≡ some m → o ≡ some id → m ≡ id
same_name m id p q = cc

-- Within the hold duration of a bid, an apply request for the manifest of the bid passes the check
-- for a reservation, on the node after the bid and on every later one whose verifier is still as
-- the bid left it: the request does to the node what the deployment does, and it is answered as the
-- deployment ends, which may fail.
pub apply_manifest-bid_as_node :
    {Y W : Type 0} (lib : Libraries Y) (at : BidClock) (moment : Moment) (mock : Option (Deploy W))
    (kem_pub : Option String) (local_peer : String) (timestamp_ms : ℕ) (req : CapacityRequest)
    (n later : Node W) (reply : CapacityReply) (apply_req : ApplyRequest) (json id : String)
    (key : Bytes)
    → (bid_as_node at kem_pub local_peer timestamp_ms req n).1 ≡ replied reply
    → later.verifier ≡ (bid_as_node at kem_pub local_peer timestamp_ms req n).0.verifier
    → extract_manifest_id_from_request_id reply.request_id ≡ some id
    → id ≢ ""
    → moment.instant < at.t_hold + reservation_hold_duration
    → let (deployed, answer) =
        process_manifest_deployment lib moment mock apply_req json key (record later {
          verifier = (has_active_reservation_for_manifest later.verifier moment.instant id).0;
        }) in
      apply_manifest lib moment mock apply_req json id key later
      ≡ (deployed, deployment_reply answer)
unfolding deploy_reserved
apply_manifest-bid_as_node lib at moment mock kem_pub local_peer timestamp_ms req n later reply
      apply_req json id key answered unchanged named nonempty early =
    let (young, (m, m_named, held)) =
      bid_as_node_holds at kem_pub local_peer moment.instant timestamp_ms req n reply early
        answered in
    let same : m ≡ id = same_name m id m_named named in
    let reserved = rw same at held in
    apply_manifest_reserved lib moment mock apply_req json id key later nonempty
      (ap (λ v. (has_active_reservation_for_manifest v moment.instant id).1) unchanged ∙ reserved)
