-- ===== src/Rest/Forwarding.antt =====
-- machineplane/machine/src/restapi/mod.rs: requests that are passed on to other nodes, the search
-- for candidates and the direct apply.
use Prim.Native.String.{◌++◌ as append}
use beemesh.Prelude.{
  ℕ, not, ◌-◌, ltb, ◌==◌, ◌&&◌, Bytes, String, Bool, true, false, Option, none, some, List, [], ◌∷◌,
  ◌++◌, Result, ok, err, str_eq, leb, if◌then◌else◌, length, any,
}
use beemesh.Text.{codes}
use beemesh.Text.Affixes.{before, after}
use beemesh.Rest.{
  EnvelopeMetadata, Reply, Answer, apply_response, candidates_response,
  create_response_with_fallback, create_response_for_envelope_metadata,
}
use beemesh.Rest.Deletion.{Control, Received, received, closed, timed_out}

-- the bytes of a code point in UTF-8
unfoldable pub utf8_length : (c : ℕ) → ℕ
utf8_length c = if ltb c 128 then 1 else if ltb c 2048 then 2 else if ltb c 65536 then 3 else 4

-- whether `[..bytes]` gives a part of the text, and is no panic
unfoldable pub can_cut : (bytes : ℕ) → (text : List ℕ) → Bool
unfolding utf8_length
can_cut bytes [] = bytes == 0
can_cut bytes (c ∷ cs) =
    let more = can_cut (bytes - utf8_length c) cs in
    if bytes == 0 then true else if leb (utf8_length c) bytes then more else false

-- The loop over what is received until the time is up, when the list ends: five different
-- responders are enough. Where the level `info` is logged, a line cuts each text that is received at
-- 16 bytes; `none` is the panic of that.
unfoldable pub collect :
    (info_logged : Bool)
    → List (Received String)
    → (responders : List String) → Option (List String)
unfolding can_cut
collect info [] responders = some responders
collect info (closed ∷ rest) responders = some responders
collect info (timed_out ∷ rest) responders = some responders
collect info (received peer ∷ rest) responders =
    let known = collect info rest responders in
    let more = collect info rest (responders ++ peer ∷ []) in
    if info && not (can_cut 16 (codes peer))
    then none
    else if any (λ r. str_eq r peer) responders
    then known
    else if leb 5 (length (responders ++ peer ∷ []))
    then some (responders ++ peer ∷ [])
    else more

-- the peer and its key, where there is a key
unfoldable pub candidate : (peer_with_key : String) → List (String × String)
unfolding before after
candidate peer_with_key = elim (after ":" peer_with_key) [
  | none ↦ []
  | some pubkey ↦ if str_eq pubkey "" then [] else (before ":" peer_with_key, pubkey) ∷ []
]

unfoldable pub candidates : (responders : List String) → List (String × String)
unfolding candidate
candidates [] = []
candidates (r ∷ rs) = candidate r ++ candidates rs

-- `replies`: what the reply channel gives of the capacity query
unfoldable pub get_candidates :
    (info_logged : Bool)
    → (encrypts : Bytes → Bool) → (replies : List (Received String)) → EnvelopeMetadata
    → Option Answer
unfolding collect candidates create_response_for_envelope_metadata
get_candidates info encrypts replies metadata = elim (collect info replies []) [
  | none ↦ none
  | some responders ↦ some (
      create_response_for_envelope_metadata encrypts
        (candidates_response true (candidates responders)) metadata)
]

unfoldable pub forwarded : Option (Received (Result String String)) → Reply
forwarded none = apply_response false "unknown" "Failed to forward request to libp2p"
forwarded (some (received (ok _))) =
    apply_response true "forwarded" "Request forwarded successfully"
forwarded (some (received (err e))) = apply_response false "forwarded" (append "Forward failed: " e)
forwarded (some closed) = apply_response false "forwarded" "Timeout waiting for peer response"
forwarded (some timed_out) = apply_response false "forwarded" "Timeout waiting for peer response"

unfoldable pub apply_to : Control → (peer_id : String) → Bytes → Option String → Reply
unfolding forwarded
apply_to c peer_id manifest (some e) = apply_response false "unknown" (append "Invalid peer ID: " e)
apply_to c peer_id manifest none = forwarded (c.ask_apply peer_id manifest)

unfoldable pub apply_direct : Control → (peer_id : String) → (body : Bytes) → Answer
unfolding apply_to create_response_with_fallback
apply_direct c peer_id body =
    create_response_with_fallback (apply_to c peer_id body (c.peer_error peer_id))
