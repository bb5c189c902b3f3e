-- ===== src/Provider/Local.antt =====
-- The manager as a whole: the states that its operations reach, and what a client can rely on.
use beemesh.Prelude.{
  ℕ, ◌≤◌, ◌≡◌, refl, String, true, [], arith, max, Result, eq_iff, Bool-cases, inl, inr, unwrap_or,
  length, is_empty, List, [], ◌∷◌, ◌++◌, map, All, ◌⊎◌,
}
use beemesh.HashMap.{HashMap, get, contains_key}
use beemesh.HashMap.Laws.{get-insert}
use beemesh.Provider.{
  PeerId, ProviderInfo, ProviderManager, ProviderConfig, QueryOutcome, received, closed, timed_out,
  new_manager, announce_provider, stop_providing, discover_providers, finish_query,
  handle_provider_found, cleanup_expired_providers, valid_providers,
}
use beemesh.Provider.Remote.{
  ListsValid, OnePerPeer, get-ListsValid, insert-ListsValid, cleanup_lists-ListsValid,
  record_provider-valid,
}

-- what was sent through channels so far, the newest first
abbrev pub Sent : Type 0
Sent = List (ℕ × List ProviderInfo)

-- a list of providers was sent through some channel
abbrev pub WasSent : List ProviderInfo → Sent → Type 0
WasSent ps [] = ⊥
WasSent ps ((_, qs) ∷ sent) = (ps ≡ qs) ⊎ WasSent ps sent

-- a wait for an answer ends with what was sent, or without an answer
abbrev pub CanEnd : QueryOutcome → Sent → Type 0
CanEnd (received ps) sent = WasSent ps sent
CanEnd closed sent = Unit
CanEnd timed_out sent = Unit

-- One operation of the manager, with what its surroundings decide, and what is sent by it.
pub data Step (sent : Sent) : ProviderManager → ProviderManager → Sent → Type 0 where
  announced :
      {m : ProviderManager} (t_announced t_seen : ℕ) (dht : Result (Unit {0}) String)
      (local_peer_id : PeerId) (manifest_id : String) (metadata : HashMap String)
      → Step sent m
          (announce_provider t_announced t_seen dht local_peer_id manifest_id metadata m).0
          sent
  stopped :
      {m : ProviderManager} (manifest_id : String)
      → Step sent m (stop_providing manifest_id m).0 sent
  queried :
      {m : ProviderManager} (now channel : ℕ) (manifest_id : String)
      → Step sent m (discover_providers now channel manifest_id m).0 sent
  answered :
      {m : ProviderManager} (outcome : QueryOutcome) (manifest_id : String)
      → CanEnd outcome sent
      → Step sent m (finish_query outcome manifest_id m).0 sent
  found :
      {m : ProviderManager} (t_announced t_seen t_again : ℕ) (manifest_id : String) (peer : PeerId)
      → Step sent m
          (handle_provider_found t_announced t_seen t_again manifest_id peer m).0
          ((handle_provider_found t_announced t_seen t_again manifest_id peer m).1 ++ sent)
  cleaned : {m : ProviderManager} (now : ℕ) → Step sent m (cleanup_expired_providers now m) sent

pub data Reach (config : ProviderConfig) : ProviderManager → Sent → Type 0 where
  start : Reach config (new_manager config) []
  next :
      {m n : ProviderManager} {sent more : Sent}
      → Reach config m sent
      → Step sent m n more
      → Reach config n more

-- one entry for each peer, and no more than the bound
abbrev pub ListValid : ℕ → List ProviderInfo → Type 0
ListValid bound ps = OnePerPeer ps × (length ps ≤ max bound 1)

pub record IsValid (config : ProviderConfig) (m : ProviderManager) (sent : Sent) : Type 0 where
  pub same_config : m.config ≡ config
  pub lists : ListsValid m.config.max_providers_per_manifest m.remote_providers
  pub messages : All (λ c. ListValid m.config.max_providers_per_manifest c.1) sent

sent_lists_are_valid :
    (bound : ℕ) (ps : List ProviderInfo) (sent : Sent)
    → All (λ c. ListValid bound c.1) sent
    → WasSent ps sent
    → ListValid bound ps
sent_lists_are_valid bound ps [] h k = absurd k
sent_lists_are_valid bound ps ((c, qs) ∷ sent) h (inl same) = rw same h.0
sent_lists_are_valid bound ps ((c, qs) ∷ sent) h (inr later) =
    sent_lists_are_valid bound ps sent h.1 later

to_each-valid :
    (bound : ℕ) (ps : List ProviderInfo) (waiting : List ℕ) (sent : Sent)
    → ListValid bound ps
    → All (λ c. ListValid bound c.1) sent
    → All (λ c. ListValid bound c.1) (map (λ channel. (channel, ps)) waiting ++ sent)
to_each-valid bound ps [] sent v h = h
to_each-valid bound ps (channel ∷ waiting) sent v h = (v, to_each-valid bound ps waiting sent v h)

found-valid :
    (t_announced t_seen t_again : ℕ) (manifest_id : String) (peer : PeerId) (m : ProviderManager)
    (sent : Sent)
    → ListsValid m.config.max_providers_per_manifest m.remote_providers
    → All (λ c. ListValid m.config.max_providers_per_manifest c.1) sent
    → ListsValid m.config.max_providers_per_manifest
        (handle_provider_found t_announced t_seen t_again manifest_id peer m).0.remote_providers
      × All
          (λ c. ListValid m.config.max_providers_per_manifest c.1)
          ((handle_provider_found t_announced t_seen t_again manifest_id peer m).1 ++ sent)
unfolding handle_provider_found
found-valid t_announced t_seen t_again manifest_id peer m sent h k =
    let bound = m.config.max_providers_per_manifest in
    let old = get-ListsValid bound manifest_id m.remote_providers h in
    let v =
      record_provider-valid bound t_again _ (unwrap_or (get manifest_id m.remote_providers) [])
        old.0 old.1 in
    (
      insert-ListsValid bound manifest_id _ m.remote_providers v h,
      to_each-valid bound _ (unwrap_or (get manifest_id m.pending_queries) []) sent v k,
    )

Step-IsValid :
    {config : ProviderConfig} {m n : ProviderManager} {sent more : Sent}
    → Step sent m n more
    → IsValid config m sent
    → IsValid config n more
unfolding announce_provider stop_providing discover_providers finish_query cleanup_expired_providers
Step-IsValid (announced a b dht peer k metadata) v = record {
  same_config = v.same_config;
  lists = v.lists;
  messages = v.messages;
}
Step-IsValid (stopped {m} k) v = elim (Bool-cases (contains_key k m.local_providers)) [
  | inl there ↦
      rw there (record { same_config = v.same_config; lists = v.lists; messages = v.messages })
  | inr absent ↦ rw absent v
]
Step-IsValid (queried {m} now channel k) v =
    elim (Bool-cases (is_empty (valid_providers now k m))) [
      | inl miss ↦
          rw miss (record { same_config = v.same_config; lists = v.lists; messages = v.messages })
      | inr hit ↦ rw hit v
    ]
Step-IsValid {sent = sent} (answered {m} (received ps) k o) v = record {
  same_config = v.same_config;
  lists =
      insert-ListsValid m.config.max_providers_per_manifest k ps m.remote_providers
        (sent_lists_are_valid m.config.max_providers_per_manifest ps sent v.messages o) v.lists;
  messages = v.messages;
}
Step-IsValid (answered closed k o) v = v
Step-IsValid (answered timed_out k o) v = v
Step-IsValid {sent = sent} (found {m} a b c k peer) v =
    let (lists, messages) = found-valid a b c k peer m sent v.lists v.messages in
    record {
      same_config = unfold handle_provider_found in v.same_config;
      lists = unfold handle_provider_found in lists;
      messages = unfold handle_provider_found in messages;
    }
Step-IsValid (cleaned {m} now) v = record {
  same_config = v.same_config;
  lists =
      cleanup_lists-ListsValid m.config.max_providers_per_manifest now m.remote_providers v.lists;
  messages = v.messages;
}

-- In every state that the manager's operations reach from a new manager, where a wait for providers
-- ends only with a list that was sent, no manifest lists a peer twice, and no list is longer than
-- the configured bound, or one if the bound is zero. The same holds of every list that was sent.
pub Reach-IsValid :
    {config : ProviderConfig} {m : ProviderManager} {sent : Sent}
    → Reach config m sent
    → IsValid config m sent
unfolding new_manager
Reach-IsValid start = record { same_config = refl; lists = tt; messages = tt }
Reach-IsValid (next r s) = Step-IsValid s (Reach-IsValid r)

pub announce_provider-provides :
    (t_announced t_seen : ℕ) (dht : Result (Unit {0}) String) (local_peer_id : PeerId)
    (manifest_id : String) (metadata : HashMap String) (m : ProviderManager)
    → contains_key manifest_id
        (announce_provider t_announced t_seen dht local_peer_id manifest_id metadata
          m).0.local_providers
      ≡ true
unfolding announce_provider
announce_provider-provides t_announced t_seen dht local_peer_id manifest_id metadata m =
    rw get-insert (ground (arith, eq_iff manifest_id manifest_id))
