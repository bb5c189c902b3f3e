-- ===== src/Provider.antt =====
-- machineplane/machine/src/provider/mod.rs: which nodes host which manifests.
-- A libp2p `PeerId` is its text. A `SystemTime` is a number of nanoseconds since the epoch, and each
-- reading of the clock is an argument. The swarm's answer to a call is an argument; what is sent
-- into channels is part of the result.
pub mod Remote
pub mod Local
pub mod Queries
pub mod Announcements
pub mod Discovery
mod Tests
use beemesh.Prelude.{
  ℕ, zero, suc, ◌+◌, ◌-◌, ◌/◌, String, Bool, true, false, not, Option, none, some, List, [], ◌∷◌,
  ◌++◌, map, Result, ok, err, ◌>>=◌, leb, ltb, str_eq, if◌then◌else◌, unwrap_or, length, filter,
  any, is_empty,
}
use beemesh.HashMap.{HashMap, get, insert, remove, retain, modify, contains_key, keys, values}

abbrev pub PeerId : Type 0
PeerId = String

pub data ProviderError : Type 0 where
  dht_error network_error provider_not_found : String → ProviderError
  timeout : ProviderError

abbrev pub ProviderResult : Type 0 → Type 0
ProviderResult A = Result A ProviderError

pub record ProviderInfo : Type 0 where
  pub peer_id : PeerId
  pub manifest_id : String
  pub announced_at : ℕ
  pub last_seen : ℕ
  pub ttl_seconds : ℕ
  pub metadata : HashMap String

abbrev pub second : ℕ
second = 1_000_000_000

-- An announcement from the future has no elapsed time, and counts as expired.
pub is_expired : (now : ℕ) → ProviderInfo → Bool
is_expired now p =
    if leb p.announced_at now then ltb p.ttl_seconds ((now - p.announced_at) / second) else true

pub update_last_seen : (now : ℕ) → ProviderInfo → ProviderInfo
update_last_seen now p = record p { last_seen = now }

pub record ProviderConfig : Type 0 where
  pub default_ttl_seconds : ℕ
  pub reannounce_interval_seconds : ℕ
  pub cleanup_interval_seconds : ℕ
  pub max_providers_per_manifest : ℕ
  pub discovery_timeout_seconds : ℕ

abbrev pub default_provider_config : ProviderConfig
default_provider_config = record {
  default_ttl_seconds = 3600;
  reannounce_interval_seconds = 1800;
  cleanup_interval_seconds = 300;
  max_providers_per_manifest = 50;
  discovery_timeout_seconds = 30;
}

-- a pending query's channel is known by a number
pub record ProviderManager : Type 0 where
  pub local_providers : HashMap ProviderInfo
  pub remote_providers : HashMap (List ProviderInfo)
  pub pending_queries : HashMap (List ℕ)
  pub config : ProviderConfig

-- `ProviderManager::new`
unfoldable pub new_manager : ProviderConfig → ProviderManager
new_manager config = record {
  local_providers = [];
  remote_providers = [];
  pending_queries = [];
  config = config;
}

-- the answer of Kademlia's `start_providing`
unfoldable pub announce_via_dht : (dht : Result (Unit {0}) String) → ProviderResult (Unit {0})
announce_via_dht (ok _) = ok tt
announce_via_dht (err e) = err (dht_error e)

unfoldable pub announce_provider :
    (t_announced t_seen : ℕ)
    → (dht : Result (Unit {0}) String) → (local_peer_id : PeerId) → (manifest_id : String)
    → (metadata : HashMap String) → ProviderManager
    → ProviderManager × ProviderResult (Unit {0})
announce_provider t_announced t_seen dht local_peer_id manifest_id metadata m = (
  record m {
    local_providers =
        insert manifest_id
          (record {
            peer_id = local_peer_id;
            manifest_id = manifest_id;
            announced_at = t_announced;
            last_seen = t_seen;
            ttl_seconds = m.config.default_ttl_seconds;
            metadata = metadata;
          })
          m.local_providers;
  },
  announce_via_dht dht,
)

unfoldable pub stop_providing :
    (manifest_id : String) → ProviderManager → ProviderManager × ProviderResult (Unit {0})
stop_providing manifest_id m =
    if contains_key manifest_id m.local_providers
    then (record m { local_providers = remove manifest_id m.local_providers }, ok tt)
    else (m, err (provider_not_found manifest_id))

-- the cached providers of a manifest that have not expired
pub valid_providers : (now : ℕ) → (manifest_id : String) → ProviderManager → List ProviderInfo
valid_providers now manifest_id m =
    filter (λ p. not (is_expired now p)) (unwrap_or (get manifest_id m.remote_providers) [])

-- `entry(key).or_insert_with(Vec::new).push(x)`
pub push_entry {ℓ} : {A : Type ℓ} → String → A → HashMap (List A) → HashMap (List A)
push_entry key x m = insert key (unwrap_or (get key m) [] ++ x ∷ []) m

-- `discover_providers` up to its wait: the cached providers, or a query whose answer comes through
-- `channel`
pub discover_providers :
    (now : ℕ)
    → (channel : ℕ) → (manifest_id : String) → ProviderManager
    → ProviderManager × Option (List ProviderInfo)
unfolding push_entry
discover_providers now channel manifest_id m =
    let valid = valid_providers now manifest_id m in
    if is_empty valid
    then (record m { pending_queries = push_entry manifest_id channel m.pending_queries }, none)
    else (m, some valid)

-- how the wait of a query ends
pub data QueryOutcome : Type 0 where
  received : List ProviderInfo → QueryOutcome
  closed timed_out : QueryOutcome

-- `query_dht_providers` behind its wait
pub finish_query :
    QueryOutcome
    → (manifest_id : String) → ProviderManager
    → ProviderManager × ProviderResult (List ProviderInfo)
finish_query (received providers) manifest_id m =
    (record m { remote_providers = insert manifest_id providers m.remote_providers }, ok providers)
finish_query closed manifest_id m = (m, ok [])
finish_query timed_out manifest_id m = (m, err timeout)

pub get_local_providers : ProviderManager → List ProviderInfo
get_local_providers m = values m.local_providers

pub get_providers_for_manifest : (manifest_id : String) → ProviderManager → List ProviderInfo
get_providers_for_manifest manifest_id m = unwrap_or (get manifest_id m.remote_providers) []

-- `values_mut` and `retain` on each list, then the manifests without providers go
pub cleanup_lists : (now : ℕ) → HashMap (List ProviderInfo) → HashMap (List ProviderInfo)
cleanup_lists now [] = []
cleanup_lists now ((k, ps) ∷ rest) =
    let live = filter (λ p. not (is_expired now p)) ps in
    let others = cleanup_lists now rest in if is_empty live then others else (k, live) ∷ others

pub cleanup_expired_providers : (now : ℕ) → ProviderManager → ProviderManager
cleanup_expired_providers now m = record m {
  remote_providers = cleanup_lists now m.remote_providers;
}

-- the first entry of `peer` gets a new `last_seen`; `none` where there is no such entry
pub see_again : (now : ℕ) → PeerId → List ProviderInfo → Option (List ProviderInfo)
see_again now peer [] = none
see_again now peer (p ∷ ps) =
    let rest = see_again now peer ps in
    if str_eq p.peer_id peer
    then some (update_last_seen now p ∷ ps)
    else elim rest [ none ↦ none | some ps' ↦ some (p ∷ ps') ]

-- `min_by_key(last_seen)` takes the first of the smallest: `best` and `seen` are the best so far
pub oldest_from : (best seen i : ℕ) → List ProviderInfo → ℕ
oldest_from best seen i [] = best
oldest_from best seen i (p ∷ ps) =
    let older = ltb p.last_seen seen in
    oldest_from (if older then i else best) (if older then p.last_seen else seen) (i + 1) ps

pub remove_at {ℓ} : {A : Type ℓ} → ℕ → List A → List A
remove_at i [] = []
remove_at zero (x ∷ xs) = xs
remove_at (suc i) (x ∷ xs) = x ∷ remove_at i xs

-- a list without the provider that was seen least recently
pub evict_oldest : List ProviderInfo → List ProviderInfo
unfolding oldest_from remove_at
evict_oldest [] = []
evict_oldest (p ∷ ps) = remove_at (oldest_from 0 p.last_seen 1 ps) (p ∷ ps)

pub record_provider : (bound now : ℕ) → ProviderInfo → List ProviderInfo → List ProviderInfo
record_provider bound now info providers = elim (see_again now info.peer_id providers) [
  | some updated ↦ updated
  | none ↦ (if leb bound (length providers) then evict_oldest providers else providers) ++ info ∷ []
]

-- The second part of the result is what is sent, in order.
pub handle_provider_found :
    (t_announced t_seen t_again : ℕ)
    → (manifest_id : String) → (provider_peer : PeerId) → ProviderManager
    → ProviderManager × List (ℕ × List ProviderInfo)
handle_provider_found t_announced t_seen t_again manifest_id provider_peer m =
    let info : ProviderInfo = record {
      peer_id = provider_peer;
      manifest_id = manifest_id;
      announced_at = t_announced;
      last_seen = t_seen;
      ttl_seconds = m.config.default_ttl_seconds;
      metadata = [];
    } in
    let providers =
      record_provider m.config.max_providers_per_manifest t_again info
        (unwrap_or (get manifest_id m.remote_providers) []) in
    let waiting = unwrap_or (get manifest_id m.pending_queries) [] in
    (
      record m {
        remote_providers = insert manifest_id providers m.remote_providers;
        pending_queries = remove manifest_id m.pending_queries;
      },
      map (λ channel. (channel, providers)) waiting,
    )

pub record ProviderStats : Type 0 where
  pub local_providers : ℕ
  pub remote_manifests : ℕ
  pub total_remote_providers : ℕ
  pub pending_queries : ℕ

total_length {ℓ} : {A : Type ℓ} → List (List A) → ℕ
total_length [] = 0
total_length (xs ∷ rest) = length xs + total_length rest

pub get_stats : ProviderManager → ProviderStats
unfolding total_length
get_stats m = record {
  local_providers = length m.local_providers;
  remote_manifests = length m.remote_providers;
  total_remote_providers = total_length (values m.remote_providers);
  pending_queries = length m.pending_queries;
}
