-- ===== src/Provider/Discovery.antt =====
-- machineplane/machine/src/provider/discovery.rs: the queries for a manifest's providers, the
-- channels that wait for their results, and the cache of what was found. Times are nanoseconds. A
-- channel is a number; what is sent into channels is part of the result. How a wait ended is an
-- argument: `discover_providers` holds the manager while it waits, so nothing else happens to it.
pub mod Results
pub mod Utils
pub mod Filter
pub mod Queries
pub mod Answers
mod Tests
use Prim.Native.String.{◌++◌ as append}
use beemesh.Prelude.{
  ℕ, ◌+◌, ◌-◌, ◌*◌, String, Bool, true, false, not, ◌&&◌, ◌||◌, Option, none, some, List, [], ◌∷◌,
  ◌++◌, map, Result, ok, err, leb, ltb, ◌==◌, str_eq, if◌then◌else◌, unwrap_or, length, filter, any,
  is_empty, take, sort_by,
}
use beemesh.HashMap.{HashMap, get, insert, remove, retain, contains_key}
use beemesh.Provider.{
  PeerId, ProviderInfo, ProviderError, ProviderResult, network_error, timeout, is_expired, second,
  push_entry,
}

pub record DiscoveryQuery : Type 0 where
  pub manifest_id : String
  pub started_at : ℕ
  pub timeout : ℕ
  pub min_providers : ℕ
  pub max_providers : ℕ
  pub include_expired : Bool

unfoldable pub new : (now : ℕ) → (manifest_id : String) → DiscoveryQuery
new now manifest_id = record {
  manifest_id = manifest_id;
  started_at = now;
  timeout = 30 * second;
  min_providers = 1;
  max_providers = 10;
  include_expired = false;
}

unfoldable pub with_timeout : ℕ → DiscoveryQuery → DiscoveryQuery
with_timeout t q = record q { timeout = t }

unfoldable pub with_min_providers : ℕ → DiscoveryQuery → DiscoveryQuery
with_min_providers n q = record q { min_providers = n }

unfoldable pub with_max_providers : ℕ → DiscoveryQuery → DiscoveryQuery
with_max_providers n q = record q { max_providers = n }

unfoldable pub include_expired : Bool → DiscoveryQuery → DiscoveryQuery
include_expired b q = record q { include_expired = b }

-- A start in the future has the default elapsed time, which is 0, as has this subtraction.
unfoldable pub is_timed_out : (now : ℕ) → DiscoveryQuery → Bool
is_timed_out now q = ltb q.timeout (now - q.started_at)

unfoldable pub get_dht_key : DiscoveryQuery → String
get_dht_key q = append "provider:" q.manifest_id

pub record DiscoveryResult : Type 0 where
  pub manifest_id : String
  pub providers : List ProviderInfo
  pub success : Bool
  pub error : Option String
  pub duration : ℕ
  pub timed_out : Bool

pub record DiscoveryConfig : Type 0 where
  pub cache_ttl_seconds : ℕ
  pub max_concurrent_queries : ℕ
  pub default_timeout_seconds : ℕ
  pub cache_cleanup_interval_seconds : ℕ

abbrev pub default_discovery_config : DiscoveryConfig
default_discovery_config = record {
  cache_ttl_seconds = 300;
  max_concurrent_queries = 20;
  default_timeout_seconds = 30;
  cache_cleanup_interval_seconds = 60;
}

pub record DiscoveryManager : Type 0 where
  pub active_queries : HashMap DiscoveryQuery
  pub pending_channels : HashMap (List ℕ)
  pub provider_cache : HashMap (List ProviderInfo × ℕ)
  pub config : DiscoveryConfig

-- `DiscoveryManager::new`
unfoldable pub new_manager : DiscoveryConfig → DiscoveryManager
new_manager config = record {
  active_queries = [];
  pending_channels = [];
  provider_cache = [];
  config = config;
}

-- the calls of Kademlia, in their order
pub data DhtQuery : Type 0 where
  get_providers : (key : String) → DhtQuery

-- How the wait for a channel ended: with a result, with the channel closed, or by the timeout.
pub data Wait : Type 0 where
  received : DiscoveryResult → Wait
  closed expired : Wait

unfoldable pub cached_result : (manifest_id : String) → List ProviderInfo → DiscoveryResult
cached_result manifest_id providers = record {
  manifest_id = manifest_id;
  providers = providers;
  success = true;
  error = none;
  duration = 0;
  timed_out = false;
}

unfoldable pub fresh_enough :
    (now : ℕ)
    → (manifest_id : String) → (ttl_seconds : ℕ) → Option (List ProviderInfo × ℕ)
    → Option DiscoveryResult
unfolding cached_result
fresh_enough now manifest_id ttl_seconds none = none
fresh_enough now manifest_id ttl_seconds (some (providers, cached_at)) =
    if ltb (now - cached_at) (ttl_seconds * second)
    then some (cached_result manifest_id providers)
    else none

unfoldable pub get_cached_providers :
    (now : ℕ) → (manifest_id : String) → DiscoveryManager → Option DiscoveryResult
unfolding fresh_enough
get_cached_providers now manifest_id m =
    fresh_enough now manifest_id m.config.cache_ttl_seconds (get manifest_id m.provider_cache)

unfoldable pub cache_providers :
    (now : ℕ) → (manifest_id : String) → List ProviderInfo → DiscoveryManager → DiscoveryManager
cache_providers now manifest_id providers m = record m {
  provider_cache = insert manifest_id (providers, now) m.provider_cache;
}

unfoldable pub cleanup_query : (manifest_id : String) → DiscoveryManager → DiscoveryManager
cleanup_query manifest_id m = record m { active_queries = remove manifest_id m.active_queries }

unfoldable pub failed :
    (manifest_id error : String) → (duration : ℕ) → (timed_out : Bool) → DiscoveryResult
failed manifest_id error duration timed_out = record {
  manifest_id = manifest_id;
  providers = [];
  success = false;
  error = some error;
  duration = duration;
  timed_out = timed_out;
}

-- a new channel waits for the manifest's result
unfoldable pub add_channel :
    (manifest_id : String) → (channel : ℕ) → DiscoveryManager → DiscoveryManager
unfolding push_entry
add_channel manifest_id channel m = record m {
  pending_channels = push_entry manifest_id channel m.pending_channels;
}

unfoldable pub finish_query :
    (later : ℕ)
    → (manifest_id : String) → Wait
    → DiscoveryManager
    → DiscoveryManager × ProviderResult DiscoveryResult
unfolding cache_providers cleanup_query failed
finish_query later manifest_id (received result) m = (
  if result.success && not (is_empty result.providers)
      then cache_providers later manifest_id result.providers m
      else m,
  ok result,
)
finish_query later manifest_id closed m = (
  cleanup_query manifest_id m,
  ok (
      failed manifest_id "Discovery channel closed" (m.config.default_timeout_seconds * second)
        false),
)
finish_query later manifest_id expired m = (
  cleanup_query manifest_id m,
  ok (failed manifest_id "Discovery timeout" (m.config.default_timeout_seconds * second) true),
)

unfoldable pub start_discovery_query :
    (later channel : ℕ)
    → Wait
    → DiscoveryQuery
    → DiscoveryManager
    → DiscoveryManager × List DhtQuery × ProviderResult DiscoveryResult
unfolding get_dht_key add_channel finish_query
start_discovery_query later channel wait query m =
    let stored = record m { active_queries = insert query.manifest_id query m.active_queries } in
    let waiting = add_channel query.manifest_id channel stored in
    let (m', answer) = finish_query later query.manifest_id wait waiting in
    (m', get_providers (get_dht_key query) ∷ [], answer)

unfoldable pub awaited : Wait → ProviderResult DiscoveryResult
awaited (received result) = ok result
awaited closed = err (network_error "Query channel closed")
awaited expired = err timeout

unfoldable pub wait_for_existing_query :
    (channel : ℕ)
    → Wait
    → (manifest_id : String) → DiscoveryManager
    → DiscoveryManager × List DhtQuery × ProviderResult DiscoveryResult
unfolding add_channel awaited
wait_for_existing_query channel wait manifest_id m =
    (add_channel manifest_id channel m, [], awaited wait)

-- what the cache has that is of use
unfoldable pub cached_hit : Option DiscoveryResult → Option DiscoveryResult
cached_hit none = none
cached_hit (some result) = if is_empty result.providers then none else some result

unfoldable pub discover_uncached :
    (later channel : ℕ)
    → Wait
    → DiscoveryQuery
    → DiscoveryManager
    → DiscoveryManager × List DhtQuery × ProviderResult DiscoveryResult
unfolding wait_for_existing_query start_discovery_query
discover_uncached later channel wait query m =
    if contains_key query.manifest_id m.active_queries
    then wait_for_existing_query channel wait query.manifest_id m
    else if leb m.config.max_concurrent_queries (length m.active_queries)
    then (m, [], err (network_error "Too many concurrent queries"))
    else start_discovery_query later channel wait query m

unfoldable pub discover_providers :
    (now later channel : ℕ)
    → Wait
    → DiscoveryQuery
    → DiscoveryManager
    → DiscoveryManager × List DhtQuery × ProviderResult DiscoveryResult
unfolding get_cached_providers cached_hit discover_uncached
discover_providers now later channel wait query m =
    elim (cached_hit (get_cached_providers now query.manifest_id m)) [
      | some result ↦ (m, [], ok result)
      | none ↦ discover_uncached later channel wait query m
    ]
