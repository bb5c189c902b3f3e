-- ===== src/Provider/Discovery/Tests.antt =====
-- Runs of discovery.rs, and its theorems at them.
use beemesh.Prelude.{
  ℕ, ◌*◌, ◌≡◌, refl, String, Bool, true, false, none, [], ◌∷◌, map, ok, err, arith, str_eq,
  if◌then◌else◌,
}
use beemesh.HashMap.{get}
use beemesh.Provider.{PeerId, ProviderInfo, second, is_expired, network_error}
use beemesh.Provider.Discovery.{
  DiscoveryQuery, DiscoveryManager, default_discovery_config, new_manager, expired, closed, Wait,
  received, discover_providers, cached_result, is_timed_out, failed,
}
use beemesh.Provider.Discovery.Results.{
  handle_providers_found, handle_discovery_error, filter_providers, provider_infos, found_result,
  cleanup_expired_cache,
}
use beemesh.Provider.Discovery.Utils.{
  get_stats, create_custom_query, extract_peer_ids, group_by_manifest, filter_by_metadata,
  sort_by_preference,
}
use beemesh.Provider.Discovery.Queries.{
  start, step, answered, discovered, IsValid, Reachable-IsValid,
}
use beemesh.Provider.Discovery.Answers.{
  handle_providers_found_tells, discover_providers-handle_providers_found,
}

abbrev query : DiscoveryQuery
query = record {
  manifest_id = "m";
  started_at = 0;
  timeout = 30 * second;
  min_providers = 1;
  max_providers = 2;
  include_expired = false;
}

abbrev provider : PeerId → ℕ → ProviderInfo
provider peer seen = record {
  peer_id = peer;
  manifest_id = "m";
  announced_at = 0;
  last_seen = seen;
  ttl_seconds = 3600;
  metadata = [];
}

-- one channel, 4, waits for the query
abbrev asking : DiscoveryManager
asking = record {
  active_queries = ("m", query) ∷ [];
  pending_channels = ("m", 4 ∷ []) ∷ [];
  provider_cache = [];
  config = default_discovery_config;
}

-- Of three sightings of two peers, the first of each is kept, and the later one comes first.
filtered :
    filter_providers 9 query (provider "a" 1 ∷ provider "b" 5 ∷ provider "a" 7 ∷ [])
    ≡ provider "b" 5 ∷ provider "a" 1 ∷ []
unfolding filter_providers is_expired
filtered = refl

-- A wait that the timeout ends takes the query away and leaves its channel behind.
left_behind :
    (discover_providers 0 0 4 expired query
      (record asking { active_queries = []; pending_channels = [] })).0
    ≡ record asking { active_queries = [] }
unfolding discover_providers
left_behind = refl

-- A second request for an active query only waits.
joined :
    (discover_providers 0 0 5 closed query asking).2 ≡ err (network_error "Query channel closed")
unfolding discover_providers
joined = refl

handle_providers_found_tells_example :
    let (m', sent) = handle_providers_found 9 "m" (("p", 3, 3) ∷ []) 7 asking in
    (sent
      ≡ map
          (λ channel. (
            channel,
            found_result "m" (filter_providers 9 query (provider_infos "m" (("p", 3, 3) ∷ []))) 7,
          ))
          (4 ∷ []))
    × ((j : String)
        → (get j m'.active_queries ≡ (if str_eq "m" j then none else get j asking.active_queries))
          × (get j m'.pending_channels
              ≡ (if str_eq "m" j then none else get j asking.pending_channels)))
handle_providers_found_tells_example =
    handle_providers_found_tells 9 7 "m" (("p", 3, 3) ∷ []) query asking refl

discover_providers-handle_providers_found_example :
    discover_providers
      (100 * second)
      0
      5
      expired
      query
      (handle_providers_found 9 "m" (("p", 3, 3) ∷ []) 7 asking).0
    ≡ (
      (handle_providers_found 9 "m" (("p", 3, 3) ∷ []) 7 asking).0,
      [],
      ok (cached_result "m" (filter_providers 9 query (provider_infos "m" (("p", 3, 3) ∷ [])))),
    )
unfolding filter_providers provider_infos is_expired
discover_providers-handle_providers_found_example =
    discover_providers-handle_providers_found 9 7 "m" (("p", 3, 3) ∷ []) query asking refl
      (100 * second) 0 5 expired query refl (omega arith) refl

-- an answer without providers ends the wait, and leaves the query active and its channel waiting
abbrev poor : Wait
poor = received (failed "m" "none yet" 0 false)

abbrev still_asking : DiscoveryManager
still_asking = (discover_providers 0 0 4 poor query (new_manager default_discovery_config)).0

still_waits :
    ((handle_providers_found 9 "other" [] 7 still_asking).0.active_queries ≡ ("m", query) ∷ [])
    × ((handle_providers_found 9 "other" [] 7 still_asking).0.pending_channels ≡ ("m", 4 ∷ []) ∷ [])
unfolding discover_providers handle_providers_found new_manager
still_waits = (refl, refl)

Reachable-IsValid_example :
    IsValid default_discovery_config (handle_providers_found 9 "other" [] 7 still_asking).0
Reachable-IsValid_example =
    Reachable-IsValid (handle_providers_found 9 "other" [] 7 still_asking).0 (
      step (step start (discovered 0 0 4 poor query (new_manager default_discovery_config)))
        (answered 9 "other" [] 7 still_asking))

abbrev less : PeerId → PeerId → Bool
less p q = str_eq p "a"

ids : extract_peer_ids less (provider "b" 1 ∷ provider "a" 2 ∷ provider "b" 3 ∷ []) ≡ "a" ∷ "b" ∷ []
unfolding extract_peer_ids
ids = refl

grouped :
    group_by_manifest (provider "a" 1 ∷ provider "b" 2 ∷ [])
    ≡ ("m", provider "a" 1 ∷ provider "b" 2 ∷ []) ∷ []
unfolding group_by_manifest
grouped = refl

meeting : filter_by_metadata (provider "a" 1 ∷ []) (("zone", "x") ∷ []) ≡ []
unfolding filter_by_metadata
meeting = refl

preference :
    sort_by_preference less (provider "b" 1 ∷ provider "a" 1 ∷ [])
    ≡ provider "a" 1 ∷ provider "b" 1 ∷ []
unfolding sort_by_preference
preference = refl

late : is_timed_out (31 * second) query ≡ true
unfolding is_timed_out
late = refl

asked : (create_custom_query 0 "m" 5 1 2).timeout ≡ 5 * second
unfolding create_custom_query
asked = refl

counted : (get_stats asking).pending_channels ≡ 1
unfolding get_stats
counted = refl

expired_cache :
    (cleanup_expired_cache
      (300 * second)
      (record asking { provider_cache = ("m", ([], 0)) ∷ [] })).provider_cache
    ≡ []
unfolding cleanup_expired_cache
expired_cache = refl

told : (handle_discovery_error 5 "m" "gone" asking).1 ≡ (4, failed "m" "gone" 5 false) ∷ []
unfolding handle_discovery_error
told = refl
