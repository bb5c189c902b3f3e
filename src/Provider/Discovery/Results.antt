-- ===== src/Provider/Discovery/Results.antt =====
-- The results of a query, in discovery.rs: how what the DHT answers is filtered, cached and sent.
use beemesh.Prelude.{
  ℕ, ◌-◌, ◌*◌, String, Bool, true, false, not, Option, none, some, List, [], ◌∷◌, map, ltb, str_eq,
  if◌then◌else◌, unwrap_or, length, filter, any, is_empty, take, sort_by,
}
use beemesh.HashMap.{get, remove, retain}
use beemesh.Provider.{PeerId, ProviderInfo, is_expired, second}
use beemesh.Provider.Discovery.{
  DiscoveryQuery, DiscoveryResult, DiscoveryManager, cache_providers, cleanup_query, failed,
}

-- `retain` with a set of the peers seen
unfoldable pub first_of_each : (seen : List PeerId) → List ProviderInfo → List ProviderInfo
first_of_each seen [] = []
first_of_each seen (p ∷ ps) =
    let new = p ∷ first_of_each (p.peer_id ∷ seen) ps in
    let old = first_of_each seen ps in if any (λ q. str_eq q p.peer_id) seen then old else new

-- The order `b.last_seen.cmp(&a.last_seen)`
abbrev pub seen_later : ProviderInfo → ProviderInfo → Bool
seen_later a b = ltb b.last_seen a.last_seen

unfoldable pub filter_providers : (now : ℕ) → DiscoveryQuery → List ProviderInfo → List ProviderInfo
unfolding first_of_each sort_by
filter_providers now query providers =
    let valid =
      if query.include_expired then providers else filter (λ p. not (is_expired now p)) providers in
    let sorted = sort_by seen_later (first_of_each [] valid) in
    if ltb query.max_providers (length sorted) then take query.max_providers sorted else sorted

-- `found`: the peers of the DHT's answer, each with the two readings of the clock that its record
-- takes.
unfoldable pub provider_infos : (manifest_id : String) → List (PeerId × ℕ × ℕ) → List ProviderInfo
provider_infos manifest_id found =
    map
      (λ e. record {
        peer_id = e.0;
        manifest_id = manifest_id;
        announced_at = e.1;
        last_seen = e.2;
        ttl_seconds = 3600;
        metadata = [];
      })
      found

-- `remove(manifest_id)` and a send into each channel
unfoldable pub notify :
    (manifest_id : String)
    → DiscoveryResult
    → DiscoveryManager
    → DiscoveryManager × List (ℕ × DiscoveryResult)
notify manifest_id result m = (
  record m { pending_channels = remove manifest_id m.pending_channels },
  map (λ channel. (channel, result)) (unwrap_or (get manifest_id m.pending_channels) []),
)

unfoldable pub found_result : (manifest_id : String) → List ProviderInfo → ℕ → DiscoveryResult
found_result manifest_id providers duration = record {
  manifest_id = manifest_id;
  providers = providers;
  success = true;
  error = none;
  duration = duration;
  timed_out = false;
}

unfoldable pub answer_query :
    (now : ℕ)
    → (manifest_id : String) → List ProviderInfo
    → (duration : ℕ) → DiscoveryManager
    → DiscoveryManager × List (ℕ × DiscoveryResult)
unfolding found_result cache_providers notify cleanup_query
answer_query now manifest_id providers duration m =
    let cached = if is_empty providers then m else cache_providers now manifest_id providers m in
    let (m', sent) = notify manifest_id (found_result manifest_id providers duration) cached in
    (cleanup_query manifest_id m', sent)

unfoldable pub handle_providers_found :
    (now : ℕ)
    → (manifest_id : String) → (found : List (PeerId × ℕ × ℕ)) → (duration : ℕ) → DiscoveryManager
    → DiscoveryManager × List (ℕ × DiscoveryResult)
unfolding provider_infos filter_providers answer_query
handle_providers_found now manifest_id found duration m = elim (get manifest_id m.active_queries) [
  | none ↦ (m, [])
  | some query ↦
      answer_query now manifest_id (filter_providers now query (provider_infos manifest_id found))
        duration m
]

unfoldable pub elapsed : (now : ℕ) → Option DiscoveryQuery → ℕ
elapsed now none = 0
elapsed now (some query) = now - query.started_at

unfoldable pub handle_discovery_error :
    (now : ℕ)
    → (manifest_id error : String) → DiscoveryManager
    → DiscoveryManager × List (ℕ × DiscoveryResult)
unfolding elapsed failed notify cleanup_query
handle_discovery_error now manifest_id error m =
    let duration = elapsed now (get manifest_id m.active_queries) in
    let (m', sent) = notify manifest_id (failed manifest_id error duration false) m in
    (cleanup_query manifest_id m', sent)

unfoldable pub cleanup_expired_cache : (now : ℕ) → DiscoveryManager → DiscoveryManager
cleanup_expired_cache now m = record m {
  provider_cache =
      retain (λ _ entry. ltb (now - entry.1) (m.config.cache_ttl_seconds * second))
        m.provider_cache;
}
