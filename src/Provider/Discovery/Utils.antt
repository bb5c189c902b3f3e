-- ===== src/Provider/Discovery/Utils.antt =====
-- The statistics of a discovery manager and the helpers of `DiscoveryUtils`, in discovery.rs. The
-- order of peer ids is the parameter `peer_less`, with its equality their texts'.
use beemesh.Prelude.{
  ℕ, ◌*◌, String, Bool, true, false, ◌&&◌, ◌||◌, Option, none, some, List, [], ◌∷◌, map, ltb, ◌==◌,
  str_eq, if◌then◌else◌, length, filter, sort_by,
}
use beemesh.HashMap.{HashMap, get}
use beemesh.Provider.{PeerId, ProviderInfo, second, push_entry}
use beemesh.Provider.Discovery.{
  DiscoveryQuery, DiscoveryManager, new, with_timeout, with_min_providers, with_max_providers,
}

pub record DiscoveryStats : Type 0 where
  pub active_queries : ℕ
  pub cached_manifests : ℕ
  pub pending_channels : ℕ

unfoldable pub get_stats : DiscoveryManager → DiscoveryStats
get_stats m = record {
  active_queries = length m.active_queries;
  cached_manifests = length m.provider_cache;
  pending_channels = length m.pending_channels;
}

unfoldable pub create_query : (now : ℕ) → (manifest_id : String) → DiscoveryQuery
unfolding new
create_query now manifest_id = new now manifest_id

unfoldable pub create_custom_query :
    (now : ℕ)
    → (manifest_id : String) → (timeout_seconds min_providers max_providers : ℕ) → DiscoveryQuery
unfolding new with_timeout with_min_providers with_max_providers
create_custom_query now manifest_id timeout_seconds min_providers max_providers =
    with_max_providers max_providers (
      with_min_providers min_providers
        (with_timeout (timeout_seconds * second) (new now manifest_id)))

-- `dedup`: of equal neighbours, the first stays
unfoldable pub dedup : List PeerId → List PeerId
dedup [] = []
dedup (p ∷ []) = p ∷ []
dedup (p ∷ q ∷ ps) = let rest = dedup (q ∷ ps) in if str_eq p q then rest else p ∷ rest

unfoldable pub extract_peer_ids :
    (peer_less : PeerId → PeerId → Bool) → List ProviderInfo → List PeerId
unfolding dedup sort_by
extract_peer_ids peer_less providers = dedup (sort_by peer_less (map (λ p. p.peer_id) providers))

unfoldable pub group_from :
    HashMap (List ProviderInfo) → List ProviderInfo → HashMap (List ProviderInfo)
unfolding push_entry
group_from grouped [] = grouped
group_from grouped (p ∷ ps) = group_from (push_entry p.manifest_id p grouped) ps

unfoldable pub group_by_manifest : List ProviderInfo → HashMap (List ProviderInfo)
unfolding group_from
group_by_manifest providers = group_from [] providers

unfoldable pub has_value : (value : String) → Option String → Bool
has_value value none = false
has_value value (some v) = str_eq v value

unfoldable pub meets : (criteria metadata : HashMap String) → Bool
unfolding has_value
meets [] metadata = true
meets ((key, value) ∷ rest) metadata = has_value value (get key metadata) && meets rest metadata

unfoldable pub filter_by_metadata :
    List ProviderInfo → (criteria : HashMap String) → List ProviderInfo
unfolding meets
filter_by_metadata providers criteria = filter (λ p. meets criteria p.metadata) providers

-- whether the first provider is preferred: seen later, then announced later, then the lesser id
unfoldable pub preferred : (peer_less : PeerId → PeerId → Bool) → ProviderInfo → ProviderInfo → Bool
preferred peer_less a b =
    ltb b.last_seen a.last_seen
    || a.last_seen == b.last_seen
      && (ltb b.announced_at a.announced_at
          || a.announced_at == b.announced_at && peer_less a.peer_id b.peer_id)

unfoldable pub sort_by_preference :
    (peer_less : PeerId → PeerId → Bool) → List ProviderInfo → List ProviderInfo
unfolding sort_by preferred
sort_by_preference peer_less providers = sort_by (preferred peer_less) providers
