-- ===== src/Provider/Tests.antt =====
-- Runs of the provider manager with at most two providers for a manifest.
use beemesh.Prelude.{
  inl, true, not, filter, ℕ, ◌*◌, ◌≡◌, refl, false, none, some, List, [], ◌∷◌, ◌++◌, map, err,
  is_empty, unwrap_or, ◌⊎◌,
}
use beemesh.HashMap.{get}
use beemesh.Provider.{
  PeerId, ProviderInfo, ProviderConfig, ProviderManager, default_provider_config, new_manager,
  second, is_expired, discover_providers, finish_query, valid_providers, received, timed_out,
  timeout, get_local_providers, get_providers_for_manifest, get_stats, handle_provider_found,
  cleanup_expired_providers, cleanup_lists, record_provider, see_again, evict_oldest, remove_at,
  oldest_from,
}
use beemesh.Provider.Local.{Reach, queried, answered, found, start, next, IsValid, Reach-IsValid}
use beemesh.Provider.Queries.{discover-found}

abbrev config : ProviderConfig
config = record default_provider_config { max_providers_per_manifest = 2 }

abbrev provider : PeerId → ℕ → ProviderInfo
provider peer seen = record {
  peer_id = peer;
  manifest_id = "m";
  announced_at = seen;
  last_seen = seen;
  ttl_seconds = 3600;
  metadata = [];
}

abbrev hour : ℕ
hour = 3600 * second

abbrev manager : ProviderManager
manager = record {
  local_providers = [];
  remote_providers = ("m", provider "a" 0 ∷ []) ∷ [];
  pending_queries = ("m", 4 ∷ []) ∷ [];
  config = config;
}

counted : get_stats manager ≡ record {
  local_providers = 0;
  remote_manifests = 1;
  total_remote_providers = 1;
  pending_queries = 1;
}
unfolding get_stats
counted = refl

own : get_local_providers manager ≡ []
unfolding get_local_providers
own = refl

unanswered : (finish_query timed_out "m" manager).1 ≡ err timeout
unfolding finish_query
unanswered = refl

-- The third provider takes the place of the one seen longest ago.
evicted :
    record_provider 2 9 (provider "c" 9) (provider "a" 5 ∷ provider "b" 3 ∷ [])
    ≡ provider "a" 5 ∷ provider "c" 9 ∷ []
unfolding record_provider see_again evict_oldest remove_at oldest_from
evicted = refl

swept : (cleanup_expired_providers (2 * hour) manager).remote_providers ≡ []
unfolding cleanup_expired_providers cleanup_lists is_expired
swept = refl

-- a query waits, a provider is found and sent to it, and the answer is cached
abbrev after_found : ProviderManager
after_found =
    (handle_provider_found 0 0 0 "m" "a" (discover_providers 0 7 "m" (new_manager config)).0).0

abbrev told : List (ℕ × List ProviderInfo)
told =
    (handle_provider_found 0 0 0 "m" "a" (discover_providers 0 7 "m" (new_manager config)).0).1
    ++ []

was_told : told ≡ (7, record (provider "a" 0) { metadata = [] } ∷ []) ∷ []
unfolding handle_provider_found discover_providers new_manager valid_providers record_provider
    see_again
was_told = refl

reached : Reach config after_found told
reached = next (next start (queried 0 7 "m")) (found 0 0 0 "m" "a")

Reach-IsValid_example :
    IsValid config
      (finish_query (received (record (provider "a" 0) { metadata = [] } ∷ [])) "m" after_found).0
      told
unfolding reached
Reach-IsValid_example =
    Reach-IsValid (next reached (answered (received _) "m" (rw was_told (inl refl))))

abbrev two_listed : List ProviderInfo
two_listed = provider "a" 5 ∷ provider "b" 3 ∷ []

discover-found_example :
    let live = filter (λ p. not (is_expired 0 p)) (get_providers_for_manifest "m" manager) in
    ((is_empty live ≡ false) × (discover_providers 0 7 "m" manager ≡ (manager, some live)))
    ⊎ ((is_empty live ≡ true)
        × ((discover_providers 0 7 "m" manager).1 ≡ none)
        × (let (n, sent) =
              handle_provider_found 1 1 1 "m" "a" (discover_providers 0 7 "m" manager).0 in
            (sent
              ≡ map
                  (λ c. (c, get_providers_for_manifest "m" n))
                  (unwrap_or (get "m" manager.pending_queries) [] ++ 7 ∷ []))
            × (get "m" n.pending_queries ≡ none)))
discover-found_example = discover-found 0 7 1 1 1 "m" "a" manager
