-- ===== src/Provider/Discovery/Answers.antt =====
-- What an answer of the DHT does in discovery.rs: who is told, and who is served from the cache
-- afterwards.
use beemesh.Prelude.{
  ℕ, ◌-◌, ◌*◌, ◌<◌, ◌≡◌, refl, String, false, none, some, List, [], map, arith, lt→ltb, str_eq,
  eq_iff, if◌then◌else◌, unwrap_or, is_empty, ok,
}
use beemesh.HashMap.{get}
use beemesh.HashMap.Laws.{get-insert, get-remove}
use beemesh.Provider.{PeerId, ProviderInfo, second}
use beemesh.Provider.Discovery.{
  DiscoveryQuery, DiscoveryManager, Wait, cached_result, get_cached_providers, cached_hit,
  cache_providers, cleanup_query, discover_providers,
}
use beemesh.Provider.Discovery.Results.{
  notify, answer_query, handle_providers_found, filter_providers, provider_infos, found_result,
}

module _ (now duration : ℕ) (id : String) (found : List (PeerId × ℕ × ℕ)) (query : DiscoveryQuery)
    (m : DiscoveryManager) (active : get id m.active_queries ≡ some query) where
  -- the providers that the query is answered with
  abbrev answer : List ProviderInfo
  answer = filter_providers now query (provider_infos id found)

  handle_providers_found-answer :
      handle_providers_found now id found duration m ≡ answer_query now id answer duration m
  unfolding handle_providers_found
  handle_providers_found-answer = rw (active, handle_providers_found) refl

  -- An answer to a query that is active goes into every channel that waits for it, the same result
  -- to each; the query and its channels are gone then, and no other query is touched.
  pub handle_providers_found_tells :
      let (m', sent) = handle_providers_found now id found duration m in
      (sent
        ≡ map
            (λ channel. (channel, found_result id answer duration))
            (unwrap_or (get id m.pending_channels) []))
      × ((j : String)
          → (get j m'.active_queries ≡ (if str_eq id j then none else get j m.active_queries))
            × (get j m'.pending_channels
                ≡ (if str_eq id j then none else get j m.pending_channels)))
  unfolding answer_query notify cleanup_query cache_providers
  handle_providers_found_tells = rw handle_providers_found-answer (
    ground arith,
    λ j. (
      ground (arith, get-remove id j m.active_queries),
      ground (arith, get-remove id j m.pending_channels),
    ),
  )

  -- the cache after an answer that names providers
  cached_answer :
      is_empty answer ≡ false
      → get id (handle_providers_found now id found duration m).0.provider_cache
        ≡ some (answer, now)
  unfolding answer_query notify cleanup_query cache_providers
  cached_answer some_found = rw handle_providers_found-answer (
      rw some_found (ground (arith, get-insert id id (answer, now) m.provider_cache, eq_iff id id)))

  config_kept :
      (handle_providers_found now id found duration m).0.config.cache_ttl_seconds
      ≡ m.config.cache_ttl_seconds
  unfolding answer_query notify cleanup_query cache_providers
  config_kept = rw handle_providers_found-answer (ground arith)

  cached_hit-answer :
      (t : ℕ)
      → is_empty answer ≡ false
      → t - now < m.config.cache_ttl_seconds * second
      → cached_hit (get_cached_providers t id (handle_providers_found now id found duration m).0)
        ≡ some (cached_result id answer)
  unfolding get_cached_providers
  cached_hit-answer t some_found young =
      rw (cached_answer some_found, config_kept, lt→ltb _ _ young)
        (unfold cached_hit in rw some_found refl)

  -- Once an answer has named providers, a discovery of the same manifest before the cache's time to
  -- live is over gets them from the cache: the DHT is not asked, and the manager does not change.
  pub discover_providers-handle_providers_found :
      (t later channel : ℕ) (wait : Wait) (q : DiscoveryQuery)
      → is_empty answer ≡ false
      → t - now < m.config.cache_ttl_seconds * second
      → q.manifest_id ≡ id
      → discover_providers t later channel wait q (handle_providers_found now id found duration m).0
        ≡ ((handle_providers_found now id found duration m).0, [], ok (cached_result id answer))
  unfolding discover_providers
  discover_providers-handle_providers_found t later channel wait q some_found young same =
      let hit : cached_hit (
            get_cached_providers t q.manifest_id (handle_providers_found now id found duration m).0)
          ≡ some (cached_result id answer) =
        rw same (cached_hit-answer t some_found young) in
      rw (hit, discover_providers) refl
