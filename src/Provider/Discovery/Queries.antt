-- ===== src/Provider/Discovery/Queries.antt =====
-- The queries of discovery.rs over a run of a manager: how many there are, who waits for them, and
-- what an answer of the DHT does.
use beemesh.Prelude.{
  ℕ, suc, ◌≤◌, ◌<◌, ◌≡◌, refl, String, Bool, true, false, not, ◌&&◌, Bool-cases, Option-cases, ◌⊎◌,
  inl, inr, none, List, [], ◌∷◌, ◌++◌, arith, leb, str_eq, length, unwrap_or, is_empty,
}
use beemesh.HashMap.{HashMap, get, insert, retain, contains_key}
use beemesh.HashMap.Laws.{get-insert, get-remove}
use beemesh.Provider.{PeerId, ProviderInfo}
use beemesh.Provider.Discovery.{
  DiscoveryQuery, DiscoveryResult, DiscoveryConfig, DiscoveryManager, new_manager, Wait, received,
  closed, expired, get_cached_providers, cached_hit, cache_providers, cleanup_query, add_channel,
  failed, finish_query, start_discovery_query, wait_for_existing_query, discover_uncached,
  discover_providers,
}
use beemesh.Provider.Discovery.Results.{
  notify, answer_query, handle_providers_found, handle_discovery_error, cleanup_expired_cache,
  filter_providers, provider_infos, found_result, elapsed,
}

-- one call on a manager
pub data Step : DiscoveryManager → DiscoveryManager → Type 0 where
  discovered :
      (now later channel : ℕ) (wait : Wait) (q : DiscoveryQuery) (m : DiscoveryManager)
      → Step m (discover_providers now later channel wait q m).0
  answered :
      (now : ℕ) (id : String) (found : List (PeerId × ℕ × ℕ)) (duration : ℕ) (m : DiscoveryManager)
      → Step m (handle_providers_found now id found duration m).0
  refused :
      (now : ℕ) (id error : String) (m : DiscoveryManager)
      → Step m (handle_discovery_error now id error m).0
  cleaned : (now : ℕ) (m : DiscoveryManager) → Step m (cleanup_expired_cache now m)

pub data Reachable (config : DiscoveryConfig) : DiscoveryManager → Type 0 where
  start : Reachable config (new_manager config)
  step : {m m' : DiscoveryManager} → Reachable config m → Step m m' → Reachable config m'

length-insert-le {ℓ} :
    {V : Type ℓ} (k : String) (v : V) (m : HashMap V) → length (insert k v m) ≤ suc (length m)
length-insert-le k v [] = omega arith
length-insert-le k v ((j, w) ∷ m) = ground (arith, length-insert-le k v m)

length-retain-le {ℓ} :
    {V : Type ℓ} (p : String → V → Bool) (m : HashMap V) → length (retain p m) ≤ length m
length-retain-le p [] = omega arith
length-retain-le p ((j, w) ∷ m) = ground (arith, length-retain-le p m)

-- whether some channel waits under the name
abbrev pub waited : String → HashMap (List ℕ) → Bool
waited id channels = not (is_empty (unwrap_or (get id channels) []))

snoc-full {ℓ} : {A : Type ℓ} (xs : List A) (x : A) → is_empty (xs ++ x ∷ []) ≡ false
snoc-full [] x = refl
snoc-full (y ∷ ys) x = refl

-- The manager keeps its configuration, has no more queries than it allows, and somebody waits for
-- each of them.
pub record IsValid (config : DiscoveryConfig) (m : DiscoveryManager) : Type 0 where
  pub configured : m.config ≡ config
  pub bounded : length m.active_queries ≤ config.max_concurrent_queries
  pub awaited :
      (id : String) → (get id m.active_queries ≡ none) ⊎ (waited id m.pending_channels ≡ true)

module _ {config : DiscoveryConfig} where
  IsValid-cache_providers :
      (now : ℕ) (id : String) (ps : List ProviderInfo) (m : DiscoveryManager)
      → IsValid config m
      → IsValid config (cache_providers now id ps m)
  unfolding cache_providers
  IsValid-cache_providers now id ps m h = record {
    configured = h.configured;
    bounded = h.bounded;
    awaited = h.awaited;
  }

  IsValid-cleanup_query :
      (id : String) (m : DiscoveryManager) → IsValid config m → IsValid config (cleanup_query id m)
  unfolding cleanup_query
  IsValid-cleanup_query id m h = record {
    configured = h.configured;
    bounded =
        omega (arith, h.bounded, length-retain-le (λ j _. not (str_eq j id)) m.active_queries);
    awaited = λ j. ground (arith, get-remove id j m.active_queries, h.awaited j);
  }

  -- the query is cleaned up once its channels are told
  IsValid-notify :
      (id : String) (r : DiscoveryResult) (m : DiscoveryManager)
      → IsValid config m
      → IsValid config (cleanup_query id (notify id r m).0)
  unfolding cleanup_query notify
  IsValid-notify id r m h = record {
    configured = h.configured;
    bounded =
        omega (arith, h.bounded, length-retain-le (λ j _. not (str_eq j id)) m.active_queries);
    awaited = λ j.
        ground (
          arith,
          get-remove id j m.active_queries,
          get-remove id j m.pending_channels,
          h.awaited j,
        );
  }

  IsValid-add_channel :
      (id : String) (channel : ℕ) (m : DiscoveryManager)
      → IsValid config m
      → IsValid config (add_channel id channel m)
  unfolding add_channel
  IsValid-add_channel id channel m h = record {
    configured = h.configured;
    bounded = h.bounded;
    awaited = λ j. ground (
      arith,
      get-insert id j (unwrap_or (get id m.pending_channels) [] ++ channel ∷ []) m.pending_channels,
      snoc-full (unwrap_or (get id m.pending_channels) []) channel,
      h.awaited j,
    );
  }

  IsValid-finish_query :
      (later : ℕ) (id : String) (wait : Wait) (m : DiscoveryManager)
      → IsValid config m
      → IsValid config (finish_query later id wait m).0
  unfolding finish_query
  IsValid-finish_query later id (received r) m h =
      elim (Bool-cases (r.success && not (is_empty r.providers))) [
        | inl full ↦ rw full (IsValid-cache_providers later id r.providers m h)
        | inr poor ↦ rw poor h
      ]
  IsValid-finish_query later id closed m h = IsValid-cleanup_query id m h
  IsValid-finish_query later id expired m h = IsValid-cleanup_query id m h

  -- A new query: its channel waits for it before anything else happens.
  IsValid-start :
      (channel : ℕ) (q : DiscoveryQuery) (m : DiscoveryManager)
      → length m.active_queries < config.max_concurrent_queries
      → IsValid config m
      → IsValid config (
          add_channel q.manifest_id channel
            (record m { active_queries = insert q.manifest_id q m.active_queries }))
  unfolding add_channel
  IsValid-start channel q m room h = record {
    configured = h.configured;
    bounded = omega (arith, room, length-insert-le q.manifest_id q m.active_queries);
    awaited = λ j. ground (
      arith,
      get-insert q.manifest_id j q m.active_queries,
      get-insert q.manifest_id j
          (unwrap_or (get q.manifest_id m.pending_channels) [] ++ channel ∷ []) m.pending_channels,
      snoc-full (unwrap_or (get q.manifest_id m.pending_channels) []) channel,
      h.awaited j,
    );
  }

  has_room :
      (m : DiscoveryManager)
      → IsValid config m
      → leb m.config.max_concurrent_queries (length m.active_queries) ≡ false
      → length m.active_queries < config.max_concurrent_queries
  has_room m h room = ground (arith, h.configured)

  IsValid-discover_uncached :
      (later channel : ℕ) (wait : Wait) (q : DiscoveryQuery) (m : DiscoveryManager)
      → IsValid config m
      → IsValid config (discover_uncached later channel wait q m).0
  unfolding discover_uncached
  IsValid-discover_uncached later channel wait q m h =
      elim (Bool-cases (contains_key q.manifest_id m.active_queries)) [
        | inl active ↦
            rw active
              (unfold wait_for_existing_query in IsValid-add_channel q.manifest_id channel m h)
        | inr idle ↦
            elim (Bool-cases (leb m.config.max_concurrent_queries (length m.active_queries))) [
              | inl full ↦ rw (idle, full) h
              | inr room ↦
                  rw (idle, room)
                    (unfold start_discovery_query in
                      IsValid-finish_query later q.manifest_id wait _
                        (IsValid-start channel q m (has_room m h room) h))
            ]
      ]

  IsValid-discover_providers :
      (now later channel : ℕ) (wait : Wait) (q : DiscoveryQuery) (m : DiscoveryManager)
      → IsValid config m
      → IsValid config (discover_providers now later channel wait q m).0
  unfolding discover_providers
  IsValid-discover_providers now later channel wait q m h =
      elim (Option-cases (cached_hit (get_cached_providers now q.manifest_id m))) [
        | inl absent ↦
            rw (absent, discover_providers) (IsValid-discover_uncached later channel wait q m h)
        | inr (r, hit) ↦ rw (hit, discover_providers) h
      ]

  IsValid-answer_query :
      (now : ℕ) (id : String) (ps : List ProviderInfo) (duration : ℕ) (m : DiscoveryManager)
      → IsValid config m
      → IsValid config (answer_query now id ps duration m).0
  unfolding answer_query
  IsValid-answer_query now id ps duration m h = elim (Bool-cases (is_empty ps)) [
    | inl nothing ↦ rw nothing (IsValid-notify id (found_result id ps duration) m h)
    | inr some_found ↦ rw some_found (
        IsValid-notify id (found_result id ps duration) (cache_providers now id ps m)
          (IsValid-cache_providers now id ps m h))
  ]

  IsValid-handle_providers_found :
      (now : ℕ) (id : String) (found : List (PeerId × ℕ × ℕ)) (duration : ℕ) (m : DiscoveryManager)
      → IsValid config m
      → IsValid config (handle_providers_found now id found duration m).0
  unfolding handle_providers_found
  IsValid-handle_providers_found now id found duration m h =
      elim (Option-cases (get id m.active_queries)) [
        | inl absent ↦ rw (absent, handle_providers_found) h
        | inr (q, active) ↦
            rw (active, handle_providers_found)
              (IsValid-answer_query now id (filter_providers now q (provider_infos id found))
                duration m h)
      ]

  IsValid-handle_discovery_error :
      (now : ℕ) (id error : String) (m : DiscoveryManager)
      → IsValid config m
      → IsValid config (handle_discovery_error now id error m).0
  unfolding handle_discovery_error
  IsValid-handle_discovery_error now id error m h =
      IsValid-notify id (failed id error (elapsed now (get id m.active_queries)) false) m h

  IsValid-cleanup_expired_cache :
      (now : ℕ) (m : DiscoveryManager)
      → IsValid config m
      → IsValid config (cleanup_expired_cache now m)
  unfolding cleanup_expired_cache
  IsValid-cleanup_expired_cache now m h = record {
    configured = h.configured;
    bounded = h.bounded;
    awaited = h.awaited;
  }

  kept_by_call : {m m' : DiscoveryManager} → Step m m' → IsValid config m → IsValid config m'
  kept_by_call (discovered now later channel wait q m) h =
      IsValid-discover_providers now later channel wait q m h
  kept_by_call (answered now id found duration m) h =
      IsValid-handle_providers_found now id found duration m h
  kept_by_call (refused now id error m) h = IsValid-handle_discovery_error now id error m h
  kept_by_call (cleaned now m) h = IsValid-cleanup_expired_cache now m h

  -- However a manager is used, it has no more active queries than its configuration allows, and
  -- at least one channel is kept for the answer of each of them.
  pub Reachable-IsValid : (m : DiscoveryManager) → Reachable config m → IsValid config m
  unfolding new_manager
  Reachable-IsValid m start = record {
    configured = refl;
    bounded = omega arith;
    awaited = λ id. inl refl;
  }
  Reachable-IsValid m (step {m = before} r s) = kept_by_call s (Reachable-IsValid before r)
