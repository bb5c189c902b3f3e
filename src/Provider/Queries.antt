-- ===== src/Provider/Queries.antt =====
-- What a client of the manager sees: queries and their answers, announcements and their end, and
-- the lifetime of an entry.
use beemesh.Prelude.{
  ℕ, ◌≡◌, ◌≢◌, refl, ap, ◌∙◌, String, true, false, not, none, some, Option-cases, List, [], ◌∷◌,
  ◌++◌, map, arith, Result, ok, err, ◌⊎◌, str_eq, eq_iff, if◌then◌else◌, Bool-cases, inl, inr,
  unwrap_or, filter, All, is_empty,
}
use beemesh.HashMap.{HashMap, get}
use beemesh.HashMap.Laws.{get-insert, get-remove}
use beemesh.Provider.{
  PeerId, ProviderInfo, ProviderManager, is_expired, update_last_seen, see_again, record_provider,
  announce_provider, stop_providing, discover_providers, handle_provider_found, valid_providers,
  get_providers_for_manifest, provider_not_found, push_entry,
}

same_key : (k : String) → str_eq k k ≡ true
same_key k = (eq_iff k k).1 refl

get-push_entry :
    (k : String) (channel : ℕ) (pending : HashMap (List ℕ))
    → get k (push_entry k channel pending) ≡ some (unwrap_or (get k pending) [] ++ channel ∷ [])
unfolding push_entry
get-push_entry k channel pending = rw (get-insert, same_key k)

-- All waiting channels are sent the list that the manifest then has.
sent_to_waiting :
    (t_announced t_seen t_again : ℕ) (k : String) (peer : PeerId) (m : ProviderManager)
    → (handle_provider_found t_announced t_seen t_again k peer m).1
      ≡ map
          (λ c. (
            c,
            get_providers_for_manifest k
                (handle_provider_found t_announced t_seen t_again k peer m).0,
          ))
          (unwrap_or (get k m.pending_queries) [])
unfolding handle_provider_found get_providers_for_manifest
sent_to_waiting t_announced t_seen t_again k peer m = simp (get-insert, same_key)

-- If the manifest's own list has providers that have not expired, the query is answered with exactly
-- these, in their order, and the manager is as before. Otherwise there is no answer yet: the channel
-- is queued, and the next provider that is found for the manifest sends the manifest's new list,
-- to every channel that was waiting, this one last, and none is left.
pub discover-found :
    (now channel t_announced t_seen t_again : ℕ) (manifest_id : String) (peer : PeerId)
    (m : ProviderManager)
    → let live = filter (λ p. not (is_expired now p)) (get_providers_for_manifest manifest_id m) in
      ((is_empty live ≡ false) × (discover_providers now channel manifest_id m ≡ (m, some live)))
      ⊎ ((is_empty live ≡ true)
          × ((discover_providers now channel manifest_id m).1 ≡ none)
          × (let (n, sent) =
                handle_provider_found t_announced t_seen t_again manifest_id peer
                  (discover_providers now channel manifest_id m).0 in
              (sent
                ≡ map
                    (λ c. (c, get_providers_for_manifest manifest_id n))
                    (unwrap_or (get manifest_id m.pending_queries) [] ++ channel ∷ []))
              × (get manifest_id n.pending_queries ≡ none)))
unfolding discover_providers valid_providers get_providers_for_manifest
discover-found now channel t_announced t_seen t_again manifest_id peer m =
    elim (Bool-cases (is_empty (valid_providers now manifest_id m))) [
      | inr hit ↦ inl (hit, (rw hit refl))
      | inl miss ↦ inr (miss, rw miss refl, rw miss (sent_to_all, none_left))
    ]
  where
    queued : ProviderManager
    queued = record m { pending_queries = push_entry manifest_id channel m.pending_queries }

    sent_to_all :
        (handle_provider_found t_announced t_seen t_again manifest_id peer queued).1
        ≡ map
            (λ c. (
              c,
              get_providers_for_manifest manifest_id
                  (handle_provider_found t_announced t_seen t_again manifest_id peer queued).0,
            ))
            (unwrap_or (get manifest_id m.pending_queries) [] ++ channel ∷ [])
    sent_to_all =
        sent_to_waiting t_announced t_seen t_again manifest_id peer queued
        ∙ ap
            (λ o.
              map
                (λ c. (
                  c,
                  get_providers_for_manifest manifest_id
                      (handle_provider_found t_announced t_seen t_again manifest_id peer queued).0,
                ))
                (unwrap_or o []))
            (get-push_entry manifest_id channel m.pending_queries)

    none_left :
        get manifest_id
          (handle_provider_found t_announced t_seen t_again manifest_id peer
            queued).0.pending_queries
        ≡ none
    none_left =
        unfold handle_provider_found in
        rw get-remove (ground (arith, eq_iff manifest_id manifest_id))

-- An announcement ends by `stop_providing`, also one that the network refused: the manifest is then
-- no longer provided, all others are as before the announcement, and to stop once more is an error.
stop-announce :
    (t_announced t_seen : ℕ) (dht : Result (Unit {0}) String) (local_peer_id : PeerId)
    (manifest_id : String) (metadata : HashMap String) (m : ProviderManager)
    → (let n = (announce_provider t_announced t_seen dht local_peer_id manifest_id metadata m).0 in
        ((stop_providing manifest_id n).1 ≡ ok tt)
        × ((k : String)
            → get k (stop_providing manifest_id n).0.local_providers
              ≡ (if str_eq manifest_id k then none else get k m.local_providers))
        × ((stop_providing manifest_id (stop_providing manifest_id n).0).1
            ≡ err (provider_not_found manifest_id)))
unfolding announce_provider stop_providing
stop-announce t_announced t_seen dht local_peer_id manifest_id metadata m =
    let here = same_key manifest_id in
    (
      simp (get-insert, same_key),
      (λ k. simp (get-insert, same_key) (simp (get-remove, get-insert) (ground arith))),
      simp (get-insert, same_key) (simp (get-remove, same_key)),
    )

-- Entries of the peer that have expired at `now`, and entries of other peers.
abbrev ExpiredFor : ℕ → PeerId → ProviderInfo → Type 0
ExpiredFor now peer p = p.peer_id ≡ peer → is_expired now p ≡ true

see_again-ExpiredFor :
    (now t_again : ℕ) (peer : PeerId) (ps qs : List ProviderInfo)
    → see_again t_again peer ps ≡ some qs
    → All (ExpiredFor now peer) ps
    → All (ExpiredFor now peer) qs
unfolding see_again update_last_seen is_expired
see_again-ExpiredFor now t_again peer [] qs e h = absurd (ground arith)
see_again-ExpiredFor now t_again peer (p ∷ ps) qs e h = elim (Bool-cases (str_eq p.peer_id peer)) [
  | inl here ↦ let is : (update_last_seen t_again p ∷ ps) ≡ qs = ground arith in rw (← is) h
  | inr there ↦ elim (Option-cases (see_again t_again peer ps)) [
    | inl absent ↦ absurd (ground arith)
    | inr (rs, found) ↦
        let ih = see_again-ExpiredFor now t_again peer ps rs found h.1 in
        let is : (p ∷ rs) ≡ qs = ground arith in rw (← is) (h.0, ih)
  ]
]

filter-ExpiredFor :
    (now : ℕ) (peer : PeerId) (ps : List ProviderInfo)
    → All (ExpiredFor now peer) ps
    → All (λ p. p.peer_id ≢ peer) (filter (λ p. not (is_expired now p)) ps)
filter-ExpiredFor now peer [] h = tt
filter-ExpiredFor now peer (p ∷ ps) h = elim (Bool-cases (is_expired now p)) [
  | inl dead ↦ rw dead (filter-ExpiredFor now peer ps h.1)
  | inr live ↦ rw live ((λ same. cc (h.0 same)), filter-ExpiredFor now peer ps h.1)
]

record_provider-again :
    (bound t : ℕ) (info : ProviderInfo) (ps qs : List ProviderInfo)
    → see_again t info.peer_id ps ≡ some qs
    → record_provider bound t info ps ≡ qs
unfolding record_provider
record_provider-again bound t info ps qs found = rw (found, record_provider) refl

-- A provider that is found again while its entry is listed keeps its first announcement time: if
-- its entry has expired, it stays out of the manifest's valid providers, though it was just found.
found_again_stays_expired :
    (now t_announced t_seen t_again : ℕ) (manifest_id : String) (peer : PeerId)
    (m : ProviderManager) (listed : List ProviderInfo)
    → see_again t_again peer (get_providers_for_manifest manifest_id m) ≡ some listed
    → All
        (λ p. p.peer_id ≡ peer → is_expired now p ≡ true)
        (get_providers_for_manifest manifest_id m)
    → All
        (λ p. p.peer_id ≢ peer)
        (valid_providers now manifest_id
          (handle_provider_found t_announced t_seen t_again manifest_id peer m).0)
unfolding handle_provider_found get_providers_for_manifest valid_providers
found_again_stays_expired now t_announced t_seen t_again manifest_id peer m listed found h =
    let info : ProviderInfo = record {
      peer_id = peer;
      manifest_id = manifest_id;
      announced_at = t_announced;
      last_seen = t_seen;
      ttl_seconds = m.config.default_ttl_seconds;
      metadata = [];
    } in
    let listed_again =
      record_provider-again m.config.max_providers_per_manifest t_again info
        (unwrap_or (get manifest_id m.remote_providers) []) listed found in
    simp (get-insert, same_key)
      (rw listed_again (
        filter-ExpiredFor now peer listed (see_again-ExpiredFor now t_again peer _ listed found h)))
