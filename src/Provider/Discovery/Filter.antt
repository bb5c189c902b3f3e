-- ===== src/Provider/Discovery/Filter.antt =====
-- What filter_providers of discovery.rs keeps, and in what order.
use beemesh.Prelude.{
  ℕ, ◌≡◌, ◌≢◌, true, false, not, ◌⊎◌, List, [], ◌∷◌, str_eq, if◌then◌else◌, filter, any, All,
  sort_by,
}
use beemesh.Provider.{PeerId, ProviderInfo, is_expired}
use beemesh.Provider.Discovery.{DiscoveryQuery}
use beemesh.Provider.Discovery.Results.{first_of_each, seen_later}

abbrev pub Differs : PeerId → ProviderInfo → Type 0
Differs p q = p ≢ q.peer_id

-- No two of the providers have the same peer.
abbrev pub Distinct : List ProviderInfo → Type 0
Distinct [] = Unit
Distinct (p ∷ ps) = All (Differs p.peer_id) ps × Distinct ps

-- Some provider of the list has the peer.
abbrev pub Represents : List ProviderInfo → PeerId → Type 0
Represents ps peer = any (λ q. str_eq q.peer_id peer) ps ≡ true

-- the providers that are not left out for their age
abbrev valid : (now : ℕ) → DiscoveryQuery → List ProviderInfo → List ProviderInfo
valid now q ps = if q.include_expired then ps else filter (λ p. not (is_expired now p)) ps

abbrev ranked : (now : ℕ) → DiscoveryQuery → List ProviderInfo → List ProviderInfo
ranked now q ps = sort_by seen_later (first_of_each [] (valid now q ps))

-- A provider is left out for its age alone if the query asks for it and it has expired.
abbrev pub TooOld : (now : ℕ) → DiscoveryQuery → ProviderInfo → Type 0
TooOld now q p = (q.include_expired ≡ false) × (is_expired now p ≡ true)

abbrev pub NotTooOld : (now : ℕ) → DiscoveryQuery → ProviderInfo → Type 0
NotTooOld now q p = (q.include_expired ≡ true) ⊎ (is_expired now p ≡ false)
