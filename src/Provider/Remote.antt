-- ===== src/Provider/Remote.antt =====
-- The remote providers: no peer stands twice under a manifest, no list outgrows its bound, and who
-- is evicted.
use mathlib.Core.List.{map-append}
use beemesh.Prelude.{
  ℕ, zero, suc, ◌+◌, ◌≤◌, ◌<◌, ◌≡◌, ◌≢◌, refl, ap, String, Bool, false, not, none, some,
  Option-cases, List, [], ◌∷◌, ◌++◌, map, arith, max, leb, ltb, str_eq, eq_iff, Bool-cases, inl,
  inr, unwrap_or, length, length-append, length-map, length-filter-le, filter, All, is_empty,
}
use beemesh.HashMap.{HashMap, get, insert}
use beemesh.Provider.{
  PeerId, ProviderInfo, is_expired, update_last_seen, see_again, oldest_from, remove_at,
  evict_oldest, record_provider, cleanup_lists,
}

abbrev pub NoRepeat : List PeerId → Type 0
NoRepeat [] = Unit
NoRepeat (p ∷ ps) = All (λ q. p ≢ q) ps × NoRepeat ps

abbrev pub peers : List ProviderInfo → List PeerId
peers = map (λ p. p.peer_id)

-- No peer stands twice.
abbrev pub OnePerPeer : List ProviderInfo → Type 0
OnePerPeer ps = NoRepeat (peers ps)

-- The lists of all manifests are well formed, for the configured bound.
abbrev pub ListsValid : ℕ → HashMap (List ProviderInfo) → Type 0
ListsValid bound [] = Unit
ListsValid bound ((_, ps) ∷ rest) =
    (OnePerPeer ps × (length ps ≤ max bound 1)) × ListsValid bound rest

All-remove_at {ℓ κ} :
    {A : Type ℓ} (P : A → Type κ) (i : ℕ) (xs : List A) → All P xs → All P (remove_at i xs)
unfolding remove_at
All-remove_at P i [] h = tt
All-remove_at P zero (x ∷ xs) h = h.1
All-remove_at P (suc i) (x ∷ xs) h = (h.0, All-remove_at P i xs h.1)

NoRepeat-remove_at : (i : ℕ) (ps : List PeerId) → NoRepeat ps → NoRepeat (remove_at i ps)
unfolding remove_at
NoRepeat-remove_at i [] h = tt
NoRepeat-remove_at zero (p ∷ ps) h = h.1
NoRepeat-remove_at (suc i) (p ∷ ps) h = (All-remove_at _ i ps h.0, NoRepeat-remove_at i ps h.1)

peers-remove_at : (i : ℕ) (ps : List ProviderInfo) → peers (remove_at i ps) ≡ remove_at i (peers ps)
unfolding remove_at
peers-remove_at i [] = refl
peers-remove_at zero (p ∷ ps) = refl
peers-remove_at (suc i) (p ∷ ps) = ap (◌∷◌ p.peer_id) (peers-remove_at i ps)

length-remove_at {ℓ} :
    {A : Type ℓ} (i : ℕ) (xs : List A) → i < length xs → length (remove_at i xs) + 1 ≡ length xs
unfolding remove_at
length-remove_at i [] h = absurd (omega arith)
length-remove_at zero (x ∷ xs) h = omega arith
length-remove_at (suc i) (x ∷ xs) h = omega (arith, length-remove_at i xs (omega arith))

oldest_from-lt :
    (best seen i : ℕ) (ps : List ProviderInfo)
    → best < i
    → oldest_from best seen i ps < i + length ps
unfolding oldest_from
oldest_from-lt best seen i [] h = omega arith
oldest_from-lt best seen i (p ∷ ps) h = elim (Bool-cases (ltb p.last_seen seen)) [
  | inl older ↦ rw older (omega (arith, oldest_from-lt i p.last_seen (i + 1) ps (omega arith)))
  | inr younger ↦ rw younger (omega (arith, oldest_from-lt best seen (i + 1) ps (omega arith)))
]

length-evict_oldest :
    (p : ProviderInfo) (ps : List ProviderInfo) → length (evict_oldest (p ∷ ps)) ≡ length ps
unfolding evict_oldest
length-evict_oldest p ps = omega (
  arith,
  length-remove_at (oldest_from 0 p.last_seen 1 ps) (p ∷ ps)
      (omega (arith, oldest_from-lt 0 p.last_seen 1 ps (omega arith))),
)

OnePerPeer-evict_oldest : (ps : List ProviderInfo) → OnePerPeer ps → OnePerPeer (evict_oldest ps)
unfolding evict_oldest
OnePerPeer-evict_oldest [] h = tt
OnePerPeer-evict_oldest (p ∷ ps) h =
    let i = oldest_from 0 p.last_seen 1 ps in
    rw (peers-remove_at i (p ∷ ps)) (NoRepeat-remove_at i (peers (p ∷ ps)) h)

All-peers-evict_oldest :
    (peer : PeerId) (ps : List ProviderInfo)
    → All (λ q. q ≢ peer) (peers ps)
    → All (λ q. q ≢ peer) (peers (evict_oldest ps))
unfolding evict_oldest
All-peers-evict_oldest peer [] h = tt
All-peers-evict_oldest peer (p ∷ ps) h =
    let i = oldest_from 0 p.last_seen 1 ps in
    rw (peers-remove_at i (p ∷ ps)) (All-remove_at (λ q. q ≢ peer) i (peers (p ∷ ps)) h)

All-snoc {ℓ κ} :
    {A : Type ℓ} (P : A → Type κ) (xs : List A) (x : A) → All P xs → P x → All P (xs ++ x ∷ [])
All-snoc P [] x h px = (px, tt)
All-snoc P (y ∷ xs) x h px = (h.0, All-snoc P xs x h.1 px)

NoRepeat-snoc :
    (ps : List PeerId) (p : PeerId) → NoRepeat ps → All (λ q. q ≢ p) ps → NoRepeat (ps ++ p ∷ [])
NoRepeat-snoc [] p h new = (tt, tt)
NoRepeat-snoc (q ∷ ps) p h new = (All-snoc _ ps p h.0 new.0, NoRepeat-snoc ps p h.1 new.1)

-- What `see_again` finds, and what it leaves.
see_again-none :
    (now : ℕ) (peer : PeerId) (ps : List ProviderInfo)
    → see_again now peer ps ≡ none
    → All (λ q. q ≢ peer) (peers ps)
unfolding see_again
see_again-none now peer [] e = tt
see_again-none now peer (p ∷ ps) e = elim (Bool-cases (str_eq p.peer_id peer)) [
  | inl here ↦ absurd (ground arith)
  | inr there ↦ elim (Option-cases (see_again now peer ps)) [
    | inl absent ↦
        ((λ same. ground (arith, eq_iff p.peer_id peer)), see_again-none now peer ps absent)
    | inr (qs, found) ↦ absurd (ground arith)
  ]
]

see_again-some :
    (now : ℕ) (peer : PeerId) (ps qs : List ProviderInfo)
    → see_again now peer ps ≡ some qs
    → peers qs ≡ peers ps
unfolding see_again update_last_seen
see_again-some now peer [] qs e = absurd (ground arith)
see_again-some now peer (p ∷ ps) qs e = elim (Bool-cases (str_eq p.peer_id peer)) [
  | inl here ↦ ground arith
  | inr there ↦ elim (Option-cases (see_again now peer ps)) [
    | inl absent ↦ absurd (ground arith)
    | inr (rs, found) ↦ let ih = see_again-some now peer ps rs found in ground (arith, ih)
  ]
]

length-evict-snoc :
    (bound : ℕ) (ps : List ProviderInfo) (info : ProviderInfo)
    → length ps ≤ max bound 1
    → length (evict_oldest ps ++ info ∷ []) ≤ max bound 1
length-evict-snoc bound [] info short = unfold evict_oldest in omega arith
length-evict-snoc bound (p ∷ ps) info short =
    omega (arith, length-append (evict_oldest (p ∷ ps)) (info ∷ []), length-evict_oldest p ps)

not_full : (bound n : ℕ) → leb bound n ≡ false → n < bound
not_full bound n h = ground arith

-- Where the list of a manifest has no peer twice and is no longer than the bound, or one if the
-- bound is zero, both still hold after a provider is recorded, found again or new.
pub record_provider-valid :
    (bound now : ℕ) (info : ProviderInfo) (ps : List ProviderInfo)
    → OnePerPeer ps
    → length ps ≤ max bound 1
    → OnePerPeer (record_provider bound now info ps)
      × (length (record_provider bound now info ps) ≤ max bound 1)
unfolding record_provider
record_provider-valid bound now info ps h short =
    elim (Option-cases (see_again now info.peer_id ps)) [
      | inr (qs, found) ↦
          let same = see_again-some now info.peer_id ps qs found in
          rw (found, record_provider)
            (
              rw same h,
              omega (
                arith,
                length-map (λ p. p.peer_id) qs,
                length-map (λ p. p.peer_id) ps,
                ap length same,
              ),
            )
      | inl absent ↦
          let new = see_again-none now info.peer_id ps absent in
          rw (absent, record_provider)
            (elim (Bool-cases (leb bound (length ps))) [
              | inl full ↦
                  rw (full, map-append)
                    (
                      NoRepeat-snoc (peers (evict_oldest ps)) info.peer_id
                          (OnePerPeer-evict_oldest ps h)
                          (All-peers-evict_oldest info.peer_id ps new),
                      length-evict-snoc bound ps info short,
                    )
              | inr room ↦
                  rw (room, map-append)
                    (
                      NoRepeat-snoc (peers ps) info.peer_id h new,
                      omega (arith, length-append ps (info ∷ []), not_full bound (length ps) room),
                    )
            ])
    ]

pub get-ListsValid :
    (bound : ℕ) (k : String) (m : HashMap (List ProviderInfo))
    → ListsValid bound m
    → OnePerPeer (unwrap_or (get k m) []) × (length (unwrap_or (get k m) []) ≤ max bound 1)
get-ListsValid bound k [] h = (tt, omega arith)
get-ListsValid bound k ((j, ps) ∷ rest) h = elim (Bool-cases (str_eq j k)) [
  | inl here ↦ rw here h.0
  | inr there ↦ rw there (get-ListsValid bound k rest h.1)
]

pub insert-ListsValid :
    (bound : ℕ) (k : String) (qs : List ProviderInfo) (m : HashMap (List ProviderInfo))
    → OnePerPeer qs × (length qs ≤ max bound 1)
    → ListsValid bound m
    → ListsValid bound (insert k qs m)
insert-ListsValid bound k qs [] q h = (q, tt)
insert-ListsValid bound k qs ((j, ps) ∷ rest) q h = elim (Bool-cases (str_eq j k)) [
  | inl here ↦ rw here (q, h.1)
  | inr there ↦ rw there (h.0, insert-ListsValid bound k qs rest q h.1)
]

All-filter {ℓ κ} :
    {A : Type ℓ} (P : A → Type κ) (f : A → Bool) (xs : List A) → All P xs → All P (filter f xs)
All-filter P f [] h = tt
All-filter P f (x ∷ xs) h = elim (Bool-cases (f x)) [
  | inl in' ↦ rw in' (h.0, All-filter P f xs h.1)
  | inr out ↦ rw out (All-filter P f xs h.1)
]

All-peers-filter :
    (peer : PeerId) (f : ProviderInfo → Bool) (ps : List ProviderInfo)
    → All (λ q. peer ≢ q) (peers ps)
    → All (λ q. peer ≢ q) (peers (filter f ps))
All-peers-filter peer f [] h = tt
All-peers-filter peer f (p ∷ ps) h = elim (Bool-cases (f p)) [
  | inl in' ↦ rw in' (h.0, All-peers-filter peer f ps h.1)
  | inr out ↦ rw out (All-peers-filter peer f ps h.1)
]

OnePerPeer-filter :
    (f : ProviderInfo → Bool) (ps : List ProviderInfo) → OnePerPeer ps → OnePerPeer (filter f ps)
OnePerPeer-filter f [] h = tt
OnePerPeer-filter f (p ∷ ps) h = elim (Bool-cases (f p)) [
  | inl in' ↦ rw in' (All-peers-filter p.peer_id f ps h.0, OnePerPeer-filter f ps h.1)
  | inr out ↦ rw out (OnePerPeer-filter f ps h.1)
]

pub cleanup_lists-ListsValid :
    (bound now : ℕ) (m : HashMap (List ProviderInfo))
    → ListsValid bound m
    → ListsValid bound (cleanup_lists now m)
unfolding cleanup_lists
cleanup_lists-ListsValid bound now [] h = tt
cleanup_lists-ListsValid bound now ((k, ps) ∷ rest) h =
    let f : ProviderInfo → Bool = λ p. not (is_expired now p) in
    let ih = cleanup_lists-ListsValid bound now rest h.1 in
    elim (Bool-cases (is_empty (filter f ps))) [
      | inl gone ↦ rw gone ih
      | inr some_left ↦
          rw some_left
            ((OnePerPeer-filter f ps h.0.0, omega (arith, length-filter-le f ps, h.0.1)), ih)
    ]
