-- ===== src/Scheduler/Available.antt =====
-- The candidates that the scheduler may choose from: their indices point at available nodes, and
-- no index stands twice.
use beemesh.Prelude.{
  ℕ, suc, ◌+◌, ◌<◌, ◌≡◌, ◌≢◌, refl, true, some, List, [], ◌∷◌, map, arith, filter, get_elem?, All,
  Distinct, Bool-cases, inl, inr,
}
use beemesh.Scheduler.{NodeCandidate, enumerate, available_candidates}

module _ {F32 : Type 0} where
  -- Index `i` points at an available node.
  abbrev pub Chosen : List (NodeCandidate F32) → ℕ → Type 0
  Chosen candidates i =
      (c : NodeCandidate F32) × (get_elem? candidates i ≡ some c) × (c.available ≡ true)

  ids-All-le :
      (b i : ℕ) (xs : List (NodeCandidate F32))
      → b < i
      → All (λ y. b ≢ y) (map (λ e. e.0) (filter (λ e. e.1.available) (enumerate i xs)))
  unfolding enumerate
  ids-All-le b i [] h = tt
  ids-All-le b i (c ∷ xs) h = ground (arith, ids-All-le b (i + 1) xs (omega arith))

  ids-Distinct_from :
      (i : ℕ) (xs : List (NodeCandidate F32))
      → Distinct (map (λ e. e.0) (filter (λ e. e.1.available) (enumerate i xs)))
  unfolding enumerate
  ids-Distinct_from i [] = tt
  ids-Distinct_from i (c ∷ xs) =
      ground (arith, ids-Distinct_from (i + 1) xs, ids-All-le i (i + 1) xs (omega arith))

  ids-Chosen_from :
      (all : List (NodeCandidate F32)) (i : ℕ) (xs : List (NodeCandidate F32))
      → ((k : ℕ) (c : NodeCandidate F32) → get_elem? xs k ≡ some c → get_elem? all (i + k) ≡ some c)
      → All (λ e. Chosen all e.0) (filter (λ e. e.1.available) (enumerate i xs))
  unfolding enumerate
  ids-Chosen_from all i [] h = tt
  ids-Chosen_from all i (c ∷ xs) h =
      let here : get_elem? all i ≡ some c =
        let e : i + 0 ≡ i = omega arith in rw (← e) (h 0 c refl) in
      let later : (k : ℕ) (d : NodeCandidate F32)
          → get_elem? xs k ≡ some d
          → get_elem? all (i + 1 + k) ≡ some d =
        λ k d e. let f : i + suc k ≡ i + 1 + k = omega arith in rw f at (h (suc k) d e) in
      let ih = ids-Chosen_from all (i + 1) xs later in
      elim (Bool-cases c.available) [ inl p ↦ rw p ((c, here, p), ih) | inr p ↦ rw p ih ]

  -- Every available entry is an available node, under its own index.
  pub available_candidates-Chosen :
      (candidates : List (NodeCandidate F32))
      → All (λ e. Chosen candidates e.0) (available_candidates candidates)
  unfolding available_candidates
  available_candidates-Chosen candidates =
      ids-Chosen_from candidates 0 candidates (λ k c e. let f : 0 + k ≡ k = omega arith in rw f e)

  pub available_candidates-Distinct :
      (candidates : List (NodeCandidate F32))
      → Distinct (map (λ e. e.0) (available_candidates candidates))
  unfolding available_candidates
  available_candidates-Distinct candidates = ids-Distinct_from 0 candidates
