-- ===== src/Scheduler/Random.antt =====
-- The random strategy: what it selects, and the number of nodes at which it gives up.
use mathlib.Core.List.{append_assoc, append-nil, Permᴰ}
use beemesh.Prelude.{
  ℕ, zero, suc, ◌+◌, ◌≤◌, ◌<◌, ◌≡◌, ◌≢◌, refl, sym, ◌∙◌, true, false, List, [], ◌∷◌, ◌++◌, arith,
  length, All, Distinct, Bool-cases, inl, inr, usize_modulus, length-append, any, ◌==◌, ok, err,
  ltb, ltb→lt, lt→ltb,
}
use beemesh.Scheduler.{
  NodeCandidate, selection_failed, round_robin_loop, set_insert, random_loop, select_random,
  max_attempts,
}
use beemesh.Scheduler.Reordering.{Reorders, Distinct-Reordered}
use beemesh.Scheduler.Rotation.{
  round_robin_loop-Distinct, ids, visit, visit-All, visit_injective, length-round_robin_loop,
}

any-append_false :
    (x y : ℕ) (s : List ℕ)
    → any (λ z. z == x) s ≡ false
    → y ≢ x
    → any (λ z. z == x) (s ++ y ∷ []) ≡ false
any-append_false x y [] h ne = ground arith
any-append_false x y (z ∷ s) h ne = ground (arith, any-append_false x y s)

set_insert_fresh : (x : ℕ) (s : List ℕ) → any (λ z. z == x) s ≡ false → set_insert x s ≡ s ++ x ∷ []
unfolding set_insert
set_insert_fresh x s h = rw h

length-set_insert-le : (x : ℕ) (s : List ℕ) → length (set_insert x s) ≤ length s + 1
unfolding set_insert
length-set_insert-le x s = ground (arith, length-append s (x ∷ []))

All-set_insert {ℓ} : (P : ℕ → Type ℓ) (x : ℕ) (s : List ℕ) → P x → All P s → All P (set_insert x s)
unfolding set_insert
All-set_insert P x s px h = elim (Bool-cases (any (λ y. y == x) s)) [
  | inl old ↦ rw old h
  | inr new ↦ rw new (snoc s h)
]
  where
    snoc : (t : List ℕ) → All P t → All P (t ++ x ∷ [])
    snoc [] q = (px, tt)
    snoc (y ∷ t) q = (q.0, snoc t q.1)

any-All-ne : (x : ℕ) (s : List ℕ) → All (λ y. y ≢ x) s → any (λ y. y == x) s ≡ false
any-All-ne x [] h = refl
any-All-ne x (y ∷ s) h = ground (arith, any-All-ne x s h.1, h.0)

Distinct-set_insert : (x : ℕ) (s : List ℕ) → Distinct s → Distinct (set_insert x s)
unfolding set_insert
Distinct-set_insert x s d = elim (Bool-cases (any (λ y. y == x) s)) [
  | inl old ↦ rw old d
  | inr new ↦ rw new (snoc s d new)
]
  where
    behind : (z : ℕ) (t : List ℕ) → z ≢ x → All (λ y. z ≢ y) t → All (λ y. z ≢ y) (t ++ x ∷ [])
    behind z [] ne h = (ne, tt)
    behind z (y ∷ t) ne h = (h.0, behind z t ne h.1)

    snoc : (t : List ℕ) → Distinct t → any (λ y. y == x) t ≡ false → Distinct (t ++ x ∷ [])
    snoc [] q n = (tt, tt)
    snoc (y ∷ t) q n = (behind y t (ground arith) q.0, snoc t q.1 (ground arith))

module _ {F32 : Type 0} (available : List (ℕ × NodeCandidate F32)) (count seed : ℕ) where
  -- What every loop from a selection keeps, whatever the order of the visits.
  pub random_loop-All {ℓ} :
      (P : ℕ → Type ℓ) (left attempts : ℕ) (selected : List ℕ)
      → 0 < length available
      → All (λ e. P e.0) available
      → All P selected
      → All P (random_loop available count seed left attempts selected)
  unfolding random_loop
  random_loop-All P zero attempts selected pos h q = q
  random_loop-All P (suc left) attempts selected pos h q =
      let ih =
        random_loop-All P left (attempts + 1) (set_insert (visit available seed attempts) selected)
          pos h (All-set_insert P _ selected (visit-All available P seed attempts pos h) q) in
      elim (Bool-cases (ltb (length selected) count)) [
        | inl more ↦ rw more ih
        | inr done ↦ rw done q
      ]

  pub random_loop-Distinct :
      (left attempts : ℕ) (selected : List ℕ)
      → Distinct selected
      → Distinct (random_loop available count seed left attempts selected)
  unfolding random_loop
  random_loop-Distinct zero attempts selected d = d
  random_loop-Distinct (suc left) attempts selected d =
      let ih =
        random_loop-Distinct left (attempts + 1)
          (set_insert (visit available seed attempts) selected)
          (Distinct-set_insert _ selected d) in
      elim (Bool-cases (ltb (length selected) count)) [
        | inl more ↦ rw more ih
        | inr done ↦ rw done d
      ]

  -- A loop adds at most one node in a round, and none past the count.
  pub length-random_loop-le :
      (left attempts : ℕ) (selected : List ℕ)
      → length selected ≤ count
      → (length (random_loop available count seed left attempts selected) ≤ length selected + left)
        × (length (random_loop available count seed left attempts selected) ≤ count)
  unfolding random_loop
  length-random_loop-le zero attempts selected h = (omega arith, h)
  length-random_loop-le (suc left) attempts selected h =
      elim (Bool-cases (ltb (length selected) count)) [
        | inl more ↦
            let x = visit available seed attempts in
            let lt = ltb→lt _ _ more in
            let bound = length-set_insert-le x selected in
            let ih =
              length-random_loop-le left (attempts + 1) (set_insert x selected) (omega arith) in
            rw more (omega arith, ih.1)
        | inr done ↦ rw done (omega arith, h)
      ]

  random_loop-visits :
      (m left k : ℕ) (selected : List ℕ)
      → Distinct (ids available)
      → k + m ≡ count
      → m ≤ left
      → length selected ≡ k
      → count ≤ length available
      → seed + count ≤ usize_modulus
      → All (λ y. (i : ℕ) × (i < k) × (y ≡ visit available seed i)) selected
      → random_loop available count seed left k selected
        ≡ selected ++ round_robin_loop available seed m k
  unfolding random_loop round_robin_loop
  random_loop-visits zero zero k selected d total room len near fits old = rw append-nil
  random_loop-visits zero (suc left) k selected d total room len near fits old =
      let done : ltb (length selected) count ≡ false = ground arith in rw done (rw append-nil)
  random_loop-visits (suc m) zero k selected d total room len near fits old = absurd (omega arith)
  random_loop-visits (suc m) (suc left) k selected d total room len near fits old =
      let more : ltb (length selected) count ≡ true = ground arith in
      let x = visit available seed k in
      let fresh : (s : List ℕ)
          → All (λ y. (i : ℕ) × (i < k) × (y ≡ visit available seed i)) s
          → All (λ y. y ≢ x) s =
        elim [
          | [] ↦ λ q. tt
          | y ∷ (s → ih) ↦ λ q. (
            (λ e.
                visit_injective available seed q.0.0 k d q.0.1 (omega arith) (omega arith)
                  (sym q.0.2 ∙ e)),
            ih q.1,
          )
        ] in
      let ins : set_insert x selected ≡ selected ++ x ∷ [] =
        set_insert_fresh x selected (any-All-ne x selected (fresh selected old)) in
      let wider : (s : List ℕ)
          → All (λ y. (i : ℕ) × (i < k) × (y ≡ visit available seed i)) s
          → All (λ y. (i : ℕ) × (i < k + 1) × (y ≡ visit available seed i)) (s ++ x ∷ []) =
        elim [
          | [] ↦ λ q. ((k, omega arith, refl), tt)
          | y ∷ (s → ih) ↦ λ q. ((q.0.0, omega arith, q.0.2), ih q.1)
        ] in
      rw (more, ins)
        (random_loop-visits m left (k + 1) (selected ++ x ∷ []) d (omega arith) (omega arith)
            (omega (arith, length-append selected (x ∷ []))) near fits (wider selected old)
          ∙ append_assoc selected (x ∷ []) _)

  pub select_random-visits :
      (iteration : List ℕ → List ℕ)
      → Distinct (ids available)
      → count ≤ length available
      → count ≤ max_attempts
      → seed + count ≤ usize_modulus
      → select_random iteration available count seed
        ≡ ok (iteration (round_robin_loop available seed count 0))
  unfolding select_random
  select_random-visits iteration d near few fits =
      let e = random_loop-visits count max_attempts 0 [] d (omega arith) few refl near fits tt in
      let l = length-round_robin_loop available seed count 0 in
      let done : ltb (length (round_robin_loop available seed count 0)) count ≡ false =
        ground (arith, l) in
      rw (e, done)

  -- Where the candidates suffice, no more than `MAX_ATTEMPTS` are wanted and the clock is not within
  -- `count` of the end of `usize`, the random strategy selects, in the order in which the hash set
  -- gives its entries, the nodes that round robin selects when its counter stands at the clock's
  -- value, each of them once.
  pub select_random-eq-round_robin_loop :
      (iteration : List ℕ → List ℕ)
      → Reorders iteration
      → Distinct (ids available)
      → count ≤ length available
      → count ≤ max_attempts
      → seed + count ≤ usize_modulus
      → (selected : List ℕ) × (select_random iteration available count seed ≡ ok selected)
        × Permᴰ selected (round_robin_loop available seed count 0)
        × Distinct selected
  select_random-eq-round_robin_loop iteration reorders d near few fits =
      let visited = round_robin_loop available seed count 0 in
      (
        iteration visited,
        select_random-visits iteration d near few fits,
        reorders visited,
        Distinct-Reordered (reorders visited)
            (round_robin_loop-Distinct available seed count 0 d near (omega arith)),
      )

  -- More than `MAX_ATTEMPTS` nodes are never found.
  pub select_random_gives_up :
      (iteration : List ℕ → List ℕ)
      → max_attempts < count
      → select_random iteration available count seed ≡ err selection_failed
  unfolding select_random
  select_random_gives_up iteration h =
      let b = (length-random_loop-le max_attempts 0 [] (omega arith)).0 in
      let short : ltb (length (random_loop available count seed max_attempts 0 [])) count ≡ true =
        lt→ltb _ _ (omega arith) in
      rw short
