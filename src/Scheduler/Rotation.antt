-- ===== src/Scheduler/Rotation.antt =====
-- The two strategies that walk round the available candidates: round robin, and the random one,
-- which is the same walk from the clock's value.
use beemesh.Prelude.{
  ℕ, zero, suc, ◌+◌, ◌-◌, ◌%◌, ◌≤◌, ◌<◌, ◌≡◌, ◌≢◌, refl, ◌∙◌, ap, some, List, [], ◌∷◌, map, arith,
  length, get_elem?, get_elem?_total, All, Distinct, Distinct-position, mod_window, usize_modulus,
  length-map,
}
use native.Mathlib.Nat.{mod-lt}
use beemesh.Scheduler.{NodeCandidate, index_at, round_robin_loop}

module _ {F32 : Type 0} (available : List (ℕ × NodeCandidate F32)) where
  abbrev pub ids : List ℕ
  ids = map (λ e. e.0) available

  -- The index that the walk from `start` visits in round `i`.
  abbrev pub visit : ℕ → ℕ → ℕ
  visit start i = index_at available (((start + i) % usize_modulus) % length available)

  index_at_lem : (p : ℕ) → p < length available → get_elem? ids p ≡ some (index_at available p)
  unfolding index_at
  index_at_lem p h =
      let (x, e) =
        get_elem?_total ids p (rw (length-map (λ (e : ℕ × NodeCandidate F32). e.0) available) h) in
      rw e

  get_elem?-All {ℓ} :
      (P : ℕ → Type ℓ) (xs : List (ℕ × NodeCandidate F32)) (p x : ℕ)
      → All (λ e. P e.0) xs
      → get_elem? (map (λ e. e.0) xs) p ≡ some x
      → P x
  get_elem?-All P [] p x h e = cc
  get_elem?-All P (y ∷ ys) zero x h e = ground arith
  get_elem?-All P (y ∷ ys) (suc p) x h e = get_elem?-All P ys p x h.1 e

  pub visit-All {ℓ} :
      (P : ℕ → Type ℓ) (start i : ℕ)
      → 0 < length available
      → All (λ e. P e.0) available
      → P (visit start i)
  visit-All P start i pos h =
      get_elem?-All P available (((start + i) % usize_modulus) % length available) _ h
        (index_at_lem _ (mod-lt _ pos))

  -- Without a wrap of `usize`, two rounds less than a turn apart visit different candidates.
  pub visit_injective :
      (start i j : ℕ)
      → Distinct ids
      → i < j
      → j < i + length available
      → start + j < usize_modulus
      → visit start i ≢ visit start j
  visit_injective start i j distinct lt near fits e =
      let n = length available in
      let pos : 0 < n = omega arith in
      let same : ((start + i) % usize_modulus) % n ≡ ((start + j) % usize_modulus) % n =
        Distinct-position ids _ _ (visit start j) distinct
          (index_at_lem _ (mod-lt _ pos) ∙ ap some e) (index_at_lem _ (mod-lt _ pos)) in
      let wi : (start + i) % usize_modulus ≡ start + i = omega arith in
      let wj : (start + j) % usize_modulus ≡ (start + i) + (j - i) = omega arith in
      let same' : (start + i) % n ≡ ((start + i) + (j - i)) % n = rw (wi, wj) at same in
      absurd (omega (arith, mod_window n (start + i) (j - i) (omega arith) same'))

  pub length-round_robin_loop :
      (start left i : ℕ) → length (round_robin_loop available start left i) ≡ left
  unfolding round_robin_loop
  length-round_robin_loop start zero i = refl
  length-round_robin_loop start (suc left) i = ap suc (length-round_robin_loop start left (i + 1))

  pub round_robin_loop-All {ℓ} :
      (P : ℕ → Type ℓ) (start left i : ℕ)
      → 0 < length available
      → All (λ e. P e.0) available
      → All P (round_robin_loop available start left i)
  unfolding round_robin_loop
  round_robin_loop-All P start zero i pos h = tt
  round_robin_loop-All P start (suc left) i pos h =
      (visit-All P start i pos h, round_robin_loop-All P start left (i + 1) pos h)

  later_visits :
      (start k left i : ℕ)
      → Distinct ids
      → k < i
      → i + left ≤ k + length available
      → start + i + left ≤ usize_modulus
      → All (λ y. visit start k ≢ y) (round_robin_loop available start left i)
  unfolding round_robin_loop
  later_visits start k zero i d lt near fits = tt
  later_visits start k (suc left) i d lt near fits = (
    visit_injective start k i d lt (omega arith) (omega arith),
    later_visits start k left (i + 1) d (omega arith) (omega arith) (omega arith),
  )

  pub round_robin_loop-Distinct :
      (start left i : ℕ)
      → Distinct ids
      → left ≤ length available
      → start + i + left ≤ usize_modulus
      → Distinct (round_robin_loop available start left i)
  unfolding round_robin_loop
  round_robin_loop-Distinct start zero i d near fits = tt
  round_robin_loop-Distinct start (suc left) i d near fits = (
    later_visits start i left (i + 1) d (omega arith) (omega arith) (omega arith),
    round_robin_loop-Distinct start left (i + 1) d (omega arith) (omega arith),
  )
