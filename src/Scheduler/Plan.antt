-- ===== src/Scheduler/Plan.antt =====
-- What a plan of `schedule_workload` promises, whatever the strategy, and when there is one.
use Prim.Native.Nat.{Ordering}
use beemesh.Prelude.{
  ℕ, ◌+◌, ◌≤◌, ◌<◌, ◌≡◌, refl, Bool, true, not, ◌&&◌, Option, List, arith, length, Distinct,
  Bool-cases, Result-cases, inl, inr, ok, is_ok, leb, leb→le, is_empty, usize_modulus,
}
use beemesh.Scheduler.{
  NodeCandidate, Scheduler, SchedulingPlan, SchedulingStrategy, round_robin, random, load_based,
  first_available, select_random, select_round_robin, select_candidates, schedule_workload,
  available_candidates, enumerate, actual_required, max_attempts, plan_of,
}
use beemesh.Scheduler.Available.{Chosen, available_candidates-Chosen, available_candidates-Distinct}
use beemesh.Scheduler.Reordering.{Reorders}
use beemesh.Scheduler.Rotation.{ids}
use beemesh.Scheduler.Random.{select_random-visits, select_random_gives_up}
use beemesh.Scheduler.Selects.{Selects, Selects-select_candidates, Distinct-select_candidates}

module _ {F32 : Type 0} (partial_cmp : F32 → F32 → Option Ordering) (iteration : List ℕ → List ℕ)
    (reorders : Reorders iteration) where
  module _ (s : Scheduler) (seed : ℕ) (candidates : List (NodeCandidate F32))
      (required_count : ℕ) where
    -- The part of `schedule_workload` before the selection let it through.
    schedule_workload_inversion :
        (plan : SchedulingPlan)
        → (schedule_workload partial_cmp iteration s seed candidates required_count).1 ≡ ok plan
        → (selected : List ℕ) × ((select_candidates partial_cmp iteration s seed
              (available_candidates candidates)
              (actual_required s required_count)).1
            ≡ ok selected)
          × (plan ≡ plan_of s candidates selected)
          × (0 < length (available_candidates candidates))
          × (actual_required s required_count ≤ length (available_candidates candidates))
    unfolding schedule_workload
    schedule_workload_inversion plan e =
        elim (Result-cases
          (select_candidates partial_cmp iteration s seed (available_candidates candidates)
            (actual_required s required_count)).1) [
              | inl (selected, q) ↦ (selected, q, ground arith, ground arith, ground arith)
              | inr (x, q) ↦ ground arith
            ]

    -- A plan names exactly as many nodes as are asked for, cut at the configured maximum, each of
    -- them an available node under its index in `candidates`, and it reports the strategy and the
    -- number of all candidates, those that are not available included. So it is whatever the order
    -- in which a hash set gives its entries.
    pub schedule_workload-Selects :
        (plan : SchedulingPlan)
        → (schedule_workload partial_cmp iteration s seed candidates required_count).1 ≡ ok plan
        → Selects (Chosen candidates) (actual_required s required_count) plan.selected_candidates
          × (plan.total_candidates ≡ length candidates)
          × (plan.strategy_used ≡ s.config.strategy)
    unfolding plan_of
    schedule_workload-Selects plan e =
        let (selected, q, is, pos, near) = schedule_workload_inversion plan e in
        let chosen =
          Selects-select_candidates partial_cmp iteration reorders (Chosen candidates)
            (available_candidates candidates) (actual_required s required_count) s.config.strategy s
            seed selected refl pos near (available_candidates-Chosen candidates) q in
        rw is (chosen, refl, refl)

    -- A plan names no node twice, unless the round-robin counter wraps within it, whatever the order
    -- in which a hash set gives its entries.
    pub schedule_workload-Distinct :
        (plan : SchedulingPlan)
        → s.round_robin_counter + actual_required s required_count ≤ usize_modulus
        → (schedule_workload partial_cmp iteration s seed candidates required_count).1 ≡ ok plan
        → Distinct plan.selected_candidates
    unfolding plan_of
    schedule_workload-Distinct plan fits e =
        let (selected, q, is, pos, near) = schedule_workload_inversion plan e in
        rw is (
          Distinct-select_candidates partial_cmp iteration reorders (Chosen candidates)
            (available_candidates candidates) (actual_required s required_count) s.config.strategy s
            seed selected refl near fits (available_candidates-Distinct candidates) q)

-- What a strategy adds to the conditions for a plan of `count` nodes.
abbrev pub within_attempts : SchedulingStrategy → ℕ → Bool
within_attempts random count = leb count max_attempts
within_attempts round_robin count = true
within_attempts load_based count = true
within_attempts first_available count = true

module _ {F32 : Type 0} (partial_cmp : F32 → F32 → Option Ordering) (iteration : List ℕ → List ℕ)
    (s : Scheduler) (seed : ℕ) where
  is_ok-select_random :
      (available : List (ℕ × NodeCandidate F32)) (count : ℕ)
      → Distinct (ids available)
      → count ≤ length available
      → seed + count ≤ usize_modulus
      → is_ok (select_random iteration available count seed) ≡ leb count max_attempts
  is_ok-select_random available count d near fits = elim (Bool-cases (leb count max_attempts)) [
    | inl few ↦
        rw (few, select_random-visits available count seed iteration d near (leb→le _ _ few) fits)
    | inr many ↦ rw (many, select_random_gives_up available count seed iteration (ground arith))
  ]

  is_ok-select_candidates :
      (strategy : SchedulingStrategy) (available : List (ℕ × NodeCandidate F32)) (count : ℕ)
      → s.config.strategy ≡ strategy
      → Distinct (ids available)
      → count ≤ length available
      → seed + count ≤ usize_modulus
      → is_ok (select_candidates partial_cmp iteration s seed available count).1
        ≡ within_attempts strategy count
  unfolding select_candidates select_round_robin
  is_ok-select_candidates random available count is d near fits =
      ground (arith, is_ok-select_random available count d near fits)
  is_ok-select_candidates round_robin available count is d near fits = ground arith
  is_ok-select_candidates load_based available count is d near fits = ground arith
  is_ok-select_candidates first_available available count is d near fits = ground arith

  -- Unless the clock is at the end of `usize`, there is a plan exactly when some candidate is
  -- available, the available ones suffice for the number that is required (after the configured
  -- cut) and, under the random strategy, that number is at most `MAX_ATTEMPTS`.
  pub is_ok-schedule_workload :
      (candidates : List (NodeCandidate F32)) (required_count : ℕ)
      → seed + actual_required s required_count ≤ usize_modulus
      → is_ok (schedule_workload partial_cmp iteration s seed candidates required_count).1 ≡ (
          not (is_empty (available_candidates candidates))
          && (leb (actual_required s required_count) (length (available_candidates candidates))
              && within_attempts s.config.strategy (actual_required s required_count)))
  is_ok-schedule_workload candidates required_count fits =
      let available = available_candidates candidates in
      let required = actual_required s required_count in
      let none_of_none : is_empty candidates ≡ true → is_empty available ≡ true =
        available_of_empty candidates in
      elim (Bool-cases (leb required (length available))) [
        | inl near ↦
            let e =
              is_ok-select_candidates s.config.strategy available required refl
                (available_candidates-Distinct candidates) (leb→le _ _ near) fits in
            unfold schedule_workload in ground (arith, none_of_none, e)
        | inr far ↦ unfold schedule_workload in ground (arith, none_of_none)
      ]
    where
      available_of_empty :
          (cs : List (NodeCandidate F32))
          → is_empty cs ≡ true
          → is_empty (available_candidates cs) ≡ true
      available_of_empty cs h = unfold available_candidates enumerate in ground arith
