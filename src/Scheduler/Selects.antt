-- ===== src/Scheduler/Selects.antt =====
-- What each strategy selects from the available nodes.
use Prim.Native.Nat.{Ordering}
use beemesh.Prelude.{
  ℕ, zero, suc, ◌+◌, ◌≤◌, ◌<◌, ◌≡◌, refl, ap, ◌∙◌, Option, List, [], ◌∷◌, map, arith, length, take,
  All, All-take, Distinct, Distinct-take, if◌then◌else◌, Bool-cases, inl, inr, length-map,
  length-take, ok, err, ltb, usize_modulus,
}
use beemesh.Scheduler.{
  NodeCandidate, Scheduler, SchedulingStrategy, round_robin, random, load_based, first_available,
  SchedulingError, sort_by_load, select_load_based, select_random, select_round_robin,
  select_candidates, max_attempts, random_loop,
}
use beemesh.Scheduler.Rotation.{
  ids, length-round_robin_loop, round_robin_loop-All, round_robin_loop-Distinct,
}
use beemesh.Scheduler.Random.{random_loop-All, random_loop-Distinct, length-random_loop-le}
use beemesh.Scheduler.Reordering.{Reorders, length-Reordered, All-Reordered, Distinct-Reordered}
use beemesh.Scheduler.Load.{All-sort_by_load, length-sort_by_load, Distinct-sort_by_load}

-- The plan names `required` nodes, each satisfying `P`.
pub record Selects (P : ℕ → Type 0) (required : ℕ) (selected : List ℕ) : Type 0 where
  pub count : length selected ≡ required
  pub each : All P selected

All-map_ids {ℓ} :
    {B : Type 0} (P : ℕ → Type ℓ) (xs : List (ℕ × B))
    → All (λ e. P e.0) xs
    → All P (map (λ e. e.0) xs)
All-map_ids P [] h = tt
All-map_ids P (x ∷ xs) h = (h.0, All-map_ids P xs h.1)

All-loads {ℓ} :
    {F32 : Type 0} (P : ℕ → Type ℓ) (xs : List (ℕ × NodeCandidate F32))
    → All (λ e. P e.0) xs
    → All (λ (e : ℕ × F32). P e.0) (map (λ e. (e.0, e.1.load_factor)) xs)
All-loads P [] h = tt
All-loads P (x ∷ xs) h = (h.0, All-loads P xs h.1)

map-ids-loads :
    {F32 : Type 0} (xs : List (ℕ × NodeCandidate F32))
    → map (λ (e : ℕ × F32). e.0) (map (λ e. (e.0, e.1.load_factor)) xs) ≡ ids xs
map-ids-loads [] = refl
map-ids-loads (x ∷ xs) = ap (◌∷◌ x.0) (map-ids-loads xs)

take-map {ℓ κ} :
    {A : Type ℓ} {B : Type κ} (f : A → B) (n : ℕ) (xs : List A)
    → take n (map f xs) ≡ map f (take n xs)
take-map f zero xs = refl
take-map f (suc n) [] = refl
take-map f (suc n) (x ∷ xs) = ap (◌∷◌ (f x)) (take-map f n xs)

module _ {F32 : Type 0} (partial_cmp : F32 → F32 → Option Ordering) (iteration : List ℕ → List ℕ)
    (reorders : Reorders iteration) where
  module _ (P : ℕ → Type 0) (available : List (ℕ × NodeCandidate F32)) (count : ℕ) where
    Selects-load_based :
        count ≤ length available
        → All (λ e. P e.0) available
        → Selects P count (select_load_based partial_cmp available count)
    unfolding select_load_based
    Selects-load_based near h =
        let loads : List (ℕ × F32) = map (λ e. (e.0, e.1.load_factor)) available in
        let sorted = sort_by_load partial_cmp loads in
        let l : length sorted ≡ length available =
          length-sort_by_load partial_cmp loads ∙ length-map _ available in
        record {
          count = length-map _ (take count sorted) ∙ length-take count sorted (omega (arith, l));
          each = All-map_ids P (take count sorted) (
              All-take (λ e. P e.0) count sorted
                (All-sort_by_load partial_cmp (λ e. P e.0) loads (All-loads P available h)));
        }

    Selects-random :
        (seed : ℕ) (selected : List ℕ)
        → 0 < length available
        → All (λ e. P e.0) available
        → select_random iteration available count seed ≡ ok selected
        → Selects P count selected
    unfolding select_random
    Selects-random seed selected pos h e =
        let found = random_loop available count seed max_attempts 0 [] in
        let b = (length-random_loop-le available count seed max_attempts 0 [] (omega arith)).1 in
        let a = random_loop-All available count seed P max_attempts 0 [] pos h tt in
        settle found b a e
      where
        settle :
            (found : List ℕ)
            → length found ≤ count
            → All P found
            → (if ltb (length found) count
                then err SchedulingError.selection_failed
                else ok (iteration found))
              ≡ ok selected
            → Selects P count selected
        settle found b a q = elim (Bool-cases (ltb (length found) count)) [
          | inl short ↦ ground arith
          | inr enough ↦
              let same : iteration found ≡ selected = ground arith in
              let l = length-Reordered (reorders found) in
              rw (← same)
                (record { count = ground (arith, l); each = All-Reordered P (reorders found) a })
        ]

    Distinct-random :
        (seed : ℕ) (selected : List ℕ)
        → select_random iteration available count seed ≡ ok selected
        → Distinct selected
    unfolding select_random
    Distinct-random seed selected e =
        let found = random_loop available count seed max_attempts 0 [] in
        settle found (random_loop-Distinct available count seed max_attempts 0 [] tt) e
      where
        settle :
            (found : List ℕ)
            → Distinct found
            → (if ltb (length found) count
                then err SchedulingError.selection_failed
                else ok (iteration found))
              ≡ ok selected
            → Distinct selected
        settle found d q = elim (Bool-cases (ltb (length found) count)) [
          | inl short ↦ ground arith
          | inr enough ↦
              let same : iteration found ≡ selected = ground arith in
              rw (← same) (Distinct-Reordered (reorders found) d)
        ]

    Distinct-load_based :
        Distinct (ids available) → Distinct (select_load_based partial_cmp available count)
    unfolding select_load_based
    Distinct-load_based d =
        let loads : List (ℕ × F32) = map (λ e. (e.0, e.1.load_factor)) available in
        rw (← take-map (λ (e : ℕ × F32). e.0) count (sort_by_load partial_cmp loads)) (
          Distinct-take count _
            (Distinct-sort_by_load partial_cmp loads (rw (map-ids-loads available) d)))

    -- Whatever the strategy, a selection names as many nodes as asked for, all of them available.
    pub Selects-select_candidates :
        (strategy : SchedulingStrategy) (s : Scheduler) (seed : ℕ) (selected : List ℕ)
        → s.config.strategy ≡ strategy
        → 0 < length available
        → count ≤ length available
        → All (λ e. P e.0) available
        → (select_candidates partial_cmp iteration s seed available count).1 ≡ ok selected
        → Selects P count selected
    unfolding select_candidates select_round_robin
    Selects-select_candidates round_robin s seed selected is pos near h e =
        let found = round_robin_at is e in
        rw (← found) (record {
          count = length-round_robin_loop available s.round_robin_counter count 0;
          each = round_robin_loop-All available P s.round_robin_counter count 0 pos h;
        })
      where
        round_robin_at :
            s.config.strategy ≡ round_robin
            → (select_candidates partial_cmp iteration s seed available count).1 ≡ ok selected
            → (select_round_robin s available count).1 ≡ selected
        round_robin_at p q = ground arith
    Selects-select_candidates random s seed selected is pos near h e =
        Selects-random seed selected pos h (ground arith)
    Selects-select_candidates load_based s seed selected is pos near h e =
        let found : select_load_based partial_cmp available count ≡ selected = ground arith in
        rw (← found) (Selects-load_based near h)
    Selects-select_candidates first_available s seed selected is pos near h e =
        let found : map (λ e. e.0) (take count available) ≡ selected = ground arith in
        rw (← found) (record {
          count = length-map _ (take count available) ∙ length-take count available near;
          each = All-map_ids P (take count available) (All-take (λ e. P e.0) count available h);
        })

    -- Round robin without a wrap of the counter, and every other strategy, name no node twice.
    pub Distinct-select_candidates :
        (strategy : SchedulingStrategy) (s : Scheduler) (seed : ℕ) (selected : List ℕ)
        → s.config.strategy ≡ strategy
        → count ≤ length available
        → s.round_robin_counter + count ≤ usize_modulus
        → Distinct (ids available)
        → (select_candidates partial_cmp iteration s seed available count).1 ≡ ok selected
        → Distinct selected
    unfolding select_candidates select_round_robin
    Distinct-select_candidates round_robin s seed selected is near fits d e =
        let found = round_robin_at is e in
        rw (← found)
          (round_robin_loop-Distinct available s.round_robin_counter count 0 d near (omega arith))
      where
        round_robin_at :
            s.config.strategy ≡ round_robin
            → (select_candidates partial_cmp iteration s seed available count).1 ≡ ok selected
            → (select_round_robin s available count).1 ≡ selected
        round_robin_at p q = ground arith
    Distinct-select_candidates random s seed selected is near fits d e =
        Distinct-random seed selected (ground arith)
    Distinct-select_candidates load_based s seed selected is near fits d e =
        let found : select_load_based partial_cmp available count ≡ selected = ground arith in
        rw (← found) (Distinct-load_based d)
    Distinct-select_candidates first_available s seed selected is near fits d e =
        let found : map (λ e. e.0) (take count available) ≡ selected = ground arith in
        rw (← found, ← take-map (λ (e : ℕ × NodeCandidate F32). e.0) count available)
          (Distinct-take count (ids available) d)
