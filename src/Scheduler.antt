-- ===== src/Scheduler.antt =====
-- machineplane/scheduler/src/lib.rs: the placement of a workload on the available nodes.
-- `load_factor` is an `f32`: its type and `partial_cmp` are parameters. The round-robin counter is
-- passed on as state; the clock that seeds the random strategy is an argument, and so is the order in
-- which a `HashSet` gives its entries, `iteration`, as a function of the list of its insertions.
mod Available
mod Rotation
mod Reordering
pub mod Random
pub mod Load
pub mod Selects
pub mod Plan
mod Tests
use Prim.Native.Nat.{Ordering}
use beemesh.Prelude.{
  ℕ, zero, suc, ◌+◌, ◌-◌, ◌%◌, min, String, Bool, true, false, ◌&&◌, Option, none, some, List, [],
  ◌∷◌, ◌++◌, map, Result, ok, err, ltb, ◌==◌, if◌then◌else◌, length, take, filter, is_empty,
  get_elem?, any, usize_modulus, unwrap_or, ◌>>=◌,
}

pub data SchedulingStrategy : Type 0 where
  round_robin random load_based first_available : SchedulingStrategy

pub record SchedulerConfig : Type 0 where
  pub max_candidates : Option ℕ
  pub strategy : SchedulingStrategy
  pub enable_load_balancing : Bool

pub record NodeCapabilities : Type 0 where
  pub cpu_cores : ℕ
  pub memory_mb : ℕ
  pub storage_mb : ℕ
  pub container_runtimes : List String

pub record NodeCandidate (F32 : Type 0) : Type 0 where
  pub node_id : String
  pub load_factor : F32
  pub available : Bool
  pub capabilities : NodeCapabilities

pub record SchedulingPlan : Type 0 where
  pub selected_candidates : List ℕ
  pub total_candidates : ℕ
  pub strategy_used : SchedulingStrategy

pub data SchedulingError : Type 0 where
  no_candidates_available : SchedulingError
  no_available_candidates : SchedulingError
  insufficient_candidates : (available required : ℕ) → SchedulingError
  selection_failed : SchedulingError

-- `Default for SchedulerConfig` and `Default for NodeCapabilities`
abbrev pub default_config : SchedulerConfig
default_config = record {
  max_candidates = none;
  strategy = round_robin;
  enable_load_balancing = true;
}

abbrev pub default_capabilities : NodeCapabilities
default_capabilities = record {
  cpu_cores = 1;
  memory_mb = 1024;
  storage_mb = 10240;
  container_runtimes = "docker" ∷ [];
}

pub record Scheduler : Type 0 where
  pub config : SchedulerConfig
  pub round_robin_counter : ℕ

pub new : SchedulerConfig → Scheduler
new config = record { config = config; round_robin_counter = 0 }

pub record SchedulerStats : Type 0 where
  pub strategy : SchedulingStrategy
  pub round_robin_counter : ℕ
  pub load_balancing_enabled : Bool

pub get_stats : Scheduler → SchedulerStats
get_stats s = record {
  strategy = s.config.strategy;
  round_robin_counter = s.round_robin_counter;
  load_balancing_enabled = s.config.enable_load_balancing;
}

-- `iter().enumerate()`, from index `i`
pub enumerate {ℓ} : {A : Type ℓ} → ℕ → List A → List (ℕ × A)
enumerate i [] = []
enumerate i (x ∷ xs) = (i, x) ∷ enumerate (i + 1) xs

abbrev pub max_attempts : ℕ
max_attempts = 1000

-- `HashSet::insert`: a set is the list of its entries in the order of their insertion
pub set_insert : ℕ → List ℕ → List ℕ
set_insert x s = if any (λ y. y == x) s then s else s ++ x ∷ []

-- `required_count`, cut at the configured maximum
pub actual_required : Scheduler → ℕ → ℕ
actual_required s required_count = elim s.config.max_candidates [
  | some bound ↦ min required_count bound
  | none ↦ required_count
]

module _ {F32 : Type 0} where
  pub available_candidates : List (NodeCandidate F32) → List (ℕ × NodeCandidate F32)
  unfolding enumerate
  available_candidates candidates = filter (λ e. e.1.available) (enumerate 0 candidates)

  -- the plan of a selection that succeeded
  pub plan_of : Scheduler → List (NodeCandidate F32) → List ℕ → SchedulingPlan
  plan_of s candidates selected = record {
    selected_candidates = selected;
    total_candidates = length candidates;
    strategy_used = s.config.strategy;
  }

  -- The `idx`-th entry's candidate index. Out of bounds the source would panic: the callers
  -- reduce `idx` modulo the length of a list that is not empty.
  pub index_at : List (ℕ × NodeCandidate F32) → ℕ → ℕ
  index_at available idx = unwrap_or (get_elem? (map (λ e. e.0) available) idx) 0

  -- the `for i in 0..count` of `select_round_robin`: `left` rounds are to come
  pub round_robin_loop : List (ℕ × NodeCandidate F32) → ℕ → (left i : ℕ) → List ℕ
  round_robin_loop available start zero i = []
  round_robin_loop available start (suc left) i =
      index_at available (((start + i) % usize_modulus) % length available)
      ∷ round_robin_loop available start left (i + 1)

  -- `fetch_add` wraps and returns the old value
  pub select_round_robin : Scheduler → List (ℕ × NodeCandidate F32) → ℕ → Scheduler × List ℕ
  unfolding round_robin_loop index_at
  select_round_robin s available count = (
    record s { round_robin_counter = (s.round_robin_counter + 1) % usize_modulus },
    round_robin_loop available s.round_robin_counter count 0,
  )

  -- the `while` of `select_random`: `left` is `MAX_ATTEMPTS - attempts`
  pub random_loop : List (ℕ × NodeCandidate F32) → (count seed left attempts : ℕ) → List ℕ → List ℕ
  random_loop available count seed zero attempts selected = selected
  random_loop available count seed (suc left) attempts selected =
      let next = random_loop available count seed left (attempts + 1) (
        set_insert (index_at available (((seed + attempts) % usize_modulus) % length available))
          selected) in
      if ltb (length selected) count then next else selected

  pub select_random :
      (iteration : List ℕ → List ℕ)
      → List (ℕ × NodeCandidate F32)
      → (count seed : ℕ) → Result (List ℕ) SchedulingError
  select_random iteration available count seed =
      let selected = random_loop available count seed max_attempts 0 [] in
      if ltb (length selected) count then err selection_failed else ok (iteration selected)

  module _ (partial_cmp : F32 → F32 → Option Ordering) where
    -- `b.load` sorts strictly before `a.load`; an unordered pair counts as equal
    pub comes_before : ℕ × F32 → ℕ × F32 → Bool
    comes_before b a = elim (unwrap_or (partial_cmp b.1 a.1) Ordering.eq) [
      | Ordering.lt ↦ true
      | _ ↦ false
    ]

    -- `sort_by` is a stable sort: an element goes behind those that it does not precede
    pub sort_insert : ℕ × F32 → List (ℕ × F32) → List (ℕ × F32)
    sort_insert x [] = x ∷ []
    sort_insert x (y ∷ ys) =
        let rest = sort_insert x ys in if comes_before y x then y ∷ rest else x ∷ y ∷ ys

    pub sort_by_load : List (ℕ × F32) → List (ℕ × F32)
    sort_by_load [] = []
    sort_by_load (x ∷ xs) = sort_insert x (sort_by_load xs)

    pub select_load_based : List (ℕ × NodeCandidate F32) → ℕ → List ℕ
    unfolding sort_by_load sort_insert comes_before
    select_load_based available count =
        map (λ e. e.0) (take count (sort_by_load (map (λ e. (e.0, e.1.load_factor)) available)))

  module _ (partial_cmp : F32 → F32 → Option Ordering) (iteration : List ℕ → List ℕ) where
    pub select_candidates :
        Scheduler
        → (seed : ℕ) → List (ℕ × NodeCandidate F32)
        → ℕ
        → Scheduler × Result (List ℕ) SchedulingError
    select_candidates s seed available count = elim s.config.strategy [
      | round_robin ↦ let (s', selected) = select_round_robin s available count in (s', ok selected)
      | random ↦ (s, select_random iteration available count seed)
      | load_based ↦ (s, ok (select_load_based partial_cmp available count))
      | first_available ↦ (s, ok (map (λ e. e.0) (take count available)))
    ]

    pub schedule_workload :
        Scheduler
        → (seed : ℕ) → List (NodeCandidate F32)
        → ℕ
        → Scheduler × Result SchedulingPlan SchedulingError
    unfolding plan_of
    schedule_workload s seed candidates required_count =
        let available = available_candidates candidates in
        let required = actual_required s required_count in
        if is_empty candidates
        then (s, err no_candidates_available)
        else if is_empty available
        then (s, err no_available_candidates)
        else if ltb (length available) required
        then (s, err (insufficient_candidates (length available) required))
        else let (s', selected) = select_candidates s seed available required in
          (s', (do chosen ← selected; ok (plan_of s candidates chosen)))
