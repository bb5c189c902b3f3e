-- ===== src/Scheduler/Tests.antt =====
-- Runs of the scheduler on three nodes, of which two are available.
use Prim.Native.Nat.{Ordering}
use mathlib.Core.List.{Perm, Permᴰ}
use mathlib.Core.List.Permᴰ
use beemesh.Prelude.{
  ℕ, ◌≡◌, refl, String, Bool, true, false, Option, some, List, [], ◌∷◌, ◌++◌, map, min, ok, err,
  is_ok, ltb, ◌==◌, if◌then◌else◌, arith, length, Distinct, All,
}
use beemesh.Scheduler.{
  SchedulingStrategy, NodeCandidate, SchedulingPlan, Scheduler, round_robin, random, load_based,
  first_available, insufficient_candidates, default_config, default_capabilities, new, get_stats,
  schedule_workload, select_candidates, select_round_robin, available_candidates, actual_required,
  select_load_based, select_random, random_loop, set_insert, index_at, round_robin_loop,
  comes_before,
}
use beemesh.Scheduler.Available.{Chosen}
use beemesh.Scheduler.Reordering.{Reorders}
use beemesh.Scheduler.Selects.{Selects}
use beemesh.Scheduler.Random.{select_random-eq-round_robin_loop}
use beemesh.Scheduler.Load.{IsOrdered, select_load_based_least}
use beemesh.Scheduler.Plan.{
  schedule_workload-Selects, schedule_workload-Distinct, is_ok-schedule_workload,
}

abbrev cmp : ℕ → ℕ → Option Ordering
cmp a b = some (if ltb a b then Ordering.lt else if a == b then Ordering.eq else Ordering.gt)

abbrev node : String → ℕ → Bool → NodeCandidate ℕ
node name load available = record {
  node_id = name;
  load_factor = load;
  available = available;
  capabilities = default_capabilities;
}

abbrev nodes : List (NodeCandidate ℕ)
nodes = node "a" 70 true ∷ node "b" 10 false ∷ node "c" 30 true ∷ []

abbrev entries : List (ℕ × NodeCandidate ℕ)
entries = (0, node "a" 70 true) ∷ (2, node "c" 30 true) ∷ []

abbrev scheduler : SchedulingStrategy → Scheduler
scheduler strategy = record {
  config = record default_config { strategy = strategy };
  round_robin_counter = 5;
}

unfoldable backwards : List ℕ → List ℕ
backwards [] = []
backwards (x ∷ xs) = backwards xs ++ x ∷ []

behind : (x : ℕ) (xs : List ℕ) → Permᴰ (xs ++ x ∷ []) (x ∷ xs)
behind x [] = Permᴰ.refl (x ∷ [])
behind x (y ∷ ys) = Permᴰ.trans (Permᴰ.cons refl (behind x ys)) (Permᴰ.swap refl refl)

backwards-Reorders : Reorders backwards
unfolding backwards
backwards-Reorders [] = Permᴰ.refl []
backwards-Reorders (x ∷ xs) =
    Permᴰ.trans (behind x (backwards xs)) (Permᴰ.cons refl (backwards-Reorders xs))

abbrev plan : SchedulingStrategy → List ℕ → SchedulingPlan
plan strategy selected = record {
  selected_candidates = selected;
  total_candidates = 3;
  strategy_used = strategy;
}

new_scheduler :
    get_stats (new default_config)
    ≡ record { strategy = round_robin; round_robin_counter = 0; load_balancing_enabled = true }
unfolding get_stats new
new_scheduler = refl

round_robin_plan :
    (schedule_workload cmp backwards (scheduler round_robin) 0 nodes 2).1
    ≡ ok (plan round_robin (2 ∷ 0 ∷ []))
unfolding schedule_workload available_candidates actual_required select_candidates
    select_round_robin
round_robin_plan = refl

load_plan :
    (schedule_workload cmp backwards (scheduler load_based) 0 nodes 1).1
    ≡ ok (plan load_based (2 ∷ []))
unfolding schedule_workload available_candidates actual_required select_candidates select_load_based
load_plan = refl

first_plan :
    (schedule_workload cmp backwards (scheduler first_available) 0 nodes 2).1
    ≡ ok (plan first_available (0 ∷ 2 ∷ []))
unfolding schedule_workload available_candidates actual_required select_candidates
first_plan = refl

no_plan :
    (schedule_workload cmp backwards (scheduler random) 0 nodes 3).1
    ≡ err (insufficient_candidates 2 3)
unfolding schedule_workload available_candidates actual_required
no_plan = refl

cmp-IsOrdered : IsOrdered cmp
cmp-IsOrdered = record {
  asym = λ a b h k. ground arith;
  negative_trans = λ a b c p q h. ground arith;
}

-- here the set gives its entries in the reverse order
random_run : select_random backwards entries 2 7 ≡ ok (0 ∷ 2 ∷ [])
unfolding select_random backwards random_loop set_insert index_at
random_run = refl

select_random-eq-round_robin_loop_example :
    (selected : List ℕ) × (select_random backwards entries 2 7 ≡ ok selected)
    × Permᴰ selected (round_robin_loop entries 7 2 0)
    × Distinct selected
select_random-eq-round_robin_loop_example =
    select_random-eq-round_robin_loop entries 2 7 backwards backwards-Reorders
      (((λ e. omega arith), tt), (tt, tt)) (omega arith) (omega arith) (omega arith)

select_load_based_least_example :
    (chosen : List (ℕ × ℕ)) × (rest : List (ℕ × ℕ)) × Perm
      (chosen ++ rest)
      (map (λ e. (e.0, e.1.load_factor)) entries)
    × (select_load_based cmp entries 1 ≡ map (λ e. e.0) chosen)
    × (length chosen ≡ min 1 (length entries))
    × All (λ a. All (λ b. comes_before cmp b a ≡ false) rest) chosen
select_load_based_least_example = select_load_based_least cmp cmp-IsOrdered entries 1

schedule_workload-Selects_example :
    Selects (Chosen nodes) (actual_required (scheduler round_robin) 2) (2 ∷ 0 ∷ [])
    × ((plan round_robin (2 ∷ 0 ∷ [])).total_candidates ≡ length nodes)
    × (round_robin ≡ round_robin)
schedule_workload-Selects_example =
    schedule_workload-Selects cmp backwards backwards-Reorders (scheduler round_robin) 0 nodes 2
      (plan round_robin (2 ∷ 0 ∷ [])) round_robin_plan

schedule_workload-Distinct_example : Distinct (2 ∷ 0 ∷ [])
unfolding actual_required
schedule_workload-Distinct_example =
    schedule_workload-Distinct cmp backwards backwards-Reorders (scheduler round_robin) 0 nodes 2
      (plan round_robin (2 ∷ 0 ∷ [])) (omega arith) round_robin_plan

is_ok-schedule_workload_example :
    is_ok (schedule_workload cmp backwards (scheduler random) 7 nodes 2).1 ≡ true
unfolding actual_required available_candidates
is_ok-schedule_workload_example =
    is_ok-schedule_workload cmp backwards (scheduler random) 7 nodes 2 (omega arith)
