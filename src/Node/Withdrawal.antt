-- ===== src/Node/Withdrawal.antt =====
-- What remove_workloads_by_manifest_id of workload_integration.rs removes, and what the node forgets
-- of the manifest then.
use Prim.Native.String.{◌++◌ as append}
use mathlib.Core.Path.{subst}
use mathlib.Core.List.{append_assoc, append-nil}
use beemesh.Prelude.{
  ℕ, suc, ◌+◌, ◌≤◌, ◌≡◌, refl, ap, sym, ◌∙◌, String, true, false, ◌&&◌, Bool-cases, inl, inr, none,
  some, List, [], ◌∷◌, ◌++◌, map, ok, err, arith, str_eq, eq_iff, if◌then◌else◌, length,
  length-append, filter, is_empty,
}
use beemesh.HashMap.{get}
use beemesh.HashMap.Laws.{get-remove, map_option}
use beemesh.Provider.{ProviderManager, stop_providing}
use beemesh.Runtime.{RuntimeResult, WorkloadInfo}
use beemesh.Runtime.Registry.{RuntimeEngine}
use beemesh.Node.{Node}
use beemesh.Node.Removal.{Removals, note_removal, remove_one, remove_matching, withdraw}

pub stop_providing-absent :
    (id : String) (m : ProviderManager) → get id (stop_providing id m).0.local_providers ≡ none
unfolding stop_providing
stop_providing-absent id m = ground (arith, get-remove id id m.local_providers, eq_iff id id)

-- nothing is lost from the lists of a removal
abbrev pub count : Removals → ℕ
count r = length r.removed_workloads + length r.errors

note_removal-count :
    (name id : String) (r : Removals) (a : RuntimeResult (Unit {0}))
    → count (note_removal name id r a) ≡ suc (count r)
unfolding note_removal
note_removal-count name id r (ok x) = omega (arith, length-append r.removed_workloads (id ∷ []))
note_removal-count name id r (err e) =
    omega (arith, length-append r.errors (append name (append ":" id) ∷ []))

-- the workloads of the manifest
abbrev pub of_manifest : String → List WorkloadInfo → List WorkloadInfo
of_manifest id = filter (λ info. str_eq info.manifest_id id)

note_removal-errors-le :
    (name id : String) (r : Removals) (a : RuntimeResult (Unit {0}))
    → length r.errors ≤ length (note_removal name id r a).errors
unfolding note_removal
note_removal-errors-le name id r (ok x) = omega arith
note_removal-errors-le name id r (err e) =
    omega (arith, length-append r.errors (append name (append ":" id) ∷ []))

note_removal_removes :
    (name id : String) (r : Removals) (a : RuntimeResult (Unit {0}))
    → length (note_removal name id r a).errors ≤ length r.errors
    → (note_removal name id r a).removed_workloads ≡ r.removed_workloads ++ id ∷ []
unfolding note_removal
note_removal_removes name id r (ok x) h = refl
note_removal_removes name id r (err e) h =
    absurd (omega (arith, length-append r.errors (append name (append ":" id) ∷ [])))

module _ {W : Type 0} (name id : String) (engine : RuntimeEngine W) where
  remove_one-mine :
      (info : WorkloadInfo) (s : W × Removals)
      → str_eq info.manifest_id id ≡ true
      → (remove_one name id engine info s).1
        ≡ note_removal name info.id s.1 (engine.remove_workload info.id s.0).1
  unfolding remove_one
  remove_one-mine info (w, r) mine = rw mine refl

  remove_one-other :
      (info : WorkloadInfo) (s : W × Removals)
      → str_eq info.manifest_id id ≡ false
      → remove_one name id engine info s ≡ s
  unfolding remove_one
  remove_one-other info (w, r) other = rw other refl

  skip :
      (info : WorkloadInfo) (ws : List WorkloadInfo) (s : W × Removals)
      → str_eq info.manifest_id id ≡ false
      → remove_matching name id engine (info ∷ ws) s ≡ remove_matching name id engine ws s
  unfolding remove_matching
  skip info ws s other = ap (remove_matching name id engine ws) (remove_one-other info s other)

  -- Every workload of the manifest that the engine lists is counted once, as removed or as failed,
  -- and no other workload is.
  pub remove_matching-count :
      (ws : List WorkloadInfo) (s : W × Removals)
      → count (remove_matching name id engine ws s).1 ≡ count s.1 + length (of_manifest id ws)
  unfolding remove_matching
  remove_matching-count [] s = omega arith
  remove_matching-count (info ∷ ws) s =
      let ih = remove_matching-count ws (remove_one name id engine info s) in
      let noted = note_removal-count name info.id s.1 (engine.remove_workload info.id s.0).1 in
      elim (Bool-cases (str_eq info.manifest_id id)) [
        | inl mine ↦
            let ih = rw (remove_one-mine info s mine) at ih in rw mine (omega (arith, ih, noted))
        | inr other ↦
            ap (λ (t : W × Removals). count t.1) (skip info ws s other)
            ∙ rw other (remove_matching-count ws s)
      ]

  pub errors-le :
      (ws : List WorkloadInfo) (s : W × Removals)
      → length (s.1).errors ≤ length (remove_matching name id engine ws s).1.errors
  unfolding remove_matching
  errors-le [] s = omega arith
  errors-le (info ∷ ws) s = elim (Bool-cases (str_eq info.manifest_id id)) [
    | inl mine ↦
        let grown =
          note_removal-errors-le name info.id s.1 (engine.remove_workload info.id s.0).1 in
        let grown = rw (← remove_one-mine info s mine) at grown in
        omega (arith, grown, errors-le ws (remove_one name id engine info s))
    | inr other ↦
        subst (λ t. length (s.1).errors ≤ length (t.1).errors) (sym (skip info ws s other))
          (errors-le ws s)
  ]

  few :
      (info : WorkloadInfo) (s : W × Removals)
      → str_eq info.manifest_id id ≡ true
      → length (remove_one name id engine info s).1.errors ≤ length (s.1).errors
      → length (note_removal name info.id s.1 (engine.remove_workload info.id s.0).1).errors
        ≤ length (s.1).errors
  few info s mine h = rw (← remove_one-mine info s mine) h

  -- If no removal failed, the workloads reported are those of the manifest, in the engine's order.
  pub remove_matching_removes :
      (ws : List WorkloadInfo) (s : W × Removals)
      → length (remove_matching name id engine ws s).1.errors ≡ length (s.1).errors
      → (remove_matching name id engine ws s).1.removed_workloads
        ≡ (s.1).removed_workloads ++ map (λ info. info.id) (of_manifest id ws)
  unfolding remove_matching
  remove_matching_removes [] s h = sym (append-nil (s.1).removed_workloads)
  remove_matching_removes (info ∷ ws) s h = elim (Bool-cases (str_eq info.manifest_id id)) [
    | inl mine ↦
        let answer = (engine.remove_workload info.id s.0).1 in
        let s1 = remove_one name id engine info s in
        let grown = note_removal-errors-le name info.id s.1 answer in
        let grown = rw (← remove_one-mine info s mine) at grown in
        let one : (s1.1).removed_workloads ≡ (s.1).removed_workloads ++ info.id ∷ [] =
          rw (remove_one-mine info s mine) (
            note_removal_removes name info.id s.1 answer
              (few info s mine (omega (arith, h, errors-le ws s1)))) in
        let ids = map (λ i. i.id) (of_manifest id ws) in
        rw mine (
          remove_matching_removes ws s1 (omega (arith, h, errors-le ws s1, grown))
          ∙ ap (λ t. t ++ ids) one
          ∙ append_assoc (s.1).removed_workloads (info.id ∷ []) ids)
    | inr other ↦
        let same = skip info ws s other in
        let few : length (remove_matching name id engine ws s).1.errors ≡ length (s.1).errors =
          subst (λ t. length (t.1).errors ≡ length (s.1).errors) same h in
        ap (λ (t : W × Removals). (t.1).removed_workloads) same
        ∙ rw other (remove_matching_removes ws s few)
  ]

module _ {W : Type 0} where
  withdraw-host : (id : String) (s : W × Removals) (n : Node W) → (withdraw id s n).host ≡ s.0
  unfolding withdraw
  withdraw-host id (w, r) n = ground arith

  pub withdraw-provider :
      (id : String) (s : W × Removals) (n : Node W) (m : ProviderManager)
      → n.provider_manager ≡ some m
      → (withdraw id s n).provider_manager ≡ some (stop_providing id m).0
  unfolding withdraw
  withdraw-provider id (w, r) n m prov = elim (Bool-cases (is_empty r.errors)) [
    | inl clean ↦ rw clean (ap (map_option (λ m. (stop_providing id m).0)) prov)
    | inr dirty ↦ rw dirty (ap (map_option (λ m. (stop_providing id m).0)) prov)
  ]

  pub withdraw-owners :
      (id : String) (s : W × Removals) (n : Node W) (j : String)
      → get j (withdraw id s n).owners
        ≡ (if str_eq id j && is_empty (s.1).errors then none else get j n.owners)
  unfolding withdraw
  withdraw-owners id (w, r) n j = ground (arith, get-remove id j n.owners)
