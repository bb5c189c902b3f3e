-- ===== src/Engines/Mock/Completeness.antt =====
-- What a removal by manifest does on a node that has the mock engine alone.
use beemesh.Prelude.{
  ◌≡◌, refl, ap, ◌∙◌, String, Bool, false, ◌&&◌, Option, none, some, List, [], ◌∷◌, map, any,
  str_eq, eq_iff, arith, if◌then◌else◌, Bool-cases, inl, inr, any-sort_by, is_empty, sort_by,
}
use beemesh.HashMap.{HashMap, get, values}
use beemesh.HashMap.Laws.{IsMap}
use beemesh.Runtime.{WorkloadInfo}
use beemesh.Runtime.Registry.{
  RuntimeEngine, RuntimeRegistry, create_mock_only_registry, register, new_registry,
  set_default_engine, list_engines, get_engine,
}
use beemesh.Node.{Libraries, Node}
use beemesh.Node.Removal.{
  Removals, remove_one, remove_matching, remove_listed, remove_found, remove_from_all, withdraw,
  remove_with, remove_workloads_by_manifest_id,
}
use beemesh.Engines.{System}
use beemesh.Engines.Mock.{MockWorkload, MockConfig, Books}
use beemesh.Engines.Mock.Operations.{list_workloads, mock_engine, created_before, with_time}
use beemesh.Engines.Mock.Workloads.{IsKeyed, Keyed, Reach, Reach-IsKeyed, get-remove_workload}

-- the workload of that id, which belongs to the manifest
abbrev matches : (id j : String) → WorkloadInfo → Bool
matches id j info = str_eq info.manifest_id id && str_eq info.id j

-- the workloads of the other manifests
abbrev pub of_others : (id : String) → Option MockWorkload → Option MockWorkload
of_others id none = none
of_others id (some workload) = if str_eq workload.info.manifest_id id then none else some workload

any-map :
    (p : WorkloadInfo → Bool) (f : MockWorkload → WorkloadInfo) (xs : List MockWorkload)
    → any p (map f xs) ≡ any (λ x. p (f x)) xs
any-map p f [] = refl
any-map p f (x ∷ xs) = rw (any-map p f xs) refl

-- `matches` of a workload that stands under its own id
matches-keyed :
    (id j k : String) (info : WorkloadInfo)
    → k ≡ info.id
    → matches id j info ≡ (str_eq info.manifest_id id && str_eq k j)
matches-keyed id j k info own = rw own refl

absent_matches :
    (id j : String) (m : HashMap MockWorkload)
    → Keyed m
    → get j m ≡ none
    → any (λ workload. matches id j workload.info) (values m) ≡ false
absent_matches id j [] h absent = refl
absent_matches id j ((k, v) ∷ m) h absent = elim (Bool-cases (str_eq k j)) [
  | inl here ↦ let found : some v ≡ none = rw here at absent in cc found
  | inr there ↦
      let further : get j m ≡ none = rw there at absent in
      rw (matches-keyed id j k v.info h.0, there, absent_matches id j m h.1 further) (ground arith)
]

-- taking away the matches of a map's own workloads leaves those of others
others_left :
    (id j : String) (m : HashMap MockWorkload)
    → IsMap m
    → Keyed m
    → (if any (λ workload. matches id j workload.info) (values m) then none else get j m)
      ≡ of_others id (get j m)
others_left id j [] u h = refl
others_left id j ((k, v) ∷ m) u h = elim (Bool-cases (str_eq k j)) [
  | inl here ↦
      let absent : get j m ≡ none = rw ((eq_iff k j).0 here) at u.0 in
      rw (matches-keyed id j k v.info h.0, here, absent_matches id j m h.1 absent) (ground arith)
  | inr there ↦
      rw (matches-keyed id j k v.info h.0, there) (ground (arith, others_left id j m u.1 h.1))
]

module _ {W Y J : Type 0} (lib : Libraries Y) (sys : System W Y J) (books : Books W)
    (config : MockConfig) where
  abbrev pub mock : RuntimeEngine W
  mock = mock_engine lib sys books config

  remove_one-get :
      (name id j : String) (info : WorkloadInfo) (s : W × Removals)
      → get j (books.workloads (remove_one name id mock info s).0)
        ≡ (if matches id j info then none else get j (books.workloads s.0))
  unfolding remove_one mock_engine
  remove_one-get name id j info (w, r) = elim (Bool-cases (str_eq info.manifest_id id)) [
    | inl mine ↦ rw mine (get-remove_workload lib sys books config info.id j w)
    | inr theirs ↦ rw theirs refl
  ]

  remove_matching-get :
      (name id j : String) (infos : List WorkloadInfo) (s : W × Removals)
      → get j (books.workloads (remove_matching name id mock infos s).0)
        ≡ (if any (matches id j) infos then none else get j (books.workloads s.0))
  unfolding remove_matching
  remove_matching-get name id j [] s = refl
  remove_matching-get name id j (info ∷ infos) s =
      rw
        (
          remove_matching-get name id j infos (remove_one name id mock info s),
          remove_one-get name id j info s,
        )
        (ground arith)

  remove_found-get :
      (name id j : String) (s : W × Removals)
      → IsKeyed books s.0
      → get j (books.workloads (remove_found name id (some mock) s).0)
        ≡ of_others id (get j (books.workloads s.0))
  unfolding remove_found remove_listed mock_engine list_workloads
  remove_found-get name id j s v =
      let m = books.workloads s.0 in
      let now = sys.now s.0 in
      let infos = map (λ (workload : MockWorkload). with_time now workload.info) (values m) in
      remove_matching-get name id j (sort_by created_before infos) s
      ∙ rw
          (
            any-sort_by (matches id j) created_before infos,
            any-map (matches id j) (λ workload. with_time now workload.info) (values m),
          )
          (others_left id j m v.unique v.keyed)

  withdraw-host : (id : String) (s : W × Removals) (n : Node W) → (withdraw id s n).host ≡ s.0
  unfolding withdraw
  withdraw-host id (w, r) n = elim (Bool-cases (is_empty r.errors)) [
    | inl clean ↦ rw clean refl
    | inr failed ↦ rw failed refl
  ]

  remove_with-get :
      (id j : String) (registry : Option (RuntimeRegistry W)) (n : Node W)
      → registry ≡ some (create_mock_only_registry mock)
      → IsKeyed books n.host
      → get j (books.workloads (remove_with id registry n).0.host)
        ≡ of_others id (get j (books.workloads n.host))
  unfolding remove_with remove_from_all create_mock_only_registry register new_registry
      set_default_engine list_engines get_engine mock_engine
  remove_with-get id j registry n only v =
      let s : W × Removals = (n.host, record { removed_workloads = []; errors = [] }) in
      rw only (
        ap (λ w. get j (books.workloads w))
          (withdraw-host id (remove_found "mock" id (some mock) s) n)
        ∙ remove_found-get "mock" id j s v)

  -- On a node whose only engine is the mock engine, in every state that the engine reaches, a
  -- removal by manifest leaves no workload of the manifest in the books, and leaves those of every
  -- other manifest as they were.
  pub remove_workloads_by_manifest_id_complete :
      (id j : String) (n : Node W)
      → n.registry ≡ some (create_mock_only_registry mock)
      → Reach lib sys books config n.host
      → get j (books.workloads (remove_workloads_by_manifest_id id n).0.host)
        ≡ of_others id (get j (books.workloads n.host))
  unfolding remove_workloads_by_manifest_id
  remove_workloads_by_manifest_id_complete id j n only reached =
      remove_with-get id j n.registry n only (Reach-IsKeyed lib sys books config reached)
