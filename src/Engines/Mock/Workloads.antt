-- ===== src/Engines/Mock/Workloads.antt =====
-- The mock engine's books: what its operations make of them.
use beemesh.Prelude.{
  ◌≡◌, refl, sym, Bytes, String, Option, none, some, [], ◌∷◌, ok, err, All, str_eq, eq_iff,
  if◌then◌else◌, Bool-cases, inl, inr,
}
use beemesh.HashMap.{HashMap, get, insert, remove}
use beemesh.HashMap.Laws.{IsMap, IsMap-insert, IsMap-remove, get-remove}
use beemesh.Runtime.{RuntimeResult, DeploymentConfig}
use beemesh.Node.{Libraries}
use beemesh.Engines.{System}
use beemesh.Engines.Mock.{MockWorkload, MockConfig, Books, clear_workloads}
use beemesh.Engines.Mock.Operations.{
  store, store_new, remove_stored, deploy_valid, deploy_workload, deploy_workload_with_peer,
  remove_workload,
}

-- every workload stands under its own id
abbrev pub Keyed : HashMap MockWorkload → Type 0
Keyed m = All (λ e. e.0 ≡ (e.1).info.id) m

pub record IsKeyed {W : Type 0} (books : Books W) (w : W) : Type 0 where
  pub unique : IsMap (books.workloads w)
  pub keyed : Keyed (books.workloads w)

Keyed-insert :
    (workload : MockWorkload) (m : HashMap MockWorkload)
    → Keyed m
    → Keyed (insert workload.info.id workload m)
Keyed-insert workload [] h = (refl, tt)
Keyed-insert workload ((j, v) ∷ m) h = elim (Bool-cases (str_eq j workload.info.id)) [
  | inl same ↦ rw same ((eq_iff j workload.info.id).0 same, h.1)
  | inr other ↦ rw other (h.0, Keyed-insert workload m h.1)
]

Keyed-remove : (id : String) (m : HashMap MockWorkload) → Keyed m → Keyed (remove id m)
Keyed-remove id [] h = tt
Keyed-remove id ((j, v) ∷ m) h = elim (Bool-cases (str_eq j id)) [
  | inl same ↦ rw same (Keyed-remove id m h.1)
  | inr other ↦ rw other (h.0, Keyed-remove id m h.1)
]

module _ {W Y J : Type 0} (lib : Libraries Y) (sys : System W Y J) (books : Books W)
    (config : MockConfig) where
  get-remove_stored :
      (id j : String) (found : Option MockWorkload) (w : W)
      → found ≡ get id (books.workloads w)
      → get j (books.workloads (remove_stored lib sys books config id found w).0)
        ≡ (if str_eq id j then none else get j (books.workloads w))
  unfolding remove_stored
  get-remove_stored id j none w absent = elim (Bool-cases (str_eq id j)) [
    | inl same ↦ rw same (rw (← ((eq_iff id j).0 same)) (sym absent))
    | inr other ↦ rw other refl
  ]
  get-remove_stored id j (some workload) w present =
      rw (books.workloads-keep (remove id (books.workloads w)) w)
        (get-remove id j (books.workloads w))

  -- a removal takes away the workload of that id, and nothing else
  pub get-remove_workload :
      (id j : String) (w : W)
      → get j (books.workloads (remove_workload lib sys books config id w).0)
        ≡ (if str_eq id j then none else get j (books.workloads w))
  unfolding remove_workload
  get-remove_workload id j w = get-remove_stored id j _ w refl

  remove_stored-IsKeyed :
      (id : String) (found : Option MockWorkload) (w : W)
      → IsKeyed books w
      → IsKeyed books (remove_stored lib sys books config id found w).0
  unfolding remove_stored
  remove_stored-IsKeyed id none w v = v
  remove_stored-IsKeyed id (some workload) w v =
      let kept = books.workloads-keep (remove id (books.workloads w)) w in
      record {
        unique = rw kept (IsMap-remove id (books.workloads w) v.unique);
        keyed = rw kept (Keyed-remove id (books.workloads w) v.keyed);
      }

  store-IsKeyed :
      (workload : MockWorkload) (w : W)
      → IsKeyed books w
      → IsKeyed books (store lib sys books config workload w)
  unfolding store
  store-IsKeyed workload w v =
      let kept = books.workloads-keep (insert workload.info.id workload (books.workloads w)) w in
      record {
        unique = rw kept (IsMap-insert workload.info.id workload (books.workloads w) v.unique);
        keyed = rw kept (Keyed-insert workload (books.workloads w) v.keyed);
      }

  deploy_valid-IsKeyed :
      (id : String) (content : Bytes) (deployment : DeploymentConfig)
      (checked : RuntimeResult (Unit {0})) (w : W)
      → IsKeyed books w
      → IsKeyed books (deploy_valid lib sys books config id content deployment checked w).0
  unfolding deploy_valid store_new
  deploy_valid-IsKeyed id content deployment (err e) w v = v
  deploy_valid-IsKeyed id content deployment (ok _) w v =
      elim (Bool-cases (books.drawn config.deployment_success_rate w)) [
        | inl drawn ↦ rw drawn (store-IsKeyed _ w v)
        | inr failed ↦ rw failed v
      ]

  deploy_workload_with_peer-IsKeyed :
      (id : String) (content : Bytes) (deployment : DeploymentConfig) (peer : String) (w : W)
      → IsKeyed books w
      → IsKeyed books
          (deploy_workload_with_peer lib sys books config id content deployment peer w).0
  unfolding deploy_workload_with_peer store_new
  deploy_workload_with_peer-IsKeyed id content deployment peer w v =
      elim (Bool-cases (books.drawn config.deployment_success_rate w)) [
        | inl drawn ↦ rw drawn (store-IsKeyed _ w v)
        | inr failed ↦ rw failed v
      ]

  -- what happens to the books: the engine's operations, or anything that leaves them alone
  pub data Step (w : W) : W → Type 0 where
    deploys :
        (id : String) (content : Bytes) (deployment : DeploymentConfig)
        → Step w (deploy_workload lib sys books config id content deployment w).0
    deploys_with_peer :
        (id : String) (content : Bytes) (deployment : DeploymentConfig) (peer : String)
        → Step w (deploy_workload_with_peer lib sys books config id content deployment peer w).0
    removes : (id : String) → Step w (remove_workload lib sys books config id w).0
    clears : Step w (clear_workloads books w)
    elsewhere : {w' : W} → books.workloads w' ≡ books.workloads w → Step w w'

  pub data Reach : W → Type 0 where
    new : {w : W} → books.workloads w ≡ [] → Reach w
    next : {w w' : W} → Reach w → Step w w' → Reach w'

  Step-IsKeyed : {w w' : W} → Step w w' → IsKeyed books w → IsKeyed books w'
  unfolding deploy_workload remove_workload clear_workloads
  Step-IsKeyed {w} (deploys id content deployment) v =
      deploy_valid-IsKeyed id content deployment _ w v
  Step-IsKeyed {w} (deploys_with_peer id content deployment peer) v =
      deploy_workload_with_peer-IsKeyed id content deployment peer w v
  Step-IsKeyed {w} (removes id) v = remove_stored-IsKeyed id _ w v
  Step-IsKeyed {w} clears v = record {
    unique = rw (books.workloads-keep [] w) tt;
    keyed = rw (books.workloads-keep [] w) tt;
  }
  Step-IsKeyed {w} (elsewhere same) v = record {
    unique = rw same v.unique;
    keyed = rw same v.keyed;
  }

  -- In every state of the host that the engine reaches from empty books, no id stands twice in
  -- them, and every workload stands under its own id.
  pub Reach-IsKeyed : {w : W} → Reach w → IsKeyed books w
  Reach-IsKeyed (new empty) = record { unique = rw empty tt; keyed = rw empty tt }
  Reach-IsKeyed (next r step) = Step-IsKeyed step (Reach-IsKeyed r)
