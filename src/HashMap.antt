-- ===== src/HashMap.antt =====
-- Rust's `HashMap<String, V>` as an association list. The order in which the map is iterated is
-- the list's here: a statement that speaks of an order speaks of that of the same map's entries.
pub mod Laws
use beemesh.Prelude.{
  String, Bool, true, false, not, ◌&&◌, Option, none, some, List, [], ◌∷◌, map, str_eq, is_some,
  if◌then◌else◌, ℕ, length,
}

abbrev pub HashMap {ℓ} : Type ℓ → Type ℓ
HashMap V = List (String × V)

module _ {ℓ} {V : Type ℓ} where
  abbrev pub get : String → HashMap V → Option V
  get k [] = none
  get k ((j, v) ∷ m) = if str_eq j k then some v else get k m

  abbrev pub contains_key : String → HashMap V → Bool
  contains_key k m = is_some (get k m)

  abbrev pub insert : String → V → HashMap V → HashMap V
  insert k v [] = (k, v) ∷ []
  insert k v ((j, w) ∷ m) = if str_eq j k then (j, v) ∷ m else (j, w) ∷ insert k v m

  -- A write through `get_mut`: an absent key changes nothing.
  abbrev pub modify : String → (V → V) → HashMap V → HashMap V
  modify k f [] = []
  modify k f ((j, w) ∷ m) = if str_eq j k then (j, f w) ∷ m else (j, w) ∷ modify k f m

  abbrev pub retain : (String → V → Bool) → HashMap V → HashMap V
  retain p [] = []
  retain p ((j, v) ∷ m) = let rest = retain p m in if p j v then (j, v) ∷ rest else rest

  abbrev pub remove : String → HashMap V → HashMap V
  remove k m = retain (λ j _. not (str_eq j k)) m

  abbrev pub values : HashMap V → List V
  values = map (λ e. e.1)

  abbrev pub keys : HashMap V → List String
  keys = map (λ e. e.0)
