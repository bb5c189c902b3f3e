-- ===== src/HashMap/Laws.antt =====
-- The laws of the map operations, in `if` form.
use beemesh.Prelude.{
  String, ◌≡◌, refl, Bool, true, false, Bool-cases, inl, inr, any, Option, none, some, [], ◌∷◌,
  arith, str_eq, eq_iff, if◌then◌else◌,
}
use beemesh.HashMap.{HashMap, get, insert, modify, retain, remove, values}

-- No key stands twice.
abbrev pub IsMap {ℓ} : {V : Type ℓ} → HashMap V → Type ℓ
IsMap [] = Unit
IsMap ((k, v) ∷ m) = (get k m ≡ none) × IsMap m

module _ {ℓ} {V : Type ℓ} where
  pub get-insert :
      (k j : String) (v : V) (m : HashMap V)
      → get j (insert k v m) ≡ (if str_eq k j then some v else get j m)
  get-insert k j v [] = refl
  get-insert k j v ((i, w) ∷ m) =
      ground (arith, eq_iff k j, eq_iff i k, eq_iff i j, get-insert k j v m)

  pub get-remove :
      (k j : String) (m : HashMap V) → get j (remove k m) ≡ (if str_eq k j then none else get j m)
  get-remove k j [] = ground arith
  get-remove k j ((i, w) ∷ m) = ground (arith, eq_iff k j, eq_iff i k, eq_iff i j, get-remove k j m)

  pub get-retain-none :
      (p : String → V → Bool) (j : String) (m : HashMap V)
      → get j m ≡ none
      → get j (retain p m) ≡ none
  get-retain-none p j [] h = refl
  get-retain-none p j ((i, w) ∷ m) h = ground (arith, get-retain-none p j m)

  pub IsMap-insert : (k : String) (v : V) (m : HashMap V) → IsMap m → IsMap (insert k v m)
  IsMap-insert k v [] h = (refl, tt)
  IsMap-insert k v ((i, w) ∷ m) h =
      ground (arith, IsMap-insert k v m, get-insert k i v m, eq_iff i k, eq_iff k i)

  pub IsMap-retain : (p : String → V → Bool) (m : HashMap V) → IsMap m → IsMap (retain p m)
  IsMap-retain p [] h = tt
  IsMap-retain p ((i, w) ∷ m) h = ground (arith, IsMap-retain p m, get-retain-none p i m)

  pub IsMap-remove : (k : String) (m : HashMap V) → IsMap m → IsMap (remove k m)
  IsMap-remove k m h = IsMap-retain _ m h

  abbrev pub map_option : (V → V) → Option V → Option V
  map_option f none = none
  map_option f (some v) = some (f v)

  pub get-modify :
      (k j : String) (f : V → V) (m : HashMap V)
      → get j (modify k f m) ≡ (if str_eq k j then map_option f (get j m) else get j m)
  get-modify k j f [] = ground arith
  get-modify k j f ((i, w) ∷ m) =
      ground (arith, eq_iff k j, eq_iff i k, eq_iff i j, get-modify k j f m)

  pub IsMap-modify : (k : String) (f : V → V) (m : HashMap V) → IsMap m → IsMap (modify k f m)
  IsMap-modify k f [] h = tt
  IsMap-modify k f ((i, w) ∷ m) h =
      ground (arith, IsMap-modify k f m, get-modify k i f m, eq_iff i k, eq_iff k i)

  -- What is kept is still found, and what is dropped is not, no key standing twice.
  pub get-retain_kept :
      (p : String → V → Bool) (k : String) (v : V) (m : HashMap V)
      → get k m ≡ some v
      → p k v ≡ true
      → get k (retain p m) ≡ some v
  get-retain_kept p k v [] e h = cc
  get-retain_kept p k v ((j, w) ∷ m) e h = elim (Bool-cases (str_eq j k)) [
    | inl here ↦
        let same : j ≡ k = (eq_iff j k).0 here in
        let q : w ≡ v = ground arith in
        let kept : p j w ≡ true = rw (same, q) h in rw (kept, here) (ground arith)
    | inr there ↦
        let ih = get-retain_kept p k v m (ground arith) h in
        elim (Bool-cases (p j w)) [ inl kept ↦ rw (kept, there) ih | inr gone ↦ rw gone ih ]
  ]

  pub get-retain_dropped :
      (p : String → V → Bool) (k : String) (v : V) (m : HashMap V)
      → IsMap m
      → get k m ≡ some v
      → p k v ≡ false
      → get k (retain p m) ≡ none
  get-retain_dropped p k v [] u e h = cc
  get-retain_dropped p k v ((j, w) ∷ m) u e h = elim (Bool-cases (str_eq j k)) [
    | inl here ↦
        let same : j ≡ k = (eq_iff j k).0 here in
        let q : w ≡ v = ground arith in
        let gone : p j w ≡ false = rw (same, q) h in
        let absent : get k m ≡ none = rw same at u.0 in rw gone (get-retain-none p k m absent)
    | inr there ↦
        let ih = get-retain_dropped p k v m u.1 (ground arith) h in
        elim (Bool-cases (p j w)) [ inl kept ↦ rw (kept, there) ih | inr gone ↦ rw gone ih ]
  ]

  pub any-values :
      (p : V → Bool) (k : String) (v : V) (m : HashMap V)
      → get k m ≡ some v
      → p v ≡ true
      → any p (values m) ≡ true
  any-values p k v [] e h = cc
  any-values p k v ((j, w) ∷ m) e h = elim (Bool-cases (str_eq j k)) [
    | inl here ↦ let q : w ≡ v = ground arith in let found : p w ≡ true = rw q h in rw found
    | inr there ↦ ground (arith, any-values p k v m (ground arith) h)
  ]
