-- ===== src/Prelude/Sorting.antt =====
-- A stable sort, as `slice::sort_by` is: `less a b` says that the comparison of `a` and `b` is
-- `Less`.
use mathlib.Core.Path.{◌≡◌, refl, ap}
use mathlib.Core.Logic.{inl, inr}
use mathlib.Core.Bool.{Bool, ◌||◌}
use mathlib.Core.List.{List, [], ◌∷◌}
use Prim.Native.Nat.{ℕ, ◌≤◌, zero, suc}
use native.Mathlib.Omega.{arith}
use beemesh.Prelude.Tests.{if◌then◌else◌, Bool-cases, ltb}
use beemesh.Prelude.Lists.{All, All-take, any, length, take}

module _ {ℓ} {A : Type ℓ} where
  -- `x` stands before what is equal to it
  unfoldable pub insert_by : (less : A → A → Bool) → A → List A → List A
  insert_by less x [] = x ∷ []
  insert_by less x (y ∷ ys) =
      let further = y ∷ insert_by less x ys in if less y x then further else x ∷ y ∷ ys

  unfoldable pub sort_by : (less : A → A → Bool) → List A → List A
  unfolding insert_by
  sort_by less [] = []
  sort_by less (x ∷ xs) = insert_by less x (sort_by less xs)

  length-insert_by :
      (less : A → A → Bool) (x : A) (ys : List A) → length (insert_by less x ys) ≡ suc (length ys)
  unfolding insert_by
  length-insert_by less x [] = refl
  length-insert_by less x (y ∷ ys) = elim (Bool-cases (less y x)) [
    | inl behind ↦ rw behind (ap suc (length-insert_by less x ys))
    | inr before ↦ rw before refl
  ]

  any-insert_by :
      (p : A → Bool) (less : A → A → Bool) (x : A) (ys : List A)
      → any p (insert_by less x ys) ≡ (p x || any p ys)
  unfolding insert_by
  any-insert_by p less x [] = refl
  any-insert_by p less x (y ∷ ys) = ground (arith, any-insert_by p less x ys)

  pub any-sort_by :
      (p : A → Bool) (less : A → A → Bool) (xs : List A) → any p (sort_by less xs) ≡ any p xs
  unfolding sort_by
  any-sort_by p less [] = refl
  any-sort_by p less (x ∷ xs) =
      rw (any-insert_by p less x (sort_by less xs), any-sort_by p less xs) refl

  pub length-sort_by : (less : A → A → Bool) (xs : List A) → length (sort_by less xs) ≡ length xs
  unfolding sort_by
  length-sort_by less [] = refl
  length-sort_by less (x ∷ xs) =
      rw (length-insert_by less x (sort_by less xs)) (ap suc (length-sort_by less xs))

module _ {ℓ κ} {A : Type ℓ} (P : A → Type κ) where
  pub All-insert_by :
      (less : A → A → Bool) (x : A) (ys : List A) → P x → All P ys → All P (insert_by less x ys)
  unfolding insert_by
  All-insert_by less x [] px h = (px, tt)
  All-insert_by less x (y ∷ ys) px h = elim (Bool-cases (less y x)) [
    | inl behind ↦ rw behind (h.0, All-insert_by less x ys px h.1)
    | inr before ↦ rw before (px, h)
  ]

  pub All-sort_by : (less : A → A → Bool) (xs : List A) → All P xs → All P (sort_by less xs)
  unfolding sort_by
  All-sort_by less [] h = tt
  All-sort_by less (x ∷ xs) h = All-insert_by less x (sort_by less xs) h.0 (All-sort_by less xs h.1)

-- The numbers that `key` gives never rise along the list.
abbrev pub Descending {ℓ} : {A : Type ℓ} → (key : A → ℕ) → List A → Type 0
Descending key [] = Unit
Descending key (x ∷ xs) = All (λ y. key y ≤ key x) xs × Descending key xs

module _ {ℓ} {A : Type ℓ} (key : A → ℕ) where
  abbrev pub later : A → A → Bool
  later a b = ltb (key b) (key a)

  All-below :
      (a b : A) (ys : List A)
      → key a ≤ key b
      → All (λ y. key y ≤ key a) ys
      → All (λ y. key y ≤ key b) ys
  All-below a b [] h all = tt
  All-below a b (y ∷ ys) h all = (omega (arith, all.0), All-below a b ys h all.1)

  Descending-insert_by :
      (x : A) (ys : List A) → Descending key ys → Descending key (insert_by later x ys)
  unfolding insert_by
  Descending-insert_by x [] h = (tt, tt)
  Descending-insert_by x (y ∷ ys) h = elim (Bool-cases (later y x)) [
    | inl behind ↦ rw behind (
      All-insert_by (λ z. key z ≤ key y) later x ys (ground arith) h.0,
      Descending-insert_by x ys h.1,
    )
    | inr before ↦ rw before ((ground arith, All-below y x ys (ground arith) h.0), h)
  ]

  pub Descending-sort_by : (xs : List A) → Descending key (sort_by later xs)
  unfolding sort_by
  Descending-sort_by [] = tt
  Descending-sort_by (x ∷ xs) = Descending-insert_by x (sort_by later xs) (Descending-sort_by xs)

  pub Descending-take : (n : ℕ) (xs : List A) → Descending key xs → Descending key (take n xs)
  Descending-take zero xs h = tt
  Descending-take (suc n) [] h = tt
  Descending-take (suc n) (x ∷ xs) h =
      (All-take (λ y. key y ≤ key x) n xs h.0, Descending-take n xs h.1)
