-- ===== src/Scheduler/Load.antt =====
-- The load-based strategy: the sort, and which nodes it selects.
use Prim.Native.Nat.{Ordering}
use mathlib.Core.List.{Perm}
use mathlib.Core.List.Perm
use beemesh.Prelude.{
  ℕ, zero, suc, ◌≡◌, ◌≢◌, refl, sym, ap, ◌∙◌, true, false, Option, some, List, [], ◌∷◌, ◌++◌, map,
  arith, length, take, drop, min, All, Distinct, Bool-cases, inl, inr, length-map,
}
use beemesh.Scheduler.{NodeCandidate, comes_before, sort_insert, sort_by_load, select_load_based}

-- `partial_cmp` orders the loads, as it does floats among which there is no NaN.
pub record IsOrdered {F32 : Type 0} (partial_cmp : F32 → F32 → Option Ordering) : Type 0 where
  pub asym : (a b : F32) → partial_cmp a b ≡ some Ordering.lt → partial_cmp b a ≢ some Ordering.lt
  pub negative_trans :
      (a b c : F32)
      → partial_cmp a b ≢ some Ordering.lt
      → partial_cmp b c ≢ some Ordering.lt
      → partial_cmp a c ≢ some Ordering.lt

All-perm_split {ℓ κ} :
    {A : Type ℓ} (P : A → A → Type κ) (n : ℕ) (xs : List A) (a : A)
    → All (P a) xs
    → All (P a) (drop n xs)
All-perm_split P zero xs a h = h
All-perm_split P (suc n) [] a h = tt
All-perm_split P (suc n) (x ∷ xs) a h = All-perm_split P n xs a h.1

take-append-drop {ℓ} : {A : Type ℓ} (n : ℕ) (xs : List A) → take n xs ++ drop n xs ≡ xs
take-append-drop zero xs = refl
take-append-drop (suc n) [] = refl
take-append-drop (suc n) (x ∷ xs) = ap (◌∷◌ x) (take-append-drop n xs)

length-take-min {ℓ} : {A : Type ℓ} (n : ℕ) (xs : List A) → length (take n xs) ≡ min n (length xs)
length-take-min zero xs = omega arith
length-take-min (suc n) [] = omega arith
length-take-min (suc n) (x ∷ xs) = omega (arith, length-take-min n xs)

module _ {F32 : Type 0} (partial_cmp : F32 → F32 → Option Ordering) where
  -- No later load is strictly less than an earlier one.
  abbrev pub Ascending : List (ℕ × F32) → Type 0
  Ascending [] = Unit
  Ascending (x ∷ xs) = All (λ y. comes_before partial_cmp y x ≡ false) xs × Ascending xs

  Perm-sort_insert :
      (x : ℕ × F32) (ys : List (ℕ × F32)) → Perm (sort_insert partial_cmp x ys) (x ∷ ys)
  unfolding sort_insert
  Perm-sort_insert x [] = Perm.refl (x ∷ [])
  Perm-sort_insert x (y ∷ ys) = elim (Bool-cases (comes_before partial_cmp y x)) [
    | inl behind ↦ rw behind (Perm.trans (Perm.cons y (Perm-sort_insert x ys)) (Perm.swap x y ys))
    | inr front ↦ rw front (Perm.refl (x ∷ y ∷ ys))
  ]

  Perm-sort_by_load : (xs : List (ℕ × F32)) → Perm (sort_by_load partial_cmp xs) xs
  unfolding sort_by_load
  Perm-sort_by_load [] = Perm.refl []
  Perm-sort_by_load (x ∷ xs) =
      Perm.trans (Perm-sort_insert x (sort_by_load partial_cmp xs))
        (Perm.cons x (Perm-sort_by_load xs))

  pub All-sort_insert {ℓ} :
      (P : ℕ × F32 → Type ℓ) (x : ℕ × F32) (ys : List (ℕ × F32))
      → P x
      → All P ys
      → All P (sort_insert partial_cmp x ys)
  unfolding sort_insert
  All-sort_insert P x [] px h = (px, tt)
  All-sort_insert P x (y ∷ ys) px h = elim (Bool-cases (comes_before partial_cmp y x)) [
    | inl behind ↦ rw behind (h.0, All-sort_insert P x ys px h.1)
    | inr front ↦ rw front (px, h)
  ]

  pub All-sort_by_load {ℓ} :
      (P : ℕ × F32 → Type ℓ) (xs : List (ℕ × F32)) → All P xs → All P (sort_by_load partial_cmp xs)
  unfolding sort_by_load
  All-sort_by_load P [] h = tt
  All-sort_by_load P (x ∷ xs) h =
      All-sort_insert P x (sort_by_load partial_cmp xs) h.0 (All-sort_by_load P xs h.1)

  length-sort_insert :
      (x : ℕ × F32) (ys : List (ℕ × F32)) → length (sort_insert partial_cmp x ys) ≡ suc (length ys)
  unfolding sort_insert
  length-sort_insert x [] = refl
  length-sort_insert x (y ∷ ys) = elim (Bool-cases (comes_before partial_cmp y x)) [
    | inl behind ↦ rw behind (ap suc (length-sort_insert x ys))
    | inr front ↦ rw front
  ]

  pub length-sort_by_load : (xs : List (ℕ × F32)) → length (sort_by_load partial_cmp xs) ≡ length xs
  unfolding sort_by_load
  length-sort_by_load [] = refl
  length-sort_by_load (x ∷ xs) =
      length-sort_insert x (sort_by_load partial_cmp xs) ∙ ap suc (length-sort_by_load xs)

  All-ids-sort_insert :
      (b : ℕ) (x : ℕ × F32) (ys : List (ℕ × F32))
      → b ≢ x.0
      → All (λ y. b ≢ y) (map (λ e. e.0) ys)
      → All (λ y. b ≢ y) (map (λ e. e.0) (sort_insert partial_cmp x ys))
  unfolding sort_insert
  All-ids-sort_insert b x [] ne h = (ne, tt)
  All-ids-sort_insert b x (y ∷ ys) ne h = elim (Bool-cases (comes_before partial_cmp y x)) [
    | inl behind ↦ rw behind (h.0, All-ids-sort_insert b x ys ne h.1)
    | inr front ↦ rw front (ne, h)
  ]

  Distinct-sort_insert :
      (x : ℕ × F32) (ys : List (ℕ × F32))
      → All (λ y. x.0 ≢ y) (map (λ e. e.0) ys)
      → Distinct (map (λ e. e.0) ys)
      → Distinct (map (λ e. e.0) (sort_insert partial_cmp x ys))
  unfolding sort_insert
  Distinct-sort_insert x [] h d = (tt, tt)
  Distinct-sort_insert x (y ∷ ys) h d = elim (Bool-cases (comes_before partial_cmp y x)) [
    | inl behind ↦
        rw behind
          (All-ids-sort_insert y.0 x ys (λ e. h.0 (sym e)) d.0, Distinct-sort_insert x ys h.1 d.1)
    | inr front ↦ rw front (h, d)
  ]

  All-ids-sort_by_load :
      (b : ℕ) (xs : List (ℕ × F32))
      → All (λ y. b ≢ y) (map (λ e. e.0) xs)
      → All (λ y. b ≢ y) (map (λ e. e.0) (sort_by_load partial_cmp xs))
  unfolding sort_by_load
  All-ids-sort_by_load b [] h = tt
  All-ids-sort_by_load b (x ∷ xs) h =
      All-ids-sort_insert b x (sort_by_load partial_cmp xs) h.0 (All-ids-sort_by_load b xs h.1)

  pub Distinct-sort_by_load :
      (xs : List (ℕ × F32))
      → Distinct (map (λ e. e.0) xs)
      → Distinct (map (λ e. e.0) (sort_by_load partial_cmp xs))
  unfolding sort_by_load
  Distinct-sort_by_load [] d = tt
  Distinct-sort_by_load (x ∷ xs) d =
      Distinct-sort_insert x (sort_by_load partial_cmp xs) (All-ids-sort_by_load x.0 xs d.0)
        (Distinct-sort_by_load xs d.1)

  module _ (ordered : IsOrdered partial_cmp) where
    asym :
        (a b : ℕ × F32) → comes_before partial_cmp a b ≡ true → comes_before partial_cmp b a ≡ false
    unfolding comes_before
    asym a b h = ground (arith, ordered.asym a.1 b.1)

    negative_trans :
        (a b c : ℕ × F32)
        → comes_before partial_cmp a b ≡ false
        → comes_before partial_cmp b c ≡ false
        → comes_before partial_cmp a c ≡ false
    unfolding comes_before
    negative_trans a b c p q = ground (arith, ordered.negative_trans a.1 b.1 c.1)

    All-negative_trans :
        (y x : ℕ × F32) (zs : List (ℕ × F32))
        → comes_before partial_cmp y x ≡ false
        → All (λ z. comes_before partial_cmp z y ≡ false) zs
        → All (λ z. comes_before partial_cmp z x ≡ false) zs
    All-negative_trans y x [] h all = tt
    All-negative_trans y x (z ∷ zs) h all =
        (negative_trans z y x all.0 h, All-negative_trans y x zs h all.1)

    Ascending-sort_insert :
        (x : ℕ × F32) (ys : List (ℕ × F32))
        → Ascending ys
        → Ascending (sort_insert partial_cmp x ys)
    unfolding sort_insert
    Ascending-sort_insert x [] h = (tt, tt)
    Ascending-sort_insert x (y ∷ ys) h = elim (Bool-cases (comes_before partial_cmp y x)) [
      | inl behind ↦ rw behind (
        All-sort_insert (λ z. comes_before partial_cmp z y ≡ false) x ys (asym y x behind) h.0,
        Ascending-sort_insert x ys h.1,
      )
      | inr front ↦ rw front ((front, All-negative_trans y x ys front h.0), h)
    ]

    Ascending-sort_by_load : (xs : List (ℕ × F32)) → Ascending (sort_by_load partial_cmp xs)
    unfolding sort_by_load
    Ascending-sort_by_load [] = tt
    Ascending-sort_by_load (x ∷ xs) =
        Ascending-sort_insert x (sort_by_load partial_cmp xs) (Ascending-sort_by_load xs)

    Ascending-split :
        (n : ℕ) (xs : List (ℕ × F32))
        → Ascending xs
        → All (λ a. All (λ b. comes_before partial_cmp b a ≡ false) (drop n xs)) (take n xs)
    Ascending-split zero xs h = tt
    Ascending-split (suc n) [] h = tt
    Ascending-split (suc n) (x ∷ xs) h = (
      All-perm_split (λ a b. comes_before partial_cmp b a ≡ false) n xs x h.0,
      Ascending-split n xs h.1,
    )

    -- Where the loads are ordered, the load-based strategy parts the available candidates into those
    -- that it selects and the rest, as many selected as asked for or as there are, and nobody in
    -- the rest has a strictly smaller load than a node that is selected.
    pub select_load_based_least :
        (available : List (ℕ × NodeCandidate F32)) (count : ℕ)
        → (chosen : List (ℕ × F32)) × (rest : List (ℕ × F32)) × Perm
            (chosen ++ rest)
            (map (λ e. (e.0, e.1.load_factor)) available)
          × (select_load_based partial_cmp available count ≡ map (λ e. e.0) chosen)
          × (length chosen ≡ min count (length available))
          × All (λ a. All (λ b. comes_before partial_cmp b a ≡ false) rest) chosen
    unfolding select_load_based
    select_load_based_least available count =
        let loads : List (ℕ × F32) = map (λ e. (e.0, e.1.load_factor)) available in
        let sorted = sort_by_load partial_cmp loads in
        (
          take count sorted,
          drop count sorted,
          rw (take-append-drop count sorted) (Perm-sort_by_load loads),
          refl,
          length-take-min count sorted
              ∙ ap (min count) (length-sort_by_load loads ∙ length-map _ available),
          Ascending-split count sorted (Ascending-sort_by_load loads),
        )
