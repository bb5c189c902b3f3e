-- ===== src/Prelude/Positions.antt =====
-- Lists of numbers without repetition, and positions in them.
use Prim.Native.Nat.{ℕ, zero, suc, ◌+◌, ◌%◌, ◌<◌}
use mathlib.Core.Path.{◌≡◌, refl}
use mathlib.Core.Logic.{◌≢◌}
use mathlib.Core.List.{List, [], ◌∷◌}
use mathlib.Core.Option.{some}
use native.Mathlib.Omega.{arith}
use beemesh.Prelude.Lists.{get_elem?, take, All, All-get_elem?, All-take}

abbrev pub Distinct : List ℕ → Type 0
Distinct [] = Unit
Distinct (x ∷ xs) = All (λ y. x ≢ y) xs × Distinct xs

pub Distinct-take : (n : ℕ) (xs : List ℕ) → Distinct xs → Distinct (take n xs)
Distinct-take zero xs h = tt
Distinct-take (suc n) [] h = tt
Distinct-take (suc n) (x ∷ xs) h = (All-take (λ y. x ≢ y) n xs h.0, Distinct-take n xs h.1)

-- Equal elements stand at equal positions.
pub Distinct-position :
    (xs : List ℕ) (i j : ℕ) (x : ℕ)
    → Distinct xs
    → get_elem? xs i ≡ some x
    → get_elem? xs j ≡ some x
    → i ≡ j
Distinct-position [] i j x h p q = cc
Distinct-position (y ∷ ys) zero zero x h p q = refl
Distinct-position (y ∷ ys) zero (suc j) x h p q =
    absurd (All-get_elem? (λ z. y ≢ z) ys j x h.0 q (ground arith))
Distinct-position (y ∷ ys) (suc i) zero x h p q =
    absurd (All-get_elem? (λ z. y ≢ z) ys i x h.0 p (ground arith))
Distinct-position (y ∷ ys) (suc i) (suc j) x h p q =
    omega (arith, Distinct-position ys i j x h.1 p q)

-- Two numbers less than `n` apart with one remainder are equal.
pub mod_window : (n a d : ℕ) → d < n → a % n ≡ (a + d) % n → d ≡ 0
mod_window n a d h e = grind arith
