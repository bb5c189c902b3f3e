-- ===== src/Scheduler/Reordering.antt =====
-- Orders in which the entries of a hash set may come.
use mathlib.Core.Path.{subst}
use mathlib.Core.List.{Permᴰ}
use mathlib.Core.List.Permᴰ.{nil, cons, swap, trans}
use beemesh.Prelude.{ℕ, ◌≡◌, ◌≢◌, sym, ◌∙◌, List, arith, length, All, Distinct}

-- the order is one of the entries of the set, each once
abbrev pub Reorders : (List ℕ → List ℕ) → Type 0
Reorders iteration = (xs : List ℕ) → Permᴰ (iteration xs) xs

pub length-Reordered : {xs ys : List ℕ} → Permᴰ xs ys → length xs ≡ length ys
length-Reordered nil = omega arith
length-Reordered (cons e p) = omega (arith, length-Reordered p)
length-Reordered (swap e f) = omega arith
length-Reordered (trans p q) = length-Reordered p ∙ length-Reordered q

pub All-Reordered {ℓ} : (P : ℕ → Type ℓ) → {xs ys : List ℕ} → Permᴰ xs ys → All P ys → All P xs
All-Reordered P nil h = tt
All-Reordered P (cons e p) h = (rw e h.0, All-Reordered P p h.1)
All-Reordered P (swap e f) h = (rw e h.1.0, (rw f h.0, h.1.1))
All-Reordered P (trans p q) h = All-Reordered P p (All-Reordered P q h)

apart : (l : List ℕ) (a b : ℕ) → a ≡ b → All (λ y. b ≢ y) l → All (λ y. a ≢ y) l
apart l a b e h = subst (λ z. All (λ y. z ≢ y) l) (sym e) h

pub Distinct-Reordered : {xs ys : List ℕ} → Permᴰ xs ys → Distinct ys → Distinct xs
Distinct-Reordered nil d = tt
Distinct-Reordered (cons {a} {b} {l₁} {l₂} e p) d =
    (All-Reordered (λ y. a ≢ y) p (apart l₂ a b e d.0), Distinct-Reordered p d.1)
Distinct-Reordered (swap {a} {b} {a'} {b'} {l} e f) d =
    ((λ same. d.0.0 (sym f ∙ sym same ∙ e), apart l a b' e d.1.0), (apart l b a' f d.0.1, d.1.1))
Distinct-Reordered (trans p q) d = Distinct-Reordered p (Distinct-Reordered q d)
