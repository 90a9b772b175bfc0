-- ===== src/Prelude/Lists.antt =====
-- Lists measured and indexed by native numbers, under the library's names.
use Prim.Native.Nat.{ℕ, zero, suc, ◌+◌, ◌-◌, min}
use mathlib.Core.Path.{◌≡◌, refl, ap, ◌∙◌}
use mathlib.Core.List.{List, [], ◌∷◌, ◌++◌}
use mathlib.Core.Option.{Option, none, some}
use mathlib.Core.Bool.{Bool}
use mathlib.Core.Logic.{◌⊎◌, inl, inr}
use native.Mathlib.Omega.{arith}
use canopee.Prelude.Tests.{if◌then◌else◌}

module _ {ℓ} {A : Type ℓ} where
  abbrev pub length : List A → ℕ
  length [] = 0
  length (x ∷ xs) = suc (length xs)

  abbrev pub take : ℕ → List A → List A
  take zero xs = []
  take (suc n) [] = []
  take (suc n) (x ∷ xs) = x ∷ take n xs

  abbrev pub drop : ℕ → List A → List A
  drop zero xs = xs
  drop (suc n) [] = []
  drop (suc n) (x ∷ xs) = drop n xs

  pub length-append : (xs ys : List A) → length (xs ++ ys) ≡ length xs + length ys
  length-append [] ys = omega arith
  length-append (x ∷ xs) ys = omega (arith, length-append xs ys)

  pub length-take : (n : ℕ) (xs : List A) → length (take n xs) ≡ min n (length xs)
  length-take zero xs = omega arith
  length-take (suc n) [] = omega arith
  length-take (suc n) (x ∷ xs) = omega (arith, length-take n xs)

  pub length-drop : (n : ℕ) (xs : List A) → length (drop n xs) ≡ length xs - n
  length-drop zero xs = omega arith
  length-drop (suc n) [] = omega arith
  length-drop (suc n) (x ∷ xs) = omega (arith, length-drop n xs)

  pub take-append_self : (b s : List A) → take (length b) (b ++ s) ≡ b
  take-append_self [] s = refl
  take-append_self (x ∷ b) s = ap (λ t. x ∷ t) (take-append_self b s)

  pub drop-append_self : (b s : List A) → drop (length b) (b ++ s) ≡ s
  drop-append_self [] s = refl
  drop-append_self (x ∷ b) s = drop-append_self b s

  -- The parts of an append, by the length of the first.
  pub take-append : {n : ℕ} (b s : List A) → length b ≡ n → take n (b ++ s) ≡ b
  take-append b s h = rw (← h, take-append_self b s) refl

  pub drop-append : {n : ℕ} (b s : List A) → length b ≡ n → drop n (b ++ s) ≡ s
  drop-append b s h = rw (← h, drop-append_self b s) refl

  take-length : (b : List A) → take (length b) b ≡ b
  take-length [] = refl
  take-length (x ∷ b) = ap (λ t. x ∷ t) (take-length b)

  pub take-all : {n : ℕ} (b : List A) → length b ≡ n → take n b ≡ b
  take-all b h = rw (← h, take-length b) refl

  pub take-drop-append :
      {n m : ℕ} (a b s : List A) → length a ≡ n → length b ≡ m → take m (drop n (a ++ (b ++ s))) ≡ b
  take-drop-append {n} {m} a b s h k =
      ap (take m) (drop-append {n = n} a (b ++ s) h) ∙ take-append b s k

  -- `iter().find(test)`
  abbrev pub find : (A → Bool) → List A → Option A
  find test [] = none
  find test (x ∷ xs) = if test x then some x else find test xs

  -- The retained elements, in order: `iter().filter(test)`.
  abbrev pub select : (A → Bool) → List A → List A
  select test [] = []
  select test (x ∷ xs) = let rest = select test xs in if test x then x ∷ rest else rest

-- Predicates over a list compute to tuples and sums.
abbrev pub All {ℓ κ} : {A : Type ℓ} → (A → Type κ) → List A → Type κ
All P [] = Unit
All P (x ∷ xs) = P x × All P xs

abbrev pub Any {ℓ} : {A : Type ℓ} → (A → Type 0) → List A → Type 0
Any P [] = ⊥
Any P (x ∷ xs) = P x ⊎ Any P xs

pub List-cases {ℓ} :
    {A : Type ℓ} (l : List A) → (l ≡ []) ⊎ ((a : A) × (rest : List A) × (l ≡ a ∷ rest))
List-cases [] = inl refl
List-cases (a ∷ rest) = inr (a, rest, refl)
