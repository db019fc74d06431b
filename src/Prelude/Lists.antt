-- ===== src/Prelude/Lists.antt =====
-- Lists over the native numbers, and the queries that the services run on a table: the first row
-- that meets a condition, all rows that meet it, and an update of those.
use Prim.Native.Nat.{ℕ, suc}
use mathlib.Core.Path.{◌≡◌, refl}
use mathlib.Core.Bool.{Bool, true, false, ◌||◌}
use mathlib.Core.Option.{Option, none, some}
use mathlib.Core.List.{List, [], ◌∷◌}
use native.Mathlib.Omega.{arith}
use smart_parking_management.Prelude.Tests.{if◌then◌else◌}

module _ {ℓ} {A : Type ℓ} where
  abbrev pub length : List A → ℕ
  length [] = 0
  length (_ ∷ xs) = suc (length xs)

  -- `findFirst({ where })`, and `findUnique` where the condition is a unique key.
  abbrev pub find_first : (A → Bool) → List A → Option A
  find_first p [] = none
  find_first p (x ∷ xs) = if p x then some x else find_first p xs

  -- `findMany({ where })`
  abbrev pub find_many : (A → Bool) → List A → List A
  find_many p [] = []
  find_many p (x ∷ xs) = if p x then x ∷ find_many p xs else find_many p xs

  -- `updateMany({ where, data })`, and `update` where the condition is a unique key.
  abbrev pub update_many : (A → Bool) → (A → A) → List A → List A
  update_many p f [] = []
  update_many p f (x ∷ xs) = (if p x then f x else x) ∷ update_many p f xs

  abbrev pub any : (A → Bool) → List A → Bool
  any p [] = false
  any p (x ∷ xs) = p x || any p xs

  abbrev pub All {κ} : (A → Type κ) → List A → Type κ
  All P [] = Unit
  All P (x ∷ xs) = P x × All P xs

  -- Every two rows, the earlier one first, stand in the relation.
  abbrev pub Pairwise {κ} : (A → A → Type κ) → List A → Type κ
  Pairwise R [] = Unit
  Pairwise R (x ∷ xs) = All (R x) xs × Pairwise R xs

  -- The rows of two tables correspond one by one.
  abbrev pub Forall₂ : (A → A → Type 0) → List A → List A → Type 0
  Forall₂ R [] [] = Unit
  Forall₂ R [] (_ ∷ _) = ⊥
  Forall₂ R (_ ∷ _) [] = ⊥
  Forall₂ R (x ∷ xs) (y ∷ ys) = R x y × Forall₂ R xs ys

  pub find_first-holds :
      (p : A → Bool) (xs : List A) {x : A} → find_first p xs ≡ some x → p x ≡ true
  find_first-holds p [] h = cc
  find_first-holds p (y ∷ ys) {x} h = ground (arith, find_first-holds p ys {x = x})

  -- A table with no row that meets the condition is left as it was by the update.
  pub update_many-absent :
      (p : A → Bool) (f : A → A) (xs : List A) → find_first p xs ≡ none → update_many p f xs ≡ xs
  update_many-absent p f [] h = refl
  update_many-absent p f (x ∷ xs) h = ground (arith, update_many-absent p f xs)
