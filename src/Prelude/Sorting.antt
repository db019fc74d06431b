-- ===== src/Prelude/Sorting.antt =====
-- The stable sort of a list by a Boolean test: `ORDER BY` of a query, and `sort` of an array.
use mathlib.Core.Path.{◌≡◌, refl}
use mathlib.Core.Bool.{Bool, true, false}
use mathlib.Core.List.{List, [], ◌∷◌}
use mathlib.Core.Logic.{inl, inr}
use native.Mathlib.Omega.{arith}
use smart_parking_management.Prelude.Tests.{if◌then◌else◌, Bool-cases}
use smart_parking_management.Prelude.Lists.{length, find_many, All, Pairwise}

module _ {A : Type 0} (before : A → A → Bool) where
  abbrev insert : A → List A → List A
  insert x [] = x ∷ []
  insert x (y ∷ ys) = let rest = insert x ys in if before x y then x ∷ y ∷ ys else y ∷ rest

  unfoldable pub order_by : List A → List A
  order_by [] = []
  order_by (x ∷ xs) = insert x (order_by xs)

  -- The sort keeps the number of rows of every kind.
  count-insert :
      (q : A → Bool) (x : A) (xs : List A)
      → length (find_many q (insert x xs)) ≡ length (find_many q (x ∷ xs))
  count-insert q x [] = refl
  count-insert q x (y ∷ ys) = ground (arith, count-insert q x ys)

  pub count-order_by :
      (q : A → Bool) (xs : List A) → length (find_many q (order_by xs)) ≡ length (find_many q xs)
  unfolding order_by
  count-order_by q [] = refl
  count-order_by q (x ∷ xs) = ground (arith, count-insert q x (order_by xs), count-order_by q xs)

  abbrev pub IsOrdered : List A → Type 0
  IsOrdered = Pairwise (λ a b. before a b ≡ true)

  module _ (total : (a b : A) → before a b ≡ false → before b a ≡ true)
      (trans : (a b c : A) → before a b ≡ true → before b c ≡ true → before a c ≡ true) where
    All-insert :
        (a x : A) (xs : List A)
        → before a x ≡ true
        → All (λ b. before a b ≡ true) xs
        → All (λ b. before a b ≡ true) (insert x xs)
    All-insert a x [] h hs = (h, tt)
    All-insert a x (y ∷ ys) h hs = ground (arith, All-insert a x ys h hs.1, hs.0)

    All-weaken :
        (a b : A) (xs : List A)
        → before a b ≡ true
        → All (λ c. before b c ≡ true) xs
        → All (λ c. before a c ≡ true) xs
    All-weaken a b [] h hs = tt
    All-weaken a b (x ∷ xs) h hs = (trans a b x h hs.0, All-weaken a b xs h hs.1)

    insert-IsOrdered : (x : A) (xs : List A) → IsOrdered xs → IsOrdered (insert x xs)
    insert-IsOrdered x [] h = (tt, tt)
    insert-IsOrdered x (y ∷ ys) h = elim (Bool-cases (before x y)) [
      | inl le ↦ rw le ((le, All-weaken x y ys le h.0), h)
      | inr gt ↦ rw gt (All-insert y x ys (total x y gt) h.0, insert-IsOrdered x ys h.1)
    ]

    pub order_by-IsOrdered : (xs : List A) → IsOrdered (order_by xs)
    unfolding order_by
    order_by-IsOrdered [] = tt
    order_by-IsOrdered (x ∷ xs) = insert-IsOrdered x (order_by xs) (order_by-IsOrdered xs)
