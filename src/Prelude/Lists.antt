-- ===== src/Prelude/Lists.antt =====
-- Python lists, and SQL tables as lists in the order of insertion.
use Prim.Native.Nat.{ℕ, zero, suc, ◌+◌}
use mathlib.Core.Bool.{Bool, true, false, not, ◌&&◌, ◌||◌}
use mathlib.Core.Option.{Option, none, some}
use mathlib.Core.List.{List, [], ◌∷◌}
use simple_evolution.Prelude.Tests.{if◌then◌else◌, Comparable, ◌==◌}

module _ {ℓ} {A : Type ℓ} where
  abbrev pub length : List A → ℕ
  length [] = 0
  length (x ∷ xs) = suc (length xs)

  abbrev pub take : ℕ → List A → List A
  take zero xs = []
  take (suc n) [] = []
  take (suc n) (x ∷ xs) = x ∷ take n xs

  abbrev pub drop : ℕ → List A → List A
  drop zero xs = xs
  drop (suc n) [] = []
  drop (suc n) (x ∷ xs) = drop n xs

  abbrev pub last? : List A → Option A
  last? [] = none
  last? (x ∷ []) = some x
  last? (x ∷ y ∷ xs) = last? (y ∷ xs)

  abbrev pub first? : List A → Option A
  first? [] = none
  first? (x ∷ xs) = some x

  abbrev pub any : (A → Bool) → List A → Bool
  any p [] = false
  any p (x ∷ xs) = p x || any p xs

  abbrev pub all : (A → Bool) → List A → Bool
  all p [] = true
  all p (x ∷ xs) = p x && all p xs

  -- SELECT * FROM t WHERE p
  abbrev pub select : (A → Bool) → List A → List A
  select p [] = []
  select p (x ∷ xs) = if p x then x ∷ select p xs else select p xs

  -- SELECT * FROM t WHERE p, for a predicate that one row meets at most.
  abbrev pub find : (A → Bool) → List A → Option A
  find p [] = none
  find p (x ∷ xs) = if p x then some x else find p xs

  -- UPDATE t SET f WHERE p
  abbrev pub update : (A → Bool) → (A → A) → List A → List A
  update p f [] = []
  update p f (x ∷ xs) = (if p x then f x else x) ∷ update p f xs

  -- SELECT COUNT(*) FROM t WHERE p
  abbrev pub count : (A → Bool) → List A → ℕ
  count p [] = 0
  count p (x ∷ xs) = (if p x then 1 else 0) + count p xs

  abbrev pub sum_of : (A → ℕ) → List A → ℕ
  sum_of f [] = 0
  sum_of f (x ∷ xs) = f x + sum_of f xs

  -- ORDER BY f: stable, so that rows of one key stay in the order of insertion.
  abbrev pub insert_by : (A → A → Bool) → A → List A → List A
  insert_by before x [] = x ∷ []
  insert_by before x (y ∷ ys) = if before y x then y ∷ insert_by before x ys else x ∷ y ∷ ys

  abbrev pub order_by : (A → A → Bool) → List A → List A
  order_by before [] = []
  order_by before (x ∷ xs) = insert_by before x (order_by before xs)

module _ {ℓ} {A : Type ℓ} ⦃e : Comparable A⦄ where
  -- x in xs
  abbrev pub member : A → List A → Bool
  member a [] = false
  member a (x ∷ xs) = x == a || member a xs

  -- len(xs) == len(set(xs))
  abbrev pub is_unique : List A → Bool
  is_unique [] = true
  is_unique (x ∷ xs) = not (member x xs) && is_unique xs
