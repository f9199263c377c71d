-- ===== src/Prelude/Laws.antt =====
-- Lemmas on the functions of Lists.
use Prim.Native.Nat.{ℕ, zero, suc, ◌+◌}
use mathlib.Core.Path.{◌≡◌, refl, ap}
use mathlib.Core.Bool.{Bool, true, ◌&&◌, ◌||◌}
use mathlib.Core.Option.{none, some}
use mathlib.Core.List.{List, [], ◌∷◌, ◌++◌}
use native.Mathlib.Omega.{arith}
use simple_evolution.Prelude.Tests.{if◌then◌else◌, is_some}
use simple_evolution.Prelude.Lists.{
  all, take, length, any, select, find, update, count, order_by, insert_by, last?,
}

module _ {ℓ} {A : Type ℓ} (p : A → Bool) where
  pub find-holds : (xs : List A) (a : A) → find p xs ≡ some a → p a ≡ true
  find-holds [] a h = cc
  find-holds (x ∷ xs) a h = ground (arith, find-holds xs a)

  pub find-append :
      (xs ys : List A) → find p (xs ++ ys) ≡ (if is_some (find p xs) then find p xs else find p ys)
  find-append [] ys = refl
  find-append (x ∷ xs) ys = ground (arith, find-append xs ys)

  pub is_some-find : (xs : List A) → is_some (find p xs) ≡ any p xs
  is_some-find [] = refl
  is_some-find (x ∷ xs) = ground (arith, is_some-find xs)

  pub count-append : (xs ys : List A) → count p (xs ++ ys) ≡ count p xs + count p ys
  count-append [] ys = omega arith
  count-append (x ∷ xs) ys = omega (arith, count-append xs ys)

  pub length-select : (xs : List A) → length (select p xs) ≡ count p xs
  length-select [] = refl
  length-select (x ∷ xs) = ground (arith, length-select xs)

-- An update that keeps what the search tests: the row found is the old one, updated if it is meant.
module _ {ℓ} {A : Type ℓ} (q p : A → Bool) (f : A → A) (keeps : (a : A) → q (f a) ≡ q a) where
  pub find-update :
      (xs : List A) (a : A)
      → find q xs ≡ some a
      → find q (update p f xs) ≡ some (if p a then f a else a)
  find-update [] a h = cc
  find-update (x ∷ xs) a h = ground (arith, keeps x, find-update xs a)

  pub find-update-none : (xs : List A) → find q xs ≡ none → find q (update p f xs) ≡ none
  find-update-none [] h = refl
  find-update-none (x ∷ xs) h = ground (arith, keeps x, find-update-none xs)

  pub any-update : (xs : List A) → any q (update p f xs) ≡ any q xs
  any-update [] = refl
  any-update (x ∷ xs) = ground (arith, keeps x, any-update xs)

module _ {ℓ} {A : Type ℓ} (p : A → Bool) where
  any-insert_by :
      (b : A → A → Bool) (x : A) (xs : List A) → any p (insert_by b x xs) ≡ p x || any p xs
  any-insert_by b x [] = refl
  any-insert_by b x (y ∷ ys) = ground (arith, any-insert_by b x ys)

  pub any-order_by : (b : A → A → Bool) (xs : List A) → any p (order_by b xs) ≡ any p xs
  any-order_by b [] = refl
  any-order_by b (x ∷ xs) = ground (arith, any-insert_by b x (order_by b xs), any-order_by b xs)

  pub any-select : (q : A → Bool) (xs : List A) → any p (select q xs) ≡ any (λ a. q a && p a) xs
  any-select q [] = refl
  any-select q (x ∷ xs) = ground (arith, any-select q xs)

  pub any-last? : (xs : List A) (a : A) → last? xs ≡ some a → p a ≡ true → any p xs ≡ true
  any-last? [] a h k = cc
  any-last? (x ∷ []) a h k = ground arith
  any-last? (x ∷ y ∷ xs) a h k = ground (arith, any-last? (y ∷ xs) a h k)

module _ {ℓ} {A : Type ℓ} (p q : A → Bool) (same : (a : A) → p a ≡ q a) where
  pub any_cong : (xs : List A) → any p xs ≡ any q xs
  any_cong [] = refl
  any_cong (x ∷ xs) = ground (arith, same x, any_cong xs)

module _ {ℓ} {A : Type ℓ} (p q : A → Bool) (implies : (a : A) → p a ≡ true → q a ≡ true) where
  pub all_mono : (xs : List A) → all p xs ≡ true → all q xs ≡ true
  all_mono [] h = refl
  all_mono (x ∷ xs) h = ground (arith, implies x, all_mono xs, h)

  pub any_mono : (xs : List A) → any p xs ≡ true → any q xs ≡ true
  any_mono [] h = h
  any_mono (x ∷ xs) h = ground (arith, implies x, any_mono xs, h)

module _ {ℓ} {A : Type ℓ} (p : A → Bool) where
  pub any-take : (n : ℕ) (xs : List A) → any p (take n xs) ≡ true → any p xs ≡ true
  any-take zero xs h = cc
  any-take (suc n) [] h = h
  any-take (suc n) (x ∷ xs) h = ground (arith, any-take n xs, h)

  -- What a search finds is there for any other test that it passes.
  pub any-find :
      (q : A → Bool) (xs : List A) (a : A) → find q xs ≡ some a → p a ≡ true → any p xs ≡ true
  any-find q [] a h k = cc
  any-find q (x ∷ xs) a h k = ground (arith, any-find q xs a, h, k)

  pub any-append : (xs ys : List A) → any p (xs ++ ys) ≡ (any p xs || any p ys)
  any-append [] ys = refl
  any-append (x ∷ xs) ys = ground (arith, any-append xs ys)

module _ {ℓ} {A : Type ℓ} where
  pub append_one : (xs : List A) (y : A) (ys : List A) → (xs ++ (y ∷ [])) ++ ys ≡ xs ++ (y ∷ ys)
  append_one [] y ys = refl
  append_one (x ∷ xs) y ys = ap (λ l. x ∷ l) (append_one xs y ys)

  pub append_none : (xs : List A) → xs ++ [] ≡ xs
  append_none [] = refl
  append_none (x ∷ xs) = ap (λ l. x ∷ l) (append_none xs)

module _ {ℓ} {A : Type ℓ} where
  count-insert_by :
      (p : A → Bool) (before : A → A → Bool) (x : A) (xs : List A)
      → count p (insert_by before x xs) ≡ (if p x then 1 else 0) + count p xs
  count-insert_by p before x [] = refl
  count-insert_by p before x (y ∷ ys) = ground (arith, count-insert_by p before x ys)

  pub count-order_by :
      (p : A → Bool) (before : A → A → Bool) (xs : List A)
      → count p (order_by before xs) ≡ count p xs
  count-order_by p before [] = refl
  count-order_by p before (x ∷ xs) =
      omega (arith, count-insert_by p before x (order_by before xs), count-order_by p before xs)

  pub length-order_by :
      (before : A → A → Bool) (xs : List A) → length (order_by before xs) ≡ length xs
  length-order_by before [] = refl
  length-order_by before (x ∷ xs) =
      omega (arith, inserted before x (order_by before xs), length-order_by before xs)
    where
      inserted :
          (before : A → A → Bool) (x : A) (ys : List A)
          → length (insert_by before x ys) ≡ suc (length ys)
      inserted before x [] = refl
      inserted before x (y ∷ ys) = ground (arith, inserted before x ys)
