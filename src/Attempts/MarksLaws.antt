-- ===== src/Attempts/MarksLaws.antt =====
-- What the marks do to the running attempts.
use simple_evolution.Prelude.{
  ℕ, Bool, true, false, ◌&&◌, ◌≡◌, ◌<◌, ◌≤◌, refl, some, List, [], ◌∷◌, arith, map, count, update,
  any, last?, string_eq,
}
use simple_evolution.Db.Rows.{Attempt, is_running, lost}
use simple_evolution.Db.State.{World}
use simple_evolution.Db.Exec.{done, transaction}
use simple_evolution.Attempts.Marks.{mark_running_attempts_lost}

-- An update that ends what the test counts.
module _ {A : Type 0} (p q : A → Bool) (f : A → A) (ends : (a : A) → p (f a) ≡ false) where
  pub count-update : (xs : List A) → count p (update q f xs) ≤ count p xs
  count-update [] = omega arith
  count-update (x ∷ xs) = ground (arith, ends x, count-update xs)

  pub count-update-any :
      (xs : List A) → any (λ a. p a && q a) xs ≡ true → count p (update q f xs) < count p xs
  count-update-any [] h = cc
  count-update-any (x ∷ xs) h = ground (arith, ends x, count-update xs, count-update-any xs)

none_running :
    (now : ℕ) (xs : List Attempt)
    → count
        (λ a. is_running a.status)
        (update
          (λ a. is_running a.status)
          (λ a. record a { status = lost; finished_at = some now })
          xs)
      ≡ 0
none_running now [] = refl
none_running now (x ∷ xs) = ground (arith, none_running now xs)

same_attempts :
    (now : ℕ) (xs : List Attempt)
    → map
        (λ a. a.attempt_id)
        (update
          (λ a. is_running a.status)
          (λ a. record a { status = lost; finished_at = some now })
          xs)
      ≡ map (λ a. a.attempt_id) xs
same_attempts now [] = refl
same_attempts now (x ∷ xs) = ground (arith, same_attempts now xs)

-- The startup sweep returns the number of attempts that were running. After it none is running,
-- and the attempts are the same ones in the same order.
pub mark_running_attempts_lost_lem :
    (w : World)
    → (v : World) × (mark_running_attempts_lost w
        ≡ done (count (λ a. is_running a.status) w.attempts) v)
      × (count (λ a. is_running a.status) v.attempts ≡ 0)
      × (map (λ a. a.attempt_id) v.attempts ≡ map (λ a. a.attempt_id) w.attempts)
unfolding mark_running_attempts_lost transaction
mark_running_attempts_lost_lem w = (
  _,
  refl,
  none_running (w.clock w.readings) w.attempts,
  same_attempts (w.clock w.readings) w.attempts,
)

-- A list with an element that passes a test has a last element.
pub last?-any :
    {A : Type 0} (p : A → Bool) (xs : List A) → any p xs ≡ true → (a : A) × (last? xs ≡ some a)
last?-any p [] h = cc
last?-any p (x ∷ []) h = (x, refl)
last?-any p (x ∷ y ∷ xs) h = go xs y
  where
    go : {A : Type 0} (ys : List A) (y : A) → (a : A) × (last? (y ∷ ys) ≡ some a)
    go [] y = (y, refl)
    go (z ∷ ys) y = go ys z
