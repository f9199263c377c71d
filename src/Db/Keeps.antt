-- ===== src/Db/Keeps.antt =====
-- Statements that leave one view of the database as it is, when they return.
use simple_evolution.Prelude.{
  if◌then◌else◌, ℕ, zero, suc, Bool, true, false, ◌≡◌, refl, ◌∙◌, Option, none, some, List, [], ◌∷◌,
  arith,
}
use simple_evolution.Db.State.{Db, World}
use simple_evolution.Db.Exec.{
  Error, Exec, Outcome, done, raised, and_then, ◌>>=◌, pure, raise_if, or_raise, gets, time, new_id,
  new_ids, for_each, after,
}

pub record Keeps {A X : Type 0} (view : Db → X) (body : Exec A) : Type 0 where
  pub at : (w : World) (a : A) (v : World) → body w ≡ done a v → view v.db ≡ view w.db

module _ {X : Type 0} {view : Db → X} where
  pub Keeps-bind :
      {A B : Type 0} {body : Exec A} {k : A → Exec B}
      → Keeps view body
      → ((a : A) → Keeps view (k a))
      → Keeps view (body >>= k)
  Keeps-bind {A} {B} {body} {k} b ks = record { at = λ w c v. go w c v (body w) refl }
    where
      go :
          (w : World) (c : B) (v : World) (o : Outcome A)
          → body w ≡ o
          → and_then o k ≡ done c v
          → view v.db ≡ view w.db
      go w c v (done a u) e h = (ks a).at u c v h ∙ b.at w a u e
      go w c v (raised x u) e h = cc

  pub Keeps-reads :
      {A : Type 0} (body : Exec A)
      → ((w : World) → view (after (body w)).db ≡ view w.db)
      → Keeps view body
  Keeps-reads body h = record { at = λ w a v e. ground (arith, h w, e) }

  pub Keeps-raise_if : (b : Bool) (e : Error) → Keeps view (raise_if b e)
  Keeps-raise_if true e = Keeps-reads _ λ w. refl
  Keeps-raise_if false e = Keeps-reads _ λ w. refl

  pub Keeps-time : Keeps view time
  Keeps-time = Keeps-reads _ λ w. refl

  pub Keeps-new_id : Keeps view new_id
  Keeps-new_id = Keeps-reads _ λ w. refl

  module _ {A : Type 0} where
    pub Keeps-or_raise : (o : Option A) (e : Error) → Keeps view (or_raise o e)
    Keeps-or_raise none e = Keeps-reads _ λ w. refl
    Keeps-or_raise (some a) e = Keeps-reads _ λ w. refl

    pub Keeps-gets : (f : Db → A) → Keeps view (gets f)
    Keeps-gets f = Keeps-reads _ λ w. refl

    pub Keeps-pure : (a : A) → Keeps view (pure a)
    Keeps-pure a = Keeps-reads _ λ w. refl

    pub Keeps-if :
        (b : Bool) (m k : Exec A) → Keeps view m → Keeps view k → Keeps view (if b then m else k)
    Keeps-if true m k p q = p
    Keeps-if false m k p q = q

  pub Keeps-for_each :
      {A : Type 0} (xs : List A) (body : A → Exec (Unit {0}))
      → ((a : A) → Keeps view (body a))
      → Keeps view (for_each xs body)
  Keeps-for_each [] body h = Keeps-reads _ λ w. refl
  Keeps-for_each (x ∷ xs) body h = Keeps-bind (h x) λ _. Keeps-for_each xs body h

  pub Keeps-new_ids : (n : ℕ) → Keeps view (new_ids n)
  Keeps-new_ids zero = Keeps-reads _ λ w. refl
  Keeps-new_ids (suc n) =
      Keeps-bind Keeps-new_id λ i. Keeps-bind (Keeps-new_ids n) λ is. Keeps-pure (i ∷ is)

pub ruleset keep_rules = (
  Keeps-gets, Keeps-pure, Keeps-raise_if, Keeps-or_raise, Keeps-time, Keeps-new_id, Keeps-new_ids,
  Keeps-if, Keeps-for_each, Keeps-bind,
)
