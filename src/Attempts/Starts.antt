-- ===== src/Attempts/Starts.antt =====
-- How many attempts that pass a test a statement may start.
use simple_evolution.Prelude.{
  ℕ, suc, ◌+◌, ◌≤◌, String, Bool, ◌≡◌, refl, Option, List, [], ◌∷◌, count, count-append, length,
  arith,
}
use simple_evolution.Db.Rows.{Attempt, AttemptKind, AttemptStatus}
use simple_evolution.Db.State.{Db, World}
use simple_evolution.Db.Exec.{
  Exec, Outcome, done, raised, and_then, ◌>>=◌, pure, gets, time, new_id, collect, for_each, after,
  transaction,
}
use simple_evolution.Db.Insert.{new_attempt}
use simple_evolution.Attempts.Marks.{record_attempt}

pub record Starts (p : Attempt → Bool) (n : ℕ) {A : Type 0} (body : Exec A) : Type 0 where
  pub at : (w : World) → count p (after (body w)).attempts ≤ n + count p w.attempts

module _ (p : Attempt → Bool) where
  module _ {A B : Type 0} (n : ℕ) where
    pub Starts-after :
        {body : Exec A} {k : A → Exec B}
        → Starts p 0 body
        → ((a : A) → Starts p n (k a))
        → Starts p n (body >>= k)
    Starts-after {body} {k} b ks = record { at = λ w. go w (body w) (b.at w) }
      where
        go :
            (w : World) (o : Outcome A)
            → count p (after o).attempts ≤ 0 + count p w.attempts
            → count p (after (and_then o k)).attempts ≤ n + count p w.attempts
        go w (done a u) h = omega (arith, h, (ks a).at u)
        go w (raised e u) h = omega (arith, h)

    pub Starts-before :
        {body : Exec A} {k : A → Exec B}
        → Starts p n body
        → ((a : A) → Starts p 0 (k a))
        → Starts p n (body >>= k)
    Starts-before {body} {k} b ks = record { at = λ w. go w (body w) (b.at w) }
      where
        go :
            (w : World) (o : Outcome A)
            → count p (after o).attempts ≤ n + count p w.attempts
            → count p (after (and_then o k)).attempts ≤ n + count p w.attempts
        go w (done a u) h = omega (arith, h, (ks a).at u)
        go w (raised e u) h = omega (arith, h)

    pub Starts-one :
        {body : Exec A} {k : A → Exec B}
        → Starts p 1 body
        → ((a : A) → Starts p n (k a))
        → Starts p (suc n) (body >>= k)
    Starts-one {body} {k} b ks = record { at = λ w. go w (body w) (b.at w) }
      where
        go :
            (w : World) (o : Outcome A)
            → count p (after o).attempts ≤ 1 + count p w.attempts
            → count p (after (and_then o k)).attempts ≤ suc n + count p w.attempts
        go w (done a u) h = omega (arith, h, (ks a).at u)
        go w (raised e u) h = omega (arith, h)

  pub Starts-quiet :
      {A : Type 0} (body : Exec A)
      → ((w : World) → (after (body w)).attempts ≡ w.attempts)
      → Starts p 0 body
  Starts-quiet body h = record { at = λ w. ground (arith, h w) }

  pub Starts-time : Starts p 0 time
  Starts-time = Starts-quiet time λ w. refl

  pub Starts-new_id : Starts p 0 new_id
  Starts-new_id = Starts-quiet new_id λ w. refl

  pub Starts-gets : {A : Type 0} (f : Db → A) → Starts p 0 (gets f)
  Starts-gets f = Starts-quiet (gets f) λ w. refl

  pub Starts-pure : {A : Type 0} (a : A) → Starts p 0 (pure a)
  Starts-pure a = Starts-quiet (pure a) λ w. refl

  pub Starts-none : {A : Type 0} (n : ℕ) (body : Exec A) → Starts p 0 body → Starts p n body
  Starts-none n body b = record { at = λ w. omega (arith, b.at w) }

  pub Starts-record_attempt :
      (work : String) (k : AttemptKind) (s : AttemptStatus) (t r h : Option String) (now : Option ℕ)
      → Starts p 1 (record_attempt work k s t r h now)
  unfolding record_attempt transaction
  Starts-record_attempt work k s t r h started = record {
    at = λ w. ground (
      arith,
      count-append p w.attempts (
          record (new_attempt (w.uuid w.drawn) work k s started (w.clock w.readings)) {
            trace_ref = t;
            artifact_ref = r;
            host = h;
          }
          ∷ []),
    );
  }

  pub Starts-for_each :
      {A : Type 0} (xs : List A) (body : A → Exec (Unit {0}))
      → ((a : A) → Starts p 0 (body a))
      → Starts p 0 (for_each xs body)
  Starts-for_each [] body h = Starts-pure tt
  Starts-for_each (x ∷ xs) body h = Starts-after 0 (h x) λ _. Starts-for_each xs body h

  pub Starts-collect :
      {A B : Type 0} (xs : List A) (body : A → Exec B)
      → ((a : A) → Starts p 1 (body a))
      → Starts p (length xs) (collect xs body)
  Starts-collect [] body h = Starts-pure []
  Starts-collect (x ∷ xs) body h =
      Starts-one (length xs) (h x)
        λ b. Starts-before (length xs) (Starts-collect xs body h) λ bs. Starts-pure (b ∷ bs)

pub ruleset start_rules = (
  Starts-after, Starts-before, Starts-time, Starts-new_id, Starts-gets, Starts-pure,
  Starts-record_attempt,
)
