-- ===== src/Attempts/Conserves.antt =====
-- Statements of the reconciler that leave what research has found as it is.
use simple_evolution.Prelude.{
  Bool, true, false, ◌≡◌, refl, ◌∙◌, sym, subst, [], arith, map, if◌then◌else◌, string_eq,
}
use simple_evolution.Db.Rows.{Experiment, ExperimentStatus, is_open}
use simple_evolution.Db.State.{Db, World}
use simple_evolution.Db.Exec.{
  Error, Exec, Outcome, done, raised, and_then, ◌>>=◌, pure, raise, gets, after, transaction,
}

-- An experiment that has no result yet, as pending; one that has a result, as it is.
abbrev pub result_of : Experiment → Experiment
result_of e = if is_open e.status then record e { status = ExperimentStatus.pending } else e

-- The database without its attempts, and without which of the open experiments run: what research
-- has found, the statuses of the experiments that have a result included.
abbrev pub findings : Db → Db
findings db = record db { attempts = []; experiments = map result_of db.experiments }

-- The findings stay, where they pass a test.
pub record Conserves (ok : Db → Bool) {A : Type 0} (body : Exec A) : Type 0 where
  pub at : (w : World) → ok (findings w.db) ≡ true → findings (after (body w)).db ≡ findings w.db

module _ {ok : Db → Bool} {A B : Type 0} where
  pub Conserves-bind :
      {body : Exec A} {k : A → Exec B}
      → Conserves ok body
      → ((a : A) → Conserves ok (k a))
      → Conserves ok (body >>= k)
  Conserves-bind {body} {k} b ks = record { at = λ w h. go w h (body w) (b.at w h) }
    where
      go :
          (w : World)
          → ok (findings w.db) ≡ true
          → (o : Outcome A) → findings (after o).db ≡ findings w.db
          → findings (after (and_then o k)).db ≡ findings w.db
      go w h (done a u) e = (ks a).at u (subst (λ d. ok d ≡ true) (sym e) h) ∙ e
      go w h (raised x u) e = e

pub Conserves-weaken :
    (strong weak : Db → Bool) {A : Type 0} (body : Exec A)
    → ((db : Db) → strong db ≡ true → weak db ≡ true)
    → Conserves weak body
    → Conserves strong body
Conserves-weaken strong weak body implies b = record {
  at = λ w h. b.at w (implies (findings w.db) h);
}

module _ {ok : Db → Bool} {A : Type 0} where
  pub Conserves-pure : (a : A) → Conserves ok (pure a)
  Conserves-pure a = record { at = λ w h. refl }

  pub Conserves-raise : (e : Error) → Conserves ok (raise {A = A} e)
  Conserves-raise e = record { at = λ w h. refl }

  pub Conserves-gets : (f : Db → A) → Conserves ok (gets f)
  Conserves-gets f = record { at = λ w h. refl }

  pub Conserves-if :
      (b : Bool) (m k : Exec A)
      → Conserves ok m
      → Conserves ok k
      → Conserves ok (if b then m else k)
  Conserves-if true m k p q = p
  Conserves-if false m k p q = q

  pub Conserves-transaction : (m : Exec A) → Conserves ok m → Conserves ok (transaction m)
  unfolding transaction
  Conserves-transaction m b = record { at = λ w h. ground (arith, b.at w h) }
