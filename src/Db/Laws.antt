-- ===== src/Db/Laws.antt =====
-- What a transaction does on either outcome.
use simple_evolution.Prelude.{◌≡◌, arith}
use simple_evolution.Db.State.{World}
use simple_evolution.Db.Exec.{Error, Exec, Outcome, done, raised, transaction, commit_or_roll_back}

-- What a transaction leaves behind when a statement raises.
pub transaction-raised :
    {A : Type 0} (m : Exec A) (w : World) (e : Error) (v : World)
    → transaction m w ≡ raised e v
    → v.db ≡ w.db
unfolding transaction
transaction-raised {A} m w e v = back (m w)
  where
    back : (o : Outcome A) → commit_or_roll_back w.db o ≡ raised e v → v.db ≡ w.db
    back (done a u) h = cc
    back (raised x u) h = ground arith

pub transaction-done :
    {A : Type 0} (m : Exec A) (w : World) (a : A) (v : World)
    → transaction m w ≡ done a v
    → m w ≡ done a v
unfolding transaction
transaction-done {A} m w a v = back (m w)
  where
    back : (o : Outcome A) → commit_or_roll_back w.db o ≡ done a v → o ≡ done a v
    back (done b u) h = h
    back (raised x u) h = cc
