-- ===== src/Lease/Goes.antt =====
-- Steps of one lease along a sequence of statements.
use simple_evolution.Prelude.{ℕ, String, ◌≡◌, refl, inl, inr, none, some, string_eq}
use simple_evolution.Db.Rows.{ProposerAllocation}
use simple_evolution.Db.State.{Db, World}
use simple_evolution.Db.Exec.{Exec, Outcome, done, raised, after, pure, ◌>>=◌, and_then}
use simple_evolution.Db.Select.{get_allocation}
use simple_evolution.Lease.Frame.{leases, Frames, Touches}
use simple_evolution.Lease.Machine.{delivery_step, Advances, Advances-same, Advances-update_one}
use simple_evolution.Lease.Writes.{self-found}
use simple_evolution.Lease.Minting.{awaiting}

-- A statement that, where the lease `i` has the row `a`, makes steps only.
pub record Goes (m : ℕ) (i : String) (a : ProposerAllocation) {A : Type 0} (body : Exec A)
    : Type 0 where
  pub at : (w : World) → get_allocation i w.db ≡ some a → Advances m w.db (after (body w)).db

module _ {m : ℕ} {i : String} {a : ProposerAllocation} {A : Type 0} where
  pub Goes-Frames : {body : Exec A} → Frames body → Goes m i a body
  Goes-Frames frames = record { at = λ w found. Advances-same m w.db _ (frames.at w) }

  pub Goes-Touches :
      {body : Exec A}
      → a.finished_at ≡ none
      → Touches a.allocation_id awaiting body
      → Goes m i a body
  Goes-Touches {body} is_open touches = record {
    at = λ w found. elim (touches.at w) [
      | inl e ↦ Advances-same m w.db _ e
      | inr e ↦
          Advances-update_one m w.db _ a.allocation_id a awaiting (λ x. refl)
            (self-found i w.db a found) (delivery_step m a is_open) e
    ];
  }

module _ {m : ℕ} {i : String} {a : ProposerAllocation} {A B : Type 0} where
  pub gone :
      (db : Db) (o : Outcome A) (k : A → Exec B)
      → leases o ≡ db.proposer_allocations
      → get_allocation i db ≡ some a
      → ((x : A) → Goes m i a (k x))
      → Advances m db (after (and_then o k)).db
  unfolding get_allocation
  gone db (done x w) k e found goes j b h = (goes x).at w (rw e found) j b (rw e h)
  gone db (raised x w) k e found goes j b h = Advances-same m db w.db e j b h

  pub Goes-bind :
      {body : Exec A} {k : A → Exec B}
      → Frames body
      → ((x : A) → Goes m i a (k x))
      → Goes m i a (body >>= k)
  Goes-bind {body} {k} frames goes = record {
    at = λ w found. gone w.db (body w) k (frames.at w) found goes;
  }

  pub Goes-pure : {body : Exec A} (b : B) → Goes m i a body → Goes m i a (body >>= λ _. pure b)
  Goes-pure {body} b goes = record { at = λ w found. ended w.db (body w) (goes.at w found) }
    where
      ended :
          (db : Db) (o : Outcome A)
          → Advances m db (after o).db
          → Advances m db (after (and_then o (λ _. pure b))).db
      ended db (done x w) h = h
      ended db (raised x w) h = h
