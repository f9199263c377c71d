-- ===== src/Lease/Keeping.antt =====
-- An allocation keeps the rows of the leases that are there.
use simple_evolution.Prelude.{
  ℕ, zero, suc, String, Bool, true, false, ◌≡◌, refl, Option, none, some, List, [], ◌∷◌, arith,
  find-append, ◌==◌, string_eq, nat_beq, if◌then◌else◌,
}
use simple_evolution.Json.{Json}
use simple_evolution.Db.Rows.{ProposerAllocation, ResourceKind, seat, Episode}
use simple_evolution.Db.State.{World}
use simple_evolution.Db.Exec.{
  Exec, Outcome, done, raised, after, ◌>>=◌, pure, and_then, new_ids, unknown_node,
}
use simple_evolution.Db.Select.{get_allocation, get_episode}
use simple_evolution.Db.Insert.{create_allocation, open_resource}
use simple_evolution.Lease.Allocate.{
  LeaseSpec, allocate_on_tx, reserve, new_allocation, check_episode, stamp_lens, reserved_count,
}
use simple_evolution.Lease.Adjudicate.{graduate_on_tx}
use simple_evolution.Lease.Frame.{
  Frames, frame_rules, Frames-bind, Frames-gets, Frames-pure, Frames-time, Frames-new_id,
  Frames-raise_if, leases-create_allocation, leases-open_resource,
}

-- A statement that keeps every lease row as it is.
pub record KeepsRows {A : Type 0} (body : Exec A) : Type 0 where
  pub at :
      (w : World) (i : String) (a : ProposerAllocation)
      → get_allocation i w.db ≡ some a
      → get_allocation i (after (body w)).db ≡ some a

Frames→KeepsRows : {A : Type 0} {body : Exec A} → Frames body → KeepsRows body
unfolding get_allocation
Frames→KeepsRows f = record { at = λ w i a h. ground (arith, f.at w, h) }

module _ {A B : Type 0} where
  kept :
      (o : Outcome A) (k : A → Exec B) (i : String) (a : ProposerAllocation)
      → get_allocation i (after o).db ≡ some a
      → ((x : A) → KeepsRows (k x))
      → get_allocation i (after (and_then o k)).db ≡ some a
  kept (done x w) k i a h keeps = (keeps x).at w i a h
  kept (raised x w) k i a h keeps = h

  KeepsRows-bind :
      {body : Exec A} {k : A → Exec B}
      → KeepsRows body
      → ((x : A) → KeepsRows (k x))
      → KeepsRows (body >>= k)
  KeepsRows-bind {body} {k} b ks = record { at = λ w i a h. kept (body w) k i a (b.at w i a h) ks }

create_allocation-KeepsRows : (new : ProposerAllocation) → KeepsRows (create_allocation new)
unfolding get_allocation
create_allocation-KeepsRows new = record {
  at = λ w i a h. ground (
    arith,
    leases-create_allocation new w,
    h,
    find-append (λ x. x.allocation_id == i) w.proposer_allocations (new ∷ []),
  );
}

new_ids-Frames : (n : ℕ) → Frames (new_ids n)
new_ids-Frames zero = record { at = λ w. refl }
new_ids-Frames (suc n) =
    Frames-bind Frames-new_id λ i. Frames-bind (new_ids-Frames n) λ is. Frames-pure (i ∷ is)

open_resource-KeepsRows :
    (k : ResourceKind) (r : String) (a e : Option String) (now : ℕ)
    → KeepsRows (open_resource k r a e now)
open_resource-KeepsRows k r a e now =
    Frames→KeepsRows (record { at = leases-open_resource k r a e now })

reserve-KeepsRows :
    (spec : LeaseSpec) (decision : Option String) (n : ℕ) → KeepsRows (reserve spec decision n)
unfolding reserve
reserve-KeepsRows spec decision n = KeepsRows-bind (Frames→KeepsRows Frames-time) λ now.
    KeepsRows-bind (Frames→KeepsRows Frames-new_id) λ aid.
      KeepsRows-bind (Frames→KeepsRows (new_ids-Frames n)) λ ids.
        KeepsRows-bind (create_allocation-KeepsRows (new_allocation aid spec ids now decision)) λ _.
          KeepsRows-bind (open_resource-KeepsRows seat aid (some aid) none now)
            λ _. Frames→KeepsRows (Frames-pure (some (new_allocation aid spec ids now decision)))

check_episode-Frames : (spec : LeaseSpec) (o : Option Episode) → Frames (check_episode spec o)
unfolding check_episode
check_episode-Frames spec none = search frame_rules
check_episode-Frames spec (some e) = record { at = λ w. ground arith }

stamp_lens-Frames :
    (spec : LeaseSpec) (e : Episode) (lens : Option String) → Frames (stamp_lens spec e lens)
unfolding stamp_lens
stamp_lens-Frames spec e none = search frame_rules
stamp_lens-Frames spec e (some lens) = record { at = λ w. ground arith }

-- An allocation, granted or refused, leaves the leases that are there as they are.
pub allocate_on_tx-KeepsRows :
    (spec : LeaseSpec) (limit : Option ℕ) (decision : Option String)
    → KeepsRows (allocate_on_tx spec limit decision)
unfolding allocate_on_tx
allocate_on_tx-KeepsRows spec limit decision =
    KeepsRows-bind (Frames→KeepsRows (Frames-gets (λ d. d))) λ db.
      KeepsRows-bind (Frames→KeepsRows (Frames-raise_if _ (unknown_node spec.node_id))) λ _.
        KeepsRows-bind
          (Frames→KeepsRows (check_episode-Frames spec (get_episode spec.episode_id db)))
          λ e. KeepsRows-bind (Frames→KeepsRows (stamp_lens-Frames spec e spec.lens)) λ _.
            KeepsRows-bind (Frames→KeepsRows (Frames-gets (reserved_count spec limit)))
              λ n. go n (nat_beq n 0)
  where
    go : (n : ℕ) (b : Bool) → KeepsRows (if b then pure none else reserve spec decision n)
    go n true = Frames→KeepsRows (Frames-pure none)
    go n false = reserve-KeepsRows spec decision n

pub graduate_on_tx-Frames :
    (e sha : String) (o : Option (List Json)) → Frames (graduate_on_tx e sha o)
unfolding graduate_on_tx
graduate_on_tx-Frames e sha none = Frames-pure 0
graduate_on_tx-Frames e sha (some entries) = record { at = λ w. ground arith }
