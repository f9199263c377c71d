-- ===== src/Writer/LedgerLaws.antt =====
-- A resource row that is opened and closed.
use simple_evolution.Prelude.{
  ℕ, String, false, ◌≡◌, refl, some, List, [], ◌∷◌, ◌==◌, string_eq, select, count, update, arith,
  eq_iff,
}
use simple_evolution.Db.Rows.{ResourceRow}
use simple_evolution.Db.State.{World}
use simple_evolution.Db.Exec.{done, transaction}
use simple_evolution.Writer.Ledger.{close_resource_row, is_held}

closes : ℕ → String → List ResourceRow → List ResourceRow
unfolding is_held
closes now ref rs = update (is_held ref) (λ r. record r { closed_at = some now }) rs

none_held :
    (now : ℕ) (ref : String) (rs : List ResourceRow) → count (is_held ref) (closes now ref rs) ≡ 0
unfolding closes is_held
none_held now ref [] = refl
none_held now ref (r ∷ rs) = ground (arith, none_held now ref rs)

others_kept :
    (now : ℕ) (ref other : String) (rs : List ResourceRow)
    → (other == ref) ≡ false
    → select (λ r. r.ref_id == other) (closes now ref rs) ≡ select (λ r. r.ref_id == other) rs
unfolding closes is_held
others_kept now ref other [] h = refl
others_kept now ref other (r ∷ rs) h =
    ground (arith, others_kept now ref other rs h, eq_iff r.ref_id other, eq_iff r.ref_id ref, h)

-- A close returns. No row of the occupancy is open after it, and the rows of any other occupancy
-- stay as they were.
pub close_resource_row_lem :
    (ref other : String) (w : World)
    → (other == ref) ≡ false
    → (v : World) × (close_resource_row ref w ≡ done tt v)
      × (count (is_held ref) v.resource_ledger ≡ 0)
      × (select (λ r. r.ref_id == other) v.resource_ledger
          ≡ select (λ r. r.ref_id == other) w.resource_ledger)
unfolding close_resource_row transaction closes
close_resource_row_lem ref other w h =
    let now = w.clock w.readings in
    (_, refl, none_held now ref w.resource_ledger, others_kept now ref other w.resource_ledger h)
