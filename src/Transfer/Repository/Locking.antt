-- ===== src/Transfer/Repository/Locking.antt =====
-- Optimistic locking (internal/modules/transfer/infrastructure/repository_sql.go).
use go_sunabar_payments.Base.{
  ◌+◌, ◌≡◌, refl, ap, ◌∙◌, ◌≢◌, Option, none, some, List, [], ◌∷◌, String, eq_iff, arith,
}
use go_sunabar_payments.Platform.Errors.{ok}
use go_sunabar_payments.Platform.World.{Db, World, ◌>>=◌, on_error}
use go_sunabar_payments.Platform.Sql.{exec_tx, rows_affected}
use go_sunabar_payments.Platform.Sql.Keeps.{Keeps, keeps_rules, working-statement}
use go_sunabar_payments.Transfer.Entity.{Transfer}
use go_sunabar_payments.Transfer.Repository.{
  written, update_rows, update_row, find_transfer, update,
}
use go_sunabar_payments.Transfer.Repository.Rows.{
  UniqueKeys, map_current, update_rows-UniqueKeys, find-update_rows, count-update_rows,
  count_absent,
}

-- What a successful `Update` has done.
pub update_ok :
    (t : Transfer) (w : World) {t' : Transfer}
    → (update t w).0 ≡ ok t'
    → let rows = update_rows t w.working.transfers in
      (t' ≡ record t { version = t.version + 1 })
      × (rows.0 ≢ 0)
      × ((update t w).1.working ≡ record w.working { transfers = rows.1 })
unfolding update update_row exec_tx rows_affected on_error ◌>>=◌
update_ok t w h =
    ground (arith, working-statement w, working-statement (exec_tx (update_row t) w).1)

pub found_id :
    (id : String) (rows : List Transfer) {row : Transfer}
    → find_transfer id rows ≡ some row
    → row.id ≡ id
found_id id [] e = cc
found_id id (r ∷ rows) {row} e = ground (arith, found_id id rows {row = row}, eq_iff r.id id)

current :
    (t row : Transfer) → row.id ≡ t.id → row.version ≡ t.version → map_current t row ≡ written t row
current t row e v = ground (arith, eq_iff row.id t.id)

-- When the keys of the table are unique, an update that succeeds has found its row at the version
-- given, and leaves it written there, one version on.
pub update_found :
    (t : Transfer) (w : World) {t' : Transfer}
    → UniqueKeys w.working.transfers
    → (update t w).0 ≡ ok t'
    → (row : Transfer) × (find_transfer t.id w.working.transfers ≡ some row)
      × (row.version ≡ t.version)
      × (find_transfer t.id (update t w).1.working.transfers ≡ some (written t row))
update_found t w {t'} u h = go (find_transfer t.id w.working.transfers) refl
  where
    done :
        (update t w).1.working
        ≡ record w.working { transfers = (update_rows t w.working.transfers).1 }
    done = (update_ok t w h).2

    counted : (update_rows t w.working.transfers).0 ≢ 0
    counted = (update_ok t w h).1

    go :
        (o : Option Transfer)
        → find_transfer t.id w.working.transfers ≡ o
        → (row : Transfer) × (find_transfer t.id w.working.transfers ≡ some row)
          × (row.version ≡ t.version)
          × (find_transfer t.id (update t w).1.working.transfers ≡ some (written t row))
    go none e = absurd (counted (count_absent t w.working.transfers e))
    go (some row) e =
        let n = count-update_rows t w.working.transfers u e in
        let same : row.version ≡ t.version = ground (arith, counted) in
        (
          row,
          e,
          same,
          rw done (
              find-update_rows t.id t w.working.transfers e
              ∙ ap some (current t row (found_id t.id w.working.transfers e) same)),
        )

stale :
    (t other row row' : Transfer) (rows : List Transfer)
    → other.id ≡ t.id
    → other.version ≡ t.version
    → row.version ≡ t.version
    → row'.version ≡ other.version
    → find_transfer t.id rows ≡ some (written t row)
    → find_transfer other.id rows ≡ some row'
    → ⊥
stale t other row row' rows i v same same' found found' =
    let there : find_transfer t.id rows ≡ some row' = rw (← i) found' in ground arith

-- When the keys of the table are unique, of two writers that have read the same version of a transfer
-- only one succeeds: once one update
-- has gone through, the other cannot, whichever statements fail.
pub one_writer :
    (t other : Transfer) (w w' : World) {a b : Transfer}
    → UniqueKeys w.working.transfers
    → other.id ≡ t.id
    → other.version ≡ t.version
    → (update t w).0 ≡ ok a
    → w'.working ≡ (update t w).1.working
    → (update other w').0 ≢ ok b
one_writer t other w w' u i v first e second =
    let (row, at, same, after) = update_found t w u first in
    let rows : w'.working.transfers ≡ (update_rows t w.working.transfers).1 =
      ap (λ (db : Db). db.transfers) (e ∙ (update_ok t w first).2) in
    let unique : UniqueKeys w'.working.transfers =
      rw rows (update_rows-UniqueKeys t w.working.transfers u) in
    let (row', at', same', _) = update_found other w' unique second in
    let found : find_transfer t.id w'.working.transfers ≡ some (written t row) =
      ap (λ (db : Db). find_transfer t.id db.transfers) e ∙ after in
    stale t other row row' w'.working.transfers i v same same' found at'

pub Keeps-update : (t : Transfer) → Keeps (update t)
unfolding update
Keeps-update t = search keeps_rules
