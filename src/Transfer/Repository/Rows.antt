-- ===== src/Transfer/Repository/Rows.antt =====
-- What the statements of internal/modules/transfer/infrastructure/repository_sql.go do to the rows.
use go_sunabar_payments.Base.{
  ◌≡◌, refl, false, List, [], ◌∷◌, none, some, String, eq_iff, ◌==◌, arith, if◌then◌else◌,
}
use go_sunabar_payments.Transfer.Entity.{Transfer}
use go_sunabar_payments.Transfer.Repository.{
  clashes, written, is_current, update_rows, find_transfer,
}

-- No two rows agree in a unique key.
abbrev pub UniqueKeys : List Transfer → Type 0
UniqueKeys [] = Unit
UniqueKeys (r ∷ rows) = (clashes r rows ≡ false) × UniqueKeys rows

-- The rows after an update in which the version is checked, as a plain map.
abbrev pub map_current : Transfer → Transfer → Transfer
map_current t row = if is_current t row then written t row else row

clashes-update_rows :
    (r t : Transfer) (rows : List Transfer) → clashes r (update_rows t rows).1 ≡ clashes r rows
unfolding update_rows
clashes-update_rows r t [] = refl
clashes-update_rows r t (row ∷ rows) = ground (arith, clashes-update_rows r t rows)

clashes-written :
    (r t : Transfer) (rows : List Transfer) → clashes (written t r) rows ≡ clashes r rows
clashes-written r t [] = refl
clashes-written r t (row ∷ rows) = ground (arith, clashes-written r t rows)

-- An update keeps the keys unique.
pub update_rows-UniqueKeys :
    (t : Transfer) (rows : List Transfer) → UniqueKeys rows → UniqueKeys (update_rows t rows).1
unfolding update_rows
update_rows-UniqueKeys t [] u = tt
update_rows-UniqueKeys t (row ∷ rows) u = ground (
  arith,
  update_rows-UniqueKeys t rows u.1,
  clashes-update_rows row t rows,
  clashes-update_rows (written t row) t rows,
  clashes-written row t rows,
)

-- What is found after an update: the row, with the columns set if its version was the one given.
pub find-update_rows :
    (id : String) (t : Transfer) (rows : List Transfer) {row : Transfer}
    → find_transfer id rows ≡ some row
    → find_transfer id (update_rows t rows).1 ≡ some (map_current t row)
unfolding update_rows
find-update_rows id t [] e = ground arith
find-update_rows id t (r ∷ rows) {row} e = ground (arith, find-update_rows id t rows {row = row})

pub find-update_rows-none :
    (id : String) (t : Transfer) (rows : List Transfer)
    → find_transfer id rows ≡ none
    → find_transfer id (update_rows t rows).1 ≡ none
unfolding update_rows
find-update_rows-none id t [] e = refl
find-update_rows-none id t (r ∷ rows) e = ground (arith, find-update_rows-none id t rows)

-- No row of this id is there.
pub count_absent :
    (t : Transfer) (rows : List Transfer)
    → find_transfer t.id rows ≡ none
    → (update_rows t rows).0 ≡ 0
unfolding update_rows
count_absent t [] e = refl
count_absent t (r ∷ rows) e = ground (arith, count_absent t rows)

clashes-find :
    (r : Transfer) (id : String) (rows : List Transfer)
    → clashes r rows ≡ false
    → r.id ≡ id
    → find_transfer id rows ≡ none
clashes-find r id [] c e = refl
clashes-find r id (row ∷ rows) c e =
    ground (arith, clashes-find r id rows, eq_iff r.id row.id, eq_iff row.id id)

-- With unique keys an update counts one row if the version is the one in the table, else none.
pub count-update_rows :
    (t : Transfer) (rows : List Transfer) {row : Transfer}
    → UniqueKeys rows
    → find_transfer t.id rows ≡ some row
    → (update_rows t rows).0 ≡ (if row.version == t.version then 1 else 0)
unfolding update_rows
count-update_rows t [] u e = ground arith
count-update_rows t (r ∷ rows) {row} u e = ground (
  arith,
  count-update_rows t rows {row = row} u.1,
  clashes-find r t.id rows u.0,
  count_absent t rows,
  eq_iff r.id t.id,
)

-- An update that counts no row changes no row.
pub update_rows_zero :
    (t : Transfer) (rows : List Transfer)
    → (update_rows t rows).0 ≡ 0
    → (update_rows t rows).1 ≡ rows
unfolding update_rows
update_rows_zero t [] e = refl
update_rows_zero t (r ∷ rows) e = ground (arith, update_rows_zero t rows)
