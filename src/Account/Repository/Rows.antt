-- ===== src/Account/Repository/Rows.antt =====
-- What the statements of internal/modules/account/infrastructure/repository_sql.go do to the rows.
use go_sunabar_payments.Base.{
  ◌≡◌, refl, ◌∙◌, inl, inr, true, false, ◌||◌, List, [], ◌∷◌, ◌++◌, Option, none, some, String,
  str_eq, eq_iff, arith, Bool-cases, if◌then◌else◌,
}
use go_sunabar_payments.Account.Entity.{Account}
use go_sunabar_payments.Account.Repository.{
  overwritten, has_id, has_account_id, overwrite_id, overwrite_account_id, upsert_rows,
  account_with,
}

-- What is stored for an account: itself when its `account_id` is new, else the row with the columns of
-- the bank.
abbrev pub stored_as : Account → Option Account → Account
stored_as a none = a
stored_as a (some row) = overwritten a row

account_with-appended :
    (id : String) (a : Account) (rows : List Account)
    → has_account_id a.account_id rows ≡ false
    → account_with id (rows ++ a ∷ []) ≡ (
        if str_eq a.account_id id
        then some (stored_as a (account_with a.account_id rows))
        else account_with id rows)
account_with-appended id a [] h = refl
account_with-appended id a (row ∷ rows) h = ground (
  arith,
  account_with-appended id a rows,
  eq_iff row.account_id id,
  eq_iff row.account_id a.account_id,
  eq_iff a.account_id id,
)

account_with-overwritten :
    (id : String) (a : Account) (rows : List Account)
    → has_account_id a.account_id rows ≡ true
    → account_with id (overwrite_account_id a rows) ≡ (
        if str_eq a.account_id id
        then some (stored_as a (account_with a.account_id rows))
        else account_with id rows)
account_with-overwritten id a [] h = cc
account_with-overwritten id a (row ∷ rows) h = ground (
  arith,
  account_with-overwritten id a rows,
  eq_iff row.account_id id,
  eq_iff row.account_id a.account_id,
  eq_iff a.account_id id,
)

-- After an upsert under an identifier that no row has, the row of the account's key is the account or
-- the former row with the columns of the bank, its identifier and label kept; the rows of the other
-- keys are found as before.
pub account_with-upsert_rows :
    (id : String) (a : Account) (rows : List Account)
    → has_id a.id rows ≡ false
    → account_with id (upsert_rows a rows) ≡ (
        if str_eq a.account_id id
        then some (stored_as a (account_with a.account_id rows))
        else account_with id rows)
unfolding upsert_rows
account_with-upsert_rows id a rows h = elim (Bool-cases (has_account_id a.account_id rows)) [
  | inl y ↦ rw (h, y) (account_with-overwritten id a rows y)
  | inr n ↦ rw (h, n) (account_with-appended id a rows n)
]

-- No two rows have the same identifier or the same account.
abbrev pub UniqueAccounts : List Account → Type 0
UniqueAccounts [] = Unit
UniqueAccounts (row ∷ rows) =
    (has_id row.id rows ≡ false)
    × (has_account_id row.account_id rows ≡ false)
    × UniqueAccounts rows

pub has_id-overwrite_account_id :
    (id : String) (a : Account) (rows : List Account)
    → has_id id (overwrite_account_id a rows) ≡ has_id id rows
has_id-overwrite_account_id id a [] = refl
has_id-overwrite_account_id id a (row ∷ rows) =
    ground (arith, has_id-overwrite_account_id id a rows)

has_id-overwrite_id :
    (id : String) (a : Account) (rows : List Account)
    → has_id id (overwrite_id a rows) ≡ has_id id rows
has_id-overwrite_id id a [] = refl
has_id-overwrite_id id a (row ∷ rows) = ground (arith, has_id-overwrite_id id a rows)

has_account_id-overwrite_id :
    (id : String) (a : Account) (rows : List Account)
    → has_account_id id (overwrite_id a rows) ≡ has_account_id id rows
has_account_id-overwrite_id id a [] = refl
has_account_id-overwrite_id id a (row ∷ rows) =
    ground (arith, has_account_id-overwrite_id id a rows)

has_account_id-overwrite_account_id :
    (id : String) (a : Account) (rows : List Account)
    → has_account_id id (overwrite_account_id a rows) ≡ has_account_id id rows
has_account_id-overwrite_account_id id a [] = refl
has_account_id-overwrite_account_id id a (row ∷ rows) =
    ground (arith, has_account_id-overwrite_account_id id a rows)

overwrite_id-Unique :
    (a : Account) (rows : List Account) → UniqueAccounts rows → UniqueAccounts (overwrite_id a rows)
overwrite_id-Unique a [] u = tt
overwrite_id-Unique a (row ∷ rows) u = ground (
  arith,
  overwrite_id-Unique a rows u.2,
  has_id-overwrite_id row.id a rows,
  has_account_id-overwrite_id row.account_id a rows,
)

overwrite_account_id-Unique :
    (a : Account) (rows : List Account)
    → UniqueAccounts rows
    → UniqueAccounts (overwrite_account_id a rows)
overwrite_account_id-Unique a [] u = tt
overwrite_account_id-Unique a (row ∷ rows) u = ground (
  arith,
  overwrite_account_id-Unique a rows u.2,
  has_id-overwrite_account_id row.id a rows,
  has_account_id-overwrite_account_id row.account_id a rows,
)

has_id-append :
    (id : String) (a : Account) (rows : List Account)
    → has_id id (rows ++ a ∷ []) ≡ (has_id id rows || str_eq a.id id)
has_id-append id a [] = ground arith
has_id-append id a (row ∷ rows) = ground (arith, has_id-append id a rows)

has_account_id-append :
    (id : String) (a : Account) (rows : List Account)
    → has_account_id id (rows ++ a ∷ []) ≡ (has_account_id id rows || str_eq a.account_id id)
has_account_id-append id a [] = ground arith
has_account_id-append id a (row ∷ rows) = ground (arith, has_account_id-append id a rows)

append-Unique :
    (a : Account) (rows : List Account)
    → has_id a.id rows ≡ false
    → has_account_id a.account_id rows ≡ false
    → UniqueAccounts rows
    → UniqueAccounts (rows ++ a ∷ [])
append-Unique a [] h k u = (refl, refl, tt)
append-Unique a (row ∷ rows) h k u = ground (
  arith,
  append-Unique a rows,
  has_id-append row.id a rows,
  has_account_id-append row.account_id a rows,
  eq_iff row.id a.id,
  eq_iff a.id row.id,
  eq_iff row.account_id a.account_id,
  eq_iff a.account_id row.account_id,
)

-- An upsert keeps the keys of the table unique, whatever it is given.
pub upsert_rows-UniqueAccounts :
    (a : Account) (rows : List Account) → UniqueAccounts rows → UniqueAccounts (upsert_rows a rows)
unfolding upsert_rows
upsert_rows-UniqueAccounts a rows u = elim (Bool-cases (has_id a.id rows)) [
  | inl y ↦ rw y (overwrite_id-Unique a rows u)
  | inr n ↦ elim (Bool-cases (has_account_id a.account_id rows)) [
    | inl y ↦ rw (n, y) (overwrite_account_id-Unique a rows u)
    | inr m ↦ rw (n, m) (append-Unique a rows n m u)
  ]
]

found-has_account_id :
    (id : String) (rows : List Account) {row : Account}
    → account_with id rows ≡ some row
    → has_account_id id rows ≡ true
found-has_account_id id [] h = cc
found-has_account_id id (r ∷ rows) {row} h =
    ground (arith, found-has_account_id id rows {row = row})

-- An upsert of an account that is known brings in no identifier.
pub has_id-upsert_known :
    (a : Account) (rows : List Account) {row : Account}
    → account_with a.account_id rows ≡ some row
    → has_id a.id rows ≡ false
    → has_id a.id (upsert_rows a rows) ≡ false
unfolding upsert_rows
has_id-upsert_known a rows known fresh =
    rw (fresh, found-has_account_id a.account_id rows known)
      (has_id-overwrite_account_id a.id a rows ∙ fresh)
