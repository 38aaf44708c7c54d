-- ===== src/Platform/World.antt =====
-- The state in which the service runs: the committed database and the one that an open transaction
-- sees, the circuit breaker, and what happens outside: the clock, the generator of identifiers, the
-- bank and the sender of notices as functions, the outcomes of the coming SQL statements, and what
-- other processes commit before each transaction of this one.
pub mod Inversion
use go_sunabar_payments.Base.{Bool, ℕ, ◌+◌, List, [], ◌∷◌, ◌++◌, Option, none, some, String}
use go_sunabar_payments.Platform.Errors.{Error, Result, ok, err}
use go_sunabar_payments.Platform.Bank.{
  TransferRequest, TransferResult, TransferStatusResult, Transaction, VirtualAccountRequest,
}
use go_sunabar_payments.Platform.Bank as Bank
use go_sunabar_payments.Account.Entity.{Account, VirtualAccountRow}
use go_sunabar_payments.Transfer.Entity.{Transfer}
use go_sunabar_payments.Transfer.Breaker.{CircuitBreaker}
use go_sunabar_payments.Outbox.Event.{OutboxRow}
use go_sunabar_payments.Reconciliation.Invoice.{Invoice, IncomingTransaction}
use go_sunabar_payments.Notification.Notice.{Notice}

-- The tables; `event_processed` holds the pairs of an event and a consumer.
pub record Db : Type 0 where
  pub transfers : List Transfer
  pub outbox_events : List OutboxRow
  pub event_processed : List (String × String)
  pub invoices : List Invoice
  pub incoming_transactions : List IncomingTransaction
  pub accounts : List Account
  pub virtual_accounts : List VirtualAccountRow

-- What is outside the repository. A function of the bank takes the number of the call, since the
-- same question may have another answer later.
pub record Outside : Type 0 where
  pub clock : ℕ → ℕ
  pub fresh_id : ℕ → String
  pub format_date : ℕ → String
  pub parse_date : String → ℕ
  pub request_transfer : ℕ → TransferRequest → Result TransferResult
  pub transfer_status : ℕ → String → Result TransferStatusResult
  pub list_transactions : ℕ → String → ℕ → ℕ → Result (List Transaction)
  pub deliver : ℕ → Notice → Option Error
  pub parse_day : String → Option ℕ
  pub get_accounts : ℕ → Result (List Bank.Account)
  pub get_balance : ℕ → String → Result Bank.Balance
  -- the rows of the outbox that other workers have locked, by the readings of the clock so far
  pub locked : ℕ → String → Bool
  pub issue_virtual_account : ℕ → VirtualAccountRequest → Result Bank.VirtualAccount

pub record World : Type 0 where
  pub outside : Outside
  pub committed : Db
  pub working : Db
  -- the outcome of each coming statement; past the end all succeed
  pub faults : List (Option Error)
  -- what others commit before each coming transaction; past the end nothing
  pub others : List (Db → Db)
  pub ticks : ℕ
  pub ids : ℕ
  pub calls : ℕ
  pub breaker : CircuitBreaker
  -- the transfers and virtual accounts asked of the bank and the notices handed over, oldest first
  pub requests : List TransferRequest
  pub notices : List Notice
  pub issues : List VirtualAccountRequest

-- An action returns a value or an error; what it did before an error stays done.
abbrev pub Action {ℓ} : Type ℓ → Type ℓ
Action A = World → Result A × World

module _ {ℓ} {A : Type ℓ} where
  unfoldable pub pure : A → Action A
  pure a w = (ok a, w)

  unfoldable pub raise : Error → Action A
  raise e w = (err e, w)

  unfoldable pub lift : Result A → Action A
  lift r w = (r, w)

module _ {ℓ κ} {A : Type ℓ} {B : Type κ} where
  abbrev pub continue : Result A → (A → Action B) → Action B
  continue (ok a) f w = f a w
  continue (err e) f w = (err e, w)

  -- Opening this opens `pure`, `raise` and `lift` too.
  infixl 5 ◌>>=◌
  unfoldable pub ◌>>=◌ : Action A → (A → Action B) → Action B
  unfolding pure raise lift
  ◌>>=◌ m f w = let (r, w') = m w in continue r f w'

infixl 5 ◌>>◌
abbrev pub ◌>>◌ {ℓ κ} : {A : Type ℓ} {B : Type κ} → Action A → Action B → Action B
m >> k = m >>= λ _. k

abbrev pub rewrap {ℓ} : {A : Type ℓ} → (Error → Error) → Result A → Result A
rewrap f (ok a) = ok a
rewrap f (err e) = err (f e)

-- `if err != nil { return f(err) }`.
unfoldable pub on_error {ℓ} : {A : Type ℓ} → (Error → Error) → Action A → Action A
on_error f m w = let (r, w') = m w in (rewrap f r, w')

-- `now()` and the identifiers: each call has the next value.
unfoldable pub now : Action ℕ
now w = (ok (w.outside.clock w.ticks), record w { ticks = w.ticks + 1 })

unfoldable pub new_id : Action String
new_id w = (ok (w.outside.fresh_id w.ids), record w { ids = w.ids + 1 })
