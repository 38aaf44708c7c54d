-- ===== src/Reconciliation/Invoice/Payments.antt =====
-- Payments on an invoice (internal/modules/reconciliation/domain/invoice.go).
use go_sunabar_payments.Base.{
  ℕ, ◌+◌, ◌^◌, ◌<◌, ◌≡◌, refl, sym, ap, ◌∙◌, ◌≢◌, ◌↔◌, List, [], ◌∷◌, arith,
}
use go_sunabar_payments.Base.Int.{ℤ, pos, ◌+ℤ◌, ◌<ℤ◌, wrap64, eq_of_parts}
use go_sunabar_payments.Reconciliation.Invoice.{
  InvoiceStatus, invoice_open, invoice_partial, invoice_cleared, invoice_excess, Invoice,
  status_for, apply_payment,
}

-- What each state says of what has been paid on an amount.
abbrev pub Says : InvoiceStatus → ℤ → ℤ → Type 0
Says invoice_open paid amount = paid ≡ pos 0
Says invoice_partial paid amount = (paid ≢ pos 0) × (paid <ℤ amount)
Says invoice_cleared paid amount = (paid ≢ pos 0) × (paid ≡ amount)
Says invoice_excess paid amount = (paid ≢ pos 0) × (amount <ℤ paid)

says : (paid amount : ℤ) (s : InvoiceStatus) → status_for paid amount ≡ s → Says s paid amount
unfolding status_for
says paid amount invoice_open h = ground (arith, eq_of_parts paid (pos 0), eq_of_parts paid amount)
says paid amount invoice_partial h =
    ground (arith, eq_of_parts paid (pos 0), eq_of_parts paid amount)
says paid amount invoice_cleared h =
    ground (arith, eq_of_parts paid (pos 0), eq_of_parts paid amount)
says paid amount invoice_excess h =
    ground (arith, eq_of_parts paid (pos 0), eq_of_parts paid amount)

said : (paid amount : ℤ) (s : InvoiceStatus) → Says s paid amount → status_for paid amount ≡ s
unfolding status_for
said paid amount invoice_open h = rw h refl
said paid amount invoice_partial h =
    ground (arith, eq_of_parts paid (pos 0), eq_of_parts paid amount)
said paid amount invoice_cleared h =
    ground (arith, eq_of_parts paid (pos 0), eq_of_parts paid amount)
said paid amount invoice_excess h =
    ground (arith, eq_of_parts paid (pos 0), eq_of_parts paid amount)

-- The state of an invoice says how what has been paid compares with the amount, and each state is
-- given when what it says is so.
pub status_for_iff :
    (paid amount : ℤ) (s : InvoiceStatus) → (status_for paid amount ≡ s) ↔ Says s paid amount
status_for_iff paid amount s = (says paid amount s, said paid amount s)

-- The payments made on an invoice one after another, each with its instant.
abbrev pub apply_all : Invoice → List (ℕ × ℕ) → Invoice
apply_all i [] = i
apply_all i ((amount, at) ∷ payments) = apply_all (apply_payment i (pos amount) at) payments

abbrev pub sum : List (ℕ × ℕ) → ℕ
sum [] = 0
sum ((amount, at) ∷ payments) = amount + sum payments

one_payment :
    (i : Invoice) (p amount at : ℕ)
    → i.paid_amount ≡ pos p
    → p + amount < 2 ^ 63
    → (apply_payment i (pos amount) at).paid_amount ≡ pos (p + amount)
unfolding apply_payment ◌+ℤ◌ wrap64
one_payment i p amount at h fits = rw h (ground arith)

added_up :
    (i : Invoice) (p : ℕ) (payments : List (ℕ × ℕ))
    → i.paid_amount ≡ pos p
    → i.status ≡ status_for (pos p) i.amount
    → p + sum payments < 2 ^ 63
    → ((apply_all i payments).paid_amount ≡ pos (p + sum payments))
      × ((apply_all i payments).status ≡ status_for (pos (p + sum payments)) i.amount)
unfolding apply_payment
added_up i p [] h s fits = (h ∙ ap pos grouped, s ∙ ap (λ n. status_for (pos n) i.amount) grouped)
  where
    grouped : p ≡ p + 0
    grouped = omega arith
added_up i p ((amount, at) ∷ payments) h s fits =
    let paid = one_payment i p amount at h (omega (arith, fits)) in
    let (total, status) =
      added_up (apply_payment i (pos amount) at) (p + amount) payments paid
        (ap (λ x. status_for x i.amount) paid) (omega (arith, fits)) in
    (total ∙ ap pos grouped, status ∙ ap (λ n. status_for (pos n) i.amount) grouped)
  where
    grouped : p + amount + sum payments ≡ p + (amount + sum payments)
    grouped = omega arith

-- Payments that are not negative and whose sum fits into an int64 add up: the paid amount grows by
-- their sum, and the state, when it was right before, says how that sum compares with the amount of the
-- invoice: OPEN nothing paid, PARTIAL less, CLEARED as much and EXCESS more.
pub payments_add_up :
    (i : Invoice) (p : ℕ) (payments : List (ℕ × ℕ))
    → i.paid_amount ≡ pos p
    → Says i.status (pos p) i.amount
    → p + sum payments < 2 ^ 63
    → ((apply_all i payments).paid_amount ≡ pos (p + sum payments))
      × Says (apply_all i payments).status (pos (p + sum payments)) i.amount
payments_add_up i p payments h s fits =
    let before = (status_for_iff (pos p) i.amount i.status).1 s in
    let (total, status) = added_up i p payments h (sym before) fits in
    (
      total,
      (status_for_iff (pos (p + sum payments)) i.amount (apply_all i payments).status).0
          (sym status),
    )
