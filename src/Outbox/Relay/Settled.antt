-- ===== src/Outbox/Relay/Settled.antt =====
-- Which rows the updates of a batch touch (internal/platform/outbox/relay.go).
use mathlib.Core.List.{Memᴰ}
use go_sunabar_payments.Base.{
  ◌≡◌, refl, ◌∙◌, ◌⊎◌, inl, inr, true, List, [], ◌∷◌, String, eq_iff, All, arith,
}
use mathlib.Core.Path.{subst}
use go_sunabar_payments.Platform.Errors.{Result, ok, err}
use go_sunabar_payments.Platform.World.{World}
use go_sunabar_payments.Outbox.Event.{OutboxRow}
use go_sunabar_payments.Outbox.Due.{is_pending}
use go_sunabar_payments.Outbox.Relay.{
  Relay, RowUpdate, mark_sent, put_off, mark_failed, retry_later, update_outbox_row, update_all,
  write_all, dispatch_all,
}
use go_sunabar_payments.Outbox.Relay.Backed.{Backing, Backed, dispatch_all_backed}

-- The columns that say what the event is.
pub record SameEvent (row row' : OutboxRow) : Type 0 where
  pub id : row'.id ≡ row.id
  pub aggregate_type : row'.aggregate_type ≡ row.aggregate_type
  pub aggregate_id : row'.aggregate_id ≡ row.aggregate_id
  pub event_type : row'.event_type ≡ row.event_type
  pub payload : row'.payload ≡ row.payload
  pub created_at : row'.created_at ≡ row.created_at

-- A row of the batch has the identifier.
abbrev pub Taken : List OutboxRow → String → Type 0
Taken batch id = (b : OutboxRow) × Memᴰ b batch × (id ≡ b.id)

-- What the updates of a batch leave of a row: its event, and all of it unless it is PENDING and of the
-- batch.
abbrev pub Follows : List OutboxRow → OutboxRow → OutboxRow → Type 0
Follows batch row row' =
    SameEvent row row' × ((row' ≡ row) ⊎ ((is_pending row.status ≡ true) × Taken batch row.id))

-- The same rows one by one, each as the updates leave it.
abbrev pub RowsFollow : List OutboxRow → List OutboxRow → List OutboxRow → Type 0
RowsFollow batch [] [] = Unit
RowsFollow batch [] (row' ∷ rows') = ⊥
RowsFollow batch (row ∷ rows) [] = ⊥
RowsFollow batch (row ∷ rows) (row' ∷ rows') = Follows batch row row' × RowsFollow batch rows rows'

abbrev id_of : RowUpdate → String
id_of (mark_sent id at) = id
id_of (put_off id message at) = id
id_of (mark_failed id attempts message) = id
id_of (retry_later id attempts message at) = id

update-SameEvent : (u : RowUpdate) (row : OutboxRow) → SameEvent row (update_outbox_row u row)
unfolding update_outbox_row
update-SameEvent (mark_sent id at) row = ground arith
update-SameEvent (put_off id message at) row = ground arith
update-SameEvent (mark_failed id attempts message) row = ground arith
update-SameEvent (retry_later id attempts message at) row = ground arith

touched :
    (u : RowUpdate) (row : OutboxRow)
    → (update_outbox_row u row ≡ row) ⊎ ((is_pending row.status ≡ true) × (row.id ≡ id_of u))
unfolding update_outbox_row
touched (mark_sent id at) row = ground (arith, eq_iff row.id id)
touched (put_off id message at) row = ground (arith, eq_iff row.id id)
touched (mark_failed id attempts message) row = ground (arith, eq_iff row.id id)
touched (retry_later id attempts message at) row = ground (arith, eq_iff row.id id)

Backing-id :
    (r : Relay) (row : OutboxRow) (res : Result (Unit {0})) (u : RowUpdate)
    → Backing r row res u
    → id_of u ≡ row.id
Backing-id r row (ok _) (mark_sent id at) b = b
Backing-id r row (ok _) (put_off id message at) b = absurd b
Backing-id r row (ok _) (mark_failed id attempts message) b = absurd b
Backing-id r row (ok _) (retry_later id attempts message at) b = absurd b
Backing-id r row (err e) (mark_sent id at) b = absurd b
Backing-id r row (err e) (put_off id message at) b = b.0
Backing-id r row (err e) (mark_failed id attempts message) b = b.0
Backing-id r row (err e) (retry_later id attempts message at) b = b.0

both : (a b c : OutboxRow) → SameEvent a b → SameEvent b c → SameEvent a c
both a b c s t = record {
  id = t.id ∙ s.id;
  aggregate_type = t.aggregate_type ∙ s.aggregate_type;
  aggregate_id = t.aggregate_id ∙ s.aggregate_id;
  event_type = t.event_type ∙ s.event_type;
  payload = t.payload ∙ s.payload;
  created_at = t.created_at ∙ s.created_at;
}

Same-refl : (row : OutboxRow) → SameEvent row row
Same-refl row = ground arith

module _ (r : Relay) (batch : List OutboxRow) where
  update-Follows :
      (u : RowUpdate) (row : OutboxRow)
      → Backed r batch u
      → Follows batch row (update_outbox_row u row)
  update-Follows u row b = (
    update-SameEvent u row,
    elim (touched u row) [
      | inl same ↦ inl same
      | inr hit ↦ inr (hit.0, (b.row, b.taken, hit.1 ∙ Backing-id r b.row b.res u b.backing))
    ],
  )

  Follows-trans : (a b c : OutboxRow) → Follows batch a b → Follows batch b c → Follows batch a c
  Follows-trans a b c (s, inr hit) (s', later) = (both a b c s s', inr hit)
  Follows-trans a b c (s, inl same) (s', later) = (
    both a b c s s',
    subst (λ x. (c ≡ x) ⊎ ((is_pending x.status ≡ true) × Taken batch x.id)) same later,
  )

  update_all-Follows :
      (u : RowUpdate) (rows rows' : List OutboxRow)
      → Backed r batch u
      → RowsFollow batch rows rows'
      → RowsFollow batch rows (update_all u rows')
  unfolding update_all
  update_all-Follows u [] [] b h = tt
  update_all-Follows u [] (row' ∷ rows') b h = absurd h
  update_all-Follows u (row ∷ rows) [] b h = absurd h
  update_all-Follows u (row ∷ rows) (row' ∷ rows') b (h, hs) = (
    Follows-trans row row' (update_outbox_row u row') h (update-Follows u row' b),
    update_all-Follows u rows rows' b hs,
  )

  write_all-Follows :
      (us : List RowUpdate) (rows rows' : List OutboxRow)
      → All (Backed r batch) us
      → RowsFollow batch rows rows'
      → RowsFollow batch rows (write_all us rows')
  unfolding write_all
  write_all-Follows [] rows rows' bs h = h
  write_all-Follows (u ∷ us) rows rows' (b, bs) h =
      write_all-Follows us rows (update_all u rows') bs (update_all-Follows u rows rows' b h)

  Follows-refl : (rows : List OutboxRow) → RowsFollow batch rows rows
  Follows-refl [] = tt
  Follows-refl (row ∷ rows) = ((Same-refl row, inl refl), Follows-refl rows)

-- Whatever the handlers answer and whichever statements fail, the updates of a batch, carried out on
-- any table, add, remove and move no row and keep the event of each; all of a row is kept unless it is
-- PENDING and has the identifier of a row of the batch.
pub batch_settled :
    (r : Relay) (batch : List OutboxRow) (w : World) (rows : List OutboxRow)
    → (us : List RowUpdate) × ((dispatch_all r batch w).0 ≡ ok us)
      × RowsFollow batch rows (write_all us rows)
batch_settled r batch w rows =
    let (us, e, backed) = dispatch_all_backed r batch w in
    (us, e, write_all-Follows r batch us rows rows backed (Follows-refl r batch rows))
