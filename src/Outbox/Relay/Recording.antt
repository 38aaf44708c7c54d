-- ===== src/Outbox/Relay/Recording.antt =====
-- What `dispatch` (internal/platform/outbox/relay.go) records of each row of a batch, to the instant.
use go_sunabar_payments.Base.{
  ℕ, ◌+◌, ◌*◌, ◌^◌, ◌≤◌, ◌<◌, ◌≡◌, refl, ◌⊎◌, inl, inr, true, false, List, [], ◌∷◌, ◌++◌, Option,
  none, some, leb, arith, Bool-cases, if◌then◌else◌,
}
use go_sunabar_payments.Platform.Errors.{Result, ok, err, skip_attempt, errors_is, error_text}
use go_sunabar_payments.Platform.World.{World, pure, ◌>>=◌, now}
use go_sunabar_payments.Platform.Sql.{statement}
use go_sunabar_payments.Transfer.Breaker.{second}
use go_sunabar_payments.Outbox.Event.{OutboxRow}
use go_sunabar_payments.Outbox.Backoff.{ten_minutes}
use go_sunabar_payments.Outbox.Backoff.Bounds.{backoff_exact}
use go_sunabar_payments.Outbox.Relay.{
  Handler, Relay, RowUpdate, mark_sent, put_off, mark_failed, retry_later, find_handler, event_of,
  logged, execute_update, settle_error, settle, handled, dispatch, dispatch_all,
}

-- The update for the answer `res` of a handler, at an instant: SENT; for an error that says so put off
-- for five seconds, with no attempt counted; otherwise with one attempt more FAILED, when that reaches
-- the limit, or due again after 2, 4, 8 seconds and so on up to 512, and ten minutes from then on.
abbrev pub CallsFor : Relay → OutboxRow → ℕ → Result (Unit {0}) → RowUpdate → Type 0
CallsFor r row at (ok _) u = u ≡ mark_sent row.id at
CallsFor r row at (err e) u =
    ((errors_is e skip_attempt ≡ true) × (u ≡ put_off row.id (error_text e) (at + 5 * second)))
    ⊎ ((errors_is e skip_attempt ≡ false)
        × (((r.max_attempt ≤ row.attempt_count + 1)
              × (u ≡ mark_failed row.id (row.attempt_count + 1) (error_text e)))
            ⊎ ((row.attempt_count + 1 < r.max_attempt)
                × (u
                    ≡ retry_later row.id (row.attempt_count + 1) (error_text e) (
                        at
                        + (if leb (row.attempt_count + 1) 9
                            then 2 ^ (row.attempt_count + 1) * second
                            else ten_minutes))))))

-- Before the statement of an update the clock is read, but for that of FAILED.
abbrev pub clock_read : RowUpdate → World → World
clock_read (mark_sent id at) w = record w { ticks = w.ticks + 1 }
clock_read (put_off id message at) w = record w { ticks = w.ticks + 1 }
clock_read (mark_failed id attempts message) w = w
clock_read (retry_later id attempts message at) w = record w { ticks = w.ticks + 1 }

-- The statement of an update, and what it leaves to be committed.
abbrev pub recorded : RowUpdate → World → List RowUpdate × World
recorded u w = let (r, w') = statement (clock_read u w) in (logged u r, w')

-- The updates of a batch handed out from a world, and the world after that: none for a row without a
-- handler, and for any other the one that the answer of its handler calls for at the instant of the
-- answer, unless the driver refuses the statement.
pub data Delivered (r : Relay) : World → List OutboxRow → List RowUpdate → World → Type 0 where
  nothing_left : (w : World) → Delivered r w [] [] w
  unhandled :
      (w w' : World) (row : OutboxRow) (rows : List OutboxRow) (us : List RowUpdate)
      → find_handler row.event_type r.handlers ≡ none
      → Delivered r w rows us w'
      → Delivered r w (row ∷ rows) us w'
  answered :
      (w w1 w' : World) (row : OutboxRow) (rows : List OutboxRow) (us : List RowUpdate)
      (h : Handler) (res : Result (Unit {0})) (u : RowUpdate)
      → find_handler row.event_type r.handlers ≡ some h
      → h (event_of row) w ≡ (res, w1)
      → CallsFor r row (w1.outside.clock w1.ticks) res u
      → Delivered r (recorded u w1).1 rows us w'
      → Delivered r w (row ∷ rows) ((recorded u w1).0 ++ us) w'

module _ (r : Relay) (row : OutboxRow) where
  abbrev Settled : Result (Unit {0}) → World → Type 0
  Settled res w =
      (u : RowUpdate) × CallsFor r row (w.outside.clock w.ticks) res u
      × (settle r row.id row.attempt_count res w ≡ (ok (recorded u w).0, (recorded u w).1))

  settle-Settled : (res : Result (Unit {0})) (w : World) → Settled res w
  unfolding settle settle_error execute_update now ◌>>=◌
  settle-Settled (ok _) w = (mark_sent row.id (w.outside.clock w.ticks), refl, refl)
  settle-Settled (err e) w = elim (Bool-cases (errors_is e skip_attempt)) [
    | inl y ↦ (
      put_off row.id (error_text e) (w.outside.clock w.ticks + 5 * second),
      inl (y, refl),
      rw y refl,
    )
    | inr n ↦ elim (Bool-cases (leb r.max_attempt (row.attempt_count + 1))) [
      | inl y ↦ (
        mark_failed row.id (row.attempt_count + 1) (error_text e),
        inr (n, inl (ground arith, refl)),
        rw (n, y) refl,
      )
      | inr m ↦ (
        retry_later row.id (row.attempt_count + 1) (error_text e) (
            w.outside.clock w.ticks
            + (if leb (row.attempt_count + 1) 9
                then 2 ^ (row.attempt_count + 1) * second
                else ten_minutes)),
        inr (n, inr (ground arith, refl)),
        rw (n, m, backoff_exact (row.attempt_count + 1)) refl,
      )
    ]
  ]

step :
    (r : Relay) (row : OutboxRow) (w : World) (o : Option Handler)
    → find_handler row.event_type r.handlers ≡ o
    → (us : List RowUpdate) × (w1 : World) × (handled r (event_of row) row.attempt_count o w
        ≡ (ok us, w1))
      × ((rows : List OutboxRow) (later : List RowUpdate) (w' : World)
          → Delivered r w1 rows later w'
          → Delivered r w (row ∷ rows) (us ++ later) w')
step r row w none q = ([], w, refl, λ rows later w' d. unhandled w w' row rows later q d)
step r row w (some h) q =
    let (res, w1) = h (event_of row) w in
    let (u, calls, e) = settle-Settled r row res w1 in
    (
      (recorded u w1).0,
      (recorded u w1).1,
      e,
      λ rows later w' d. answered w w1 w' row rows later h res u q refl calls d,
    )

-- Handing out a batch never fails. Row after row, from the world that the row before has left, an event
-- without a handler is passed over, and any other is handed over and recorded as its answer calls for:
-- SENT, put off without an attempt counted, FAILED at the limit of attempts, or due again after a delay
-- that doubles up to ten minutes; but for the updates that the driver refuses.
pub dispatch_all-Delivered :
    (r : Relay) (rows : List OutboxRow) (w : World)
    → (us : List RowUpdate) × (w' : World) × (dispatch_all r rows w ≡ (ok us, w'))
      × Delivered r w rows us w'
unfolding dispatch_all dispatch pure ◌>>=◌
dispatch_all-Delivered r [] w = ([], w, refl, nothing_left w)
dispatch_all-Delivered r (row ∷ rows) w =
    let (us, w1, q, extend) = step r row w (find_handler row.event_type r.handlers) refl in
    let (later, w', e, d) = dispatch_all-Delivered r rows w1 in
    (us ++ later, w', rw (q, e) refl, extend rows later w' d)
