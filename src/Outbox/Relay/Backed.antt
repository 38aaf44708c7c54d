-- ===== src/Outbox/Relay/Backed.antt =====
-- Why the relay (internal/platform/outbox/relay.go) makes each of its updates.
use mathlib.Core.List.{Memᴰ}
use go_sunabar_payments.Base.{
  ◌+◌, ◌≤◌, ◌<◌, ◌≡◌, refl, inl, inr, true, false, List, [], ◌∷◌, ◌++◌, Option, none, some, leb,
  All, All-append, arith, Bool-cases,
}
use go_sunabar_payments.Base.Int.{pos}
use go_sunabar_payments.Platform.Errors.{
  Error, Result, ok, err, skip_attempt, errors_is, error_text,
}
use go_sunabar_payments.Platform.World.{World, Action, pure, ◌>>=◌, now}
use go_sunabar_payments.Platform.Sql.{statement}
use go_sunabar_payments.Outbox.Event.{OutboxRow}
use go_sunabar_payments.Outbox.Backoff.{backoff_duration, add_duration}
use go_sunabar_payments.Outbox.Relay.{
  Handler, Relay, RowUpdate, mark_sent, put_off, mark_failed, retry_later, find_handler, event_of,
  logged, execute_update, settle_error, settle, handled, dispatch, dispatch_all,
  skip_attempt_backoff,
}

-- The handler of the row's event, run from some world, has returned `res`, which calls for `u`.
abbrev pub Answered : Relay → OutboxRow → Result (Unit {0}) → Type 0
Answered r row res =
    (h : Handler) × (w : World) × (find_handler row.event_type r.handlers ≡ some h)
    × ((h (event_of row) w).0 ≡ res)

abbrev pub Backing : Relay → OutboxRow → Result (Unit {0}) → RowUpdate → Type 0
Backing r row (ok _) (mark_sent id at) = id ≡ row.id
Backing r row (ok _) (put_off id message at) = ⊥
Backing r row (ok _) (mark_failed id attempts message) = ⊥
Backing r row (ok _) (retry_later id attempts message at) = ⊥
Backing r row (err e) (mark_sent id at) = ⊥
Backing r row (err e) (put_off id message at) =
    (id ≡ row.id) × (errors_is e skip_attempt ≡ true) × (message ≡ error_text e)
Backing r row (err e) (mark_failed id attempts message) =
    (id ≡ row.id)
    × (errors_is e skip_attempt ≡ false)
    × (message ≡ error_text e)
    × (attempts ≡ row.attempt_count + 1)
    × (r.max_attempt ≤ attempts)
Backing r row (err e) (retry_later id attempts message at) =
    (id ≡ row.id)
    × (errors_is e skip_attempt ≡ false)
    × (message ≡ error_text e)
    × (attempts ≡ row.attempt_count + 1)
    × (attempts < r.max_attempt)

-- An update that a row of the batch calls for, by what its handler has returned.
pub record Backed (r : Relay) (rows : List OutboxRow) (u : RowUpdate) : Type 0 where
  pub row : OutboxRow
  pub taken : Memᴰ row rows
  pub res : Result (Unit {0})
  pub answered : Answered r row res
  pub backing : Backing r row res u

executed :
    (P : RowUpdate → Type 0) (u : RowUpdate) (w : World)
    → P u
    → (us : List RowUpdate) × ((execute_update u w).0 ≡ ok us) × All P us
unfolding execute_update
executed P u w p = go (statement w).0
  where
    go : (r : Result (Unit {0})) → (us : List RowUpdate) × (ok (logged u r) ≡ ok us) × All P us
    go (ok _) = (u ∷ [], refl, (p, tt))
    go (err e) = ([], refl, tt)

module _ (r : Relay) (row : OutboxRow) where
  abbrev Calls : Result (Unit {0}) → Action (List RowUpdate) → World → Type 0
  Calls res m w = (us : List RowUpdate) × ((m w).0 ≡ ok us) × All (Backing r row res) us

  settle_error-Calls :
      (e : Error) (w : World) → Calls (err e) (settle_error r row.id row.attempt_count e) w
  unfolding settle_error now ◌>>=◌
  settle_error-Calls e w = elim (Bool-cases (errors_is e skip_attempt)) [
    | inl y ↦ rw y (
        executed (Backing r row (err e))
          (put_off row.id (error_text e) (w.outside.clock w.ticks + skip_attempt_backoff))
          (record w { ticks = w.ticks + 1 }) (refl, y, refl))
    | inr n ↦ elim (Bool-cases (leb r.max_attempt (row.attempt_count + 1))) [
      | inl y ↦
          rw (n, y)
            (executed (Backing r row (err e))
              (mark_failed row.id (row.attempt_count + 1) (error_text e)) w
              (refl, n, refl, refl, ground arith))
      | inr m ↦
          rw (n, m)
            (executed (Backing r row (err e))
              (retry_later row.id (row.attempt_count + 1) (error_text e) (
                add_duration (w.outside.clock w.ticks)
                  (backoff_duration (pos (row.attempt_count + 1)))))
              (record w { ticks = w.ticks + 1 }) (refl, n, refl, refl, ground arith))
    ]
  ]

  settle-Calls :
      (res : Result (Unit {0})) (w : World) → Calls res (settle r row.id row.attempt_count res) w
  unfolding settle now ◌>>=◌
  settle-Calls (ok _) w =
      executed (Backing r row (ok tt)) (mark_sent row.id (w.outside.clock w.ticks))
        (record w { ticks = w.ticks + 1 }) refl
  settle-Calls (err e) w = settle_error-Calls e w

backed_by :
    (r : Relay) (row : OutboxRow) (rows : List OutboxRow) (res : Result (Unit {0}))
    → Memᴰ row rows
    → Answered r row res
    → (us : List RowUpdate) → All (Backing r row res) us
    → All (Backed r rows) us
backed_by r row rows res m a [] ps = tt
backed_by r row rows res m a (u ∷ us) (p, ps) = (
  record { row = row; taken = m; res = res; answered = a; backing = p },
  backed_by r row rows res m a us ps,
)

abbrev DispatchBacked : Relay → List OutboxRow → Result (List RowUpdate) → Type 0
DispatchBacked r rows out = (us : List RowUpdate) × (out ≡ ok us) × All (Backed r rows) us

handled_backed :
    (r : Relay) (row : OutboxRow) (rows : List OutboxRow) (w : World)
    → Memᴰ row rows
    → (o : Option Handler) → find_handler row.event_type r.handlers ≡ o
    → DispatchBacked r rows (handled r (event_of row) row.attempt_count o w).0
handled_backed r row rows w m none e = ([], refl, tt)
handled_backed r row rows w m (some h) e =
    let res = (h (event_of row) w).0 in
    let (us, q, ps) = settle-Calls r row res (h (event_of row) w).1 in
    (us, q, backed_by r row rows res m (h, w, e, refl) us ps)

later :
    (r : Relay) (row : OutboxRow) (rows : List OutboxRow) (us : List RowUpdate)
    → All (Backed r rows) us
    → All (Backed r (row ∷ rows)) us
later r row rows [] ps = tt
later r row rows (u ∷ us) (p, ps) = (
  record {
    row = p.row;
    taken = Memᴰ.tail p.taken;
    res = p.res;
    answered = p.answered;
    backing = p.backing;
  },
  later r row rows us ps,
)

-- Handing out a batch never fails, and each update that it makes is called for by a row of the batch
-- whose handler has run: SENT only when the handler has returned no error; put off without an attempt
-- counted only for an error that says so; otherwise one attempt more than the row had, FAILED when
-- that reaches the limit and to be tried again when it does not, with the error's text.
pub dispatch_all_backed :
    (r : Relay) (rows : List OutboxRow) (w : World)
    → (us : List RowUpdate) × ((dispatch_all r rows w).0 ≡ ok us) × All (Backed r rows) us
unfolding dispatch_all dispatch pure ◌>>=◌
dispatch_all_backed r [] w = ([], refl, tt)
dispatch_all_backed r (row ∷ rows) w =
    let (us, e, ps) =
      handled_backed r row (row ∷ rows) w (Memᴰ.head refl) (find_handler row.event_type r.handlers)
        refl in
    let (vs, f, qs) =
      dispatch_all_backed r rows (dispatch r (event_of row) row.attempt_count w).1 in
    rw (e, f) (us ++ vs, refl, All-append (Backed r (row ∷ rows)) us vs ps (later r row rows vs qs))
