-- ===== src/Outbox/Relay/Starvation.antt =====
-- Events of a type that has no handler stay in the outbox of the relay
-- (internal/platform/outbox/relay.go), and keep the places that they take in its batch.
use mathlib.Core.Path.{subst}
use go_sunabar_payments.Base.{
  Bool, false, String, ℕ, ◌≤◌, ◌≡◌, refl, sym, ap, ◌∙◌, List, [], ◌∷◌, none, length, All,
}
use go_sunabar_payments.Platform.Errors.{Result, ok, err}
use go_sunabar_payments.Platform.World.{Db, World, pure, ◌>>=◌, now}
use go_sunabar_payments.Platform.World.Inversion.{bind_ok, on_error_ok}
use go_sunabar_payments.Platform.Sql.{
  statement, read_committed, query_db, interfere, apply_first, rest_of,
}
use go_sunabar_payments.Platform.Sql.Keeps.{Frame, Frame-statement}
use go_sunabar_payments.Outbox.Event.{OutboxRow}
use go_sunabar_payments.Outbox.Due.{due_rows, due_batch}
use go_sunabar_payments.Outbox.Due.Ahead.{batch_held}
use go_sunabar_payments.Outbox.Relay.{
  Relay, find_handler, dispatch, dispatch_all, row_locks, select_batch, commit_updates,
  deliver_batch, give_up, selected, batch_begun, process_batch, write_all, run,
}
use go_sunabar_payments.Outbox.Relay.Limit.{Keeps-select_batch}

-- No handler is registered for the event of the row.
abbrev pub Unhandled : Relay → OutboxRow → Type 0
Unhandled r row = find_handler row.event_type r.handlers ≡ none

dispatch_all-Unhandled :
    (r : Relay) (rows : List OutboxRow) (w : World)
    → All (Unhandled r) rows
    → dispatch_all r rows w ≡ (ok [], w)
unfolding dispatch_all dispatch pure ◌>>=◌
dispatch_all-Unhandled r [] w hs = refl
dispatch_all-Unhandled r (row ∷ rows) w (h, hs) = rw (h, dispatch_all-Unhandled r rows w hs) refl

-- At an instant rows enough for a batch are due, and none of the rows due then has a handler.
abbrev pub Blocked : Relay → ℕ → Db → Type 0
Blocked r m db =
    All (Unhandled r) (due_rows m db.outbox_events)
    × (r.batch_size ≤ length (due_rows m db.outbox_events))

-- What others commit keeps that so.
abbrev pub KeepBlocked : Relay → ℕ → List (Db → Db) → Type 0
KeepBlocked r m = All (λ (o : Db → Db). (db : Db) → Blocked r m db → Blocked r m (o db))

-- Nothing is done but what others commit: no table, request, notice or call.
pub record Idle (r : Relay) (m : ℕ) (w w' : World) : Type 0 where
  pub blocked : Blocked r m w'.committed
  pub others : KeepBlocked r m w'.others
  pub requests : w'.requests ≡ w.requests
  pub notices : w'.notices ≡ w.notices
  pub calls : w'.calls ≡ w.calls
  pub outside : w'.outside ≡ w.outside

Idle-Frame : (r : Relay) (m : ℕ) (w w1 w2 : World) → Idle r m w w1 → Frame w1 w2 → Idle r m w w2
Idle-Frame r m w w1 w2 i f = record {
  blocked = subst (λ (x : Db). Blocked r m x) (sym f.committed) i.blocked;
  others = subst (λ (x : List (Db → Db)). KeepBlocked r m x) (sym f.others) i.others;
  requests = f.requests ∙ i.requests;
  notices = f.notices ∙ i.notices;
  calls = f.calls ∙ i.calls;
  outside = f.outside ∙ i.outside;
}

-- No other worker locks a row at any time.
abbrev pub Alone : World → Type 0
Alone w = (n : ℕ) (id : String) → w.outside.locked n id ≡ false

same : {A : Type 0} {a b : A} → ok a ≡ ok b → b ≡ a
same q = cc

module _ (r : Relay) (m : ℕ) where
  -- The rows of a batch are those of the query, on the committed tables.
  selected_rows :
      (w : World) {rows : List OutboxRow}
      → (select_batch r w).0 ≡ ok rows
      → (at n : ℕ) × (rows
          ≡ due_batch (w.outside.locked n) at r.batch_size w.committed.outbox_events)
  unfolding select_batch query_db read_committed now pure row_locks
  selected_rows w h =
      let (at, q1, h1, e1) = bind_ok _ _ w h in
      let (locked, q0, h0, e0) = bind_ok _ _ _ h1 in
      let (rows, q2, h2, e2) = bind_ok _ _ _ h0 in
      let (_, q3, h3, e3) = bind_ok _ _ _ h2 in
      let (_, q4, h4, e4) = bind_ok _ _ _ h3 in
      let (_, q5, h5, e5) = bind_ok _ _ _ h4 in
      let (q6, e6) = on_error_ok _ _ _ q2 in
      let (_, q7, h7, e7) = bind_ok _ _ _ q6 in
      (
        at,
        (now w).1.ticks,
        same h5
            ∙ same h7
            ∙ ap (λ (db : Db). due_batch locked at r.batch_size db.outbox_events)
                (Frame-statement (now w).1).committed
            ∙ ap (λ (l : String → Bool). due_batch l at r.batch_size w.committed.outbox_events)
                (same q0),
      )

  deliver-Idle :
      (rows : List OutboxRow) (w w1 : World)
      → All (Unhandled r) rows
      → Idle r m w w1
      → Idle r m w (deliver_batch r rows w1).1
  unfolding deliver_batch ◌>>=◌ commit_updates write_all
  deliver-Idle rows w w1 hs i =
      rw (dispatch_all-Unhandled r rows w1 hs)
        (go (statement w1) (Idle-Frame r m w w1 (statement w1).1 i (Frame-statement w1)))
    where
      go : (s : Result (Unit {0}) × World) → Idle r m w s.1 → Idle r m w (commit_updates [] s).1
      go (ok _, w2) i = record {
        blocked = i.blocked;
        others = i.others;
        requests = i.requests;
        notices = i.notices;
        calls = i.calls;
        outside = i.outside;
      }
      go (err e, w2) i = i

  selected-Idle :
      (w w1 : World) → Alone w → Idle r m w w1 → Idle r m w (selected r (select_batch r w1)).1
  unfolding selected give_up
  selected-Idle w w1 alone i =
      go (select_batch r w1).0 refl
        (Idle-Frame r m w w1 (select_batch r w1).1 i ((Keeps-select_batch r).at w1))
    where
      go :
          (o : Result (List OutboxRow))
          → (select_batch r w1).0 ≡ o
          → Idle r m w (select_batch r w1).1
          → Idle r m w (selected r (o, (select_batch r w1).1)).1
      go (ok rows) q j =
          let (at, n, e) = selected_rows w1 q in
          deliver-Idle rows w (select_batch r w1).1
            (subst (λ (x : List OutboxRow). All (Unhandled r) x) (sym e)
              (batch_held (Unhandled r) (w1.outside.locked n) m at r.batch_size
                w1.committed.outbox_events (λ id. rw i.outside (alone n id)) i.blocked.0
                i.blocked.1))
            j
      go (err e) q j = Idle-Frame r m w _ _ j (Frame-statement (select_batch r w1).1)

  begun-Idle :
      (w : World) (o : Result (Unit {0}) × World)
      → Alone w
      → Idle r m w o.1
      → Idle r m w (batch_begun r o).1
  unfolding batch_begun
  begun-Idle w (ok _, w1) alone i = selected-Idle w w1 alone i
  begun-Idle w (err e, w1) alone i = i

  interfere-Idle : (w w1 : World) → Idle r m w w1 → Idle r m w (interfere w1)
  unfolding interfere
  interfere-Idle w w1 i = record {
    blocked = first w1.others i.others;
    others = rest w1.others i.others;
    requests = i.requests;
    notices = i.notices;
    calls = i.calls;
    outside = i.outside;
  }
    where
      first : (os : List (Db → Db)) → KeepBlocked r m os → Blocked r m (apply_first os w1.committed)
      first [] a = i.blocked
      first (o ∷ os) a = a.0 w1.committed i.blocked

      rest : (os : List (Db → Db)) → KeepBlocked r m os → KeepBlocked r m (rest_of os)
      rest [] a = tt
      rest (o ∷ os) a = a.1

  batch-Idle : (w w1 : World) → Alone w → Idle r m w w1 → Idle r m w (process_batch r w1).1
  unfolding process_batch
  batch-Idle w w1 alone i = begun-Idle w (statement (interfere w1)) alone (
      Idle-Frame r m w (interfere w1) (statement (interfere w1)).1 (interfere-Idle w w1 i)
        (Frame-statement (interfere w1)))

  run-Idle :
      (polls : List (Unit {0})) (w w1 : World)
      → Alone w
      → Idle r m w w1
      → Idle r m w (run polls r w1)
  unfolding run
  run-Idle [] w w1 alone i = i
  run-Idle (_ ∷ polls) w w1 alone i =
      run-Idle polls w (process_batch r w1).1 alone (batch-Idle w w1 alone i)

-- Once the rows due at an instant fill a batch and none of them has a handler, a relay that works alone
-- stands still: however often it polls, whatever becomes due later and whichever statements fail, it
-- asks the bank for nothing, hands over no notice and stays blocked, as long as what others commit
-- leaves it so and no other worker locks rows.
pub run_starves :
    (r : Relay) (m : ℕ) (polls : List (Unit {0})) (w : World)
    → Alone w
    → Blocked r m w.committed
    → KeepBlocked r m w.others
    → Idle r m w (run polls r w)
run_starves r m polls w alone b o = run-Idle r m polls w w alone (record {
  blocked = b;
  others = o;
  requests = refl;
  notices = refl;
  calls = refl;
  outside = refl;
})
