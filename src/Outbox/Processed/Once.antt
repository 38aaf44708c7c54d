-- ===== src/Outbox/Processed/Once.antt =====
-- `MarkProcessed` (internal/platform/outbox/relay.go) lets a consumer have an event once.
use go_sunabar_payments.Base.{
  ◌≡◌, refl, ap, ◌∙◌, ◌≢◌, true, false, List, [], ◌∷◌, ◌++◌, String, eq_refl, arith,
}
use go_sunabar_payments.Platform.Errors.{ok}
use go_sunabar_payments.Platform.World.{World, pure, raise, ◌>>=◌, on_error}
use go_sunabar_payments.Platform.Sql.{exec_db, rows_affected}
use go_sunabar_payments.Platform.Sql.Keeps.{Frame-statement}
use go_sunabar_payments.Outbox.Processed.{is_processed, insert_processed, mark_processed}

is_processed-append :
    (id consumer : String) (xs ys : List (String × String))
    → is_processed id consumer xs ≡ true
    → is_processed id consumer (xs ++ ys) ≡ true
is_processed-append id consumer [] ys h = cc
is_processed-append id consumer ((i, c) ∷ xs) ys h =
    ground (arith, is_processed-append id consumer xs ys)

pub is_processed_last :
    (id consumer : String) (xs : List (String × String))
    → is_processed id consumer (xs ++ (id, consumer) ∷ []) ≡ true
is_processed_last id consumer [] = rw (eq_refl id, eq_refl consumer) refl
is_processed_last id consumer ((i, c) ∷ xs) = ground (arith, is_processed_last id consumer xs)

-- After a success the pair is in the table, and was not before.
pub mark_processed_ok :
    (id consumer : String) (w : World)
    → (mark_processed id consumer w).0 ≡ ok tt
    → (is_processed id consumer w.committed.event_processed ≡ false)
      × ((mark_processed id consumer w).1.committed.event_processed
          ≡ w.committed.event_processed ++ (id, consumer) ∷ [])
unfolding mark_processed insert_processed exec_db rows_affected on_error pure raise ◌>>=◌
mark_processed_ok id consumer w h =
    ground (arith, Frame-statement w, Frame-statement (exec_db (insert_processed id consumer) w).1)

-- Once a consumer has been let have an event it never is again, whichever statements fail, as long
-- as rows are only added to the table.
pub processed_once :
    (id consumer : String) (w w' : World) (more : List (String × String))
    → (mark_processed id consumer w).0 ≡ ok tt
    → w'.committed.event_processed
      ≡ (mark_processed id consumer w).1.committed.event_processed ++ more
    → (mark_processed id consumer w').0 ≢ ok tt
processed_once id consumer w w' more first kept second =
    let (_, added) = mark_processed_ok id consumer w first in
    let (fresh, _) = mark_processed_ok id consumer w' second in
    let seen : is_processed id consumer w'.committed.event_processed ≡ true =
      ap (is_processed id consumer) (kept ∙ ap (λ l. l ++ more) added)
      ∙ is_processed-append id consumer (w.committed.event_processed ++ (id, consumer) ∷ []) more
          (is_processed_last id consumer w.committed.event_processed) in
    ground arith
