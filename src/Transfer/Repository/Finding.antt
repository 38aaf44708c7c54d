-- ===== src/Transfer/Repository/Finding.antt =====
-- What the searches of internal/modules/transfer/infrastructure/repository_sql.go return.
use go_sunabar_payments.Base.{◌≡◌, Option, some, String, arith}
use go_sunabar_payments.Platform.Errors.{ok}
use go_sunabar_payments.Platform.World.{Db, World, ◌>>=◌, on_error}
use go_sunabar_payments.Platform.Sql.{query_db}
use go_sunabar_payments.Platform.Sql.Keeps.{Keeps, keeps_rules, Frame-statement}
use go_sunabar_payments.Transfer.Entity.{Transfer}
use go_sunabar_payments.Transfer.Repository.{
  find_transfer, find_request, scan_one, find_by_id, find_by_app_request_id,
}

Keeps-scan_one : (read : Db → Option Transfer) → Keeps (scan_one read)
unfolding scan_one
Keeps-scan_one read = search keeps_rules

scan_one_ok :
    (read : Db → Option Transfer) (w : World) {t : Transfer}
    → (scan_one read w).0 ≡ ok t
    → read w.committed ≡ some t
unfolding scan_one query_db on_error ◌>>=◌
scan_one_ok read w h = ground (arith, Frame-statement w)

pub Keeps-find_by_id : (id : String) → Keeps (find_by_id id)
unfolding find_by_id
Keeps-find_by_id id = Keeps-scan_one (λ db. find_transfer id db.transfers)

pub Keeps-find_by_app_request_id : (id : String) → Keeps (find_by_app_request_id id)
unfolding find_by_app_request_id
Keeps-find_by_app_request_id id = Keeps-scan_one (λ db. find_request id db.transfers)

-- A transfer that is returned is the committed one.
pub find_by_id_ok :
    (id : String) (w : World) {t : Transfer}
    → (find_by_id id w).0 ≡ ok t
    → find_transfer id w.committed.transfers ≡ some t
unfolding find_by_id
find_by_id_ok id w h = scan_one_ok (λ db. find_transfer id db.transfers) w h

pub find_by_app_request_id_ok :
    (id : String) (w : World) {t : Transfer}
    → (find_by_app_request_id id w).0 ≡ ok t
    → find_request id w.committed.transfers ≡ some t
unfolding find_by_app_request_id
find_by_app_request_id_ok id w h = scan_one_ok (λ db. find_request id db.transfers) w h
