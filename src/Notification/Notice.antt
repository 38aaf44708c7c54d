-- ===== src/Notification/Notice.antt =====
-- internal/modules/notification/domain/notice.go: what a user is told.
use go_sunabar_payments.Base.{String}

pub data Kind : Type 0 where
  transfer_accepted transfer_awaiting transfer_settled transfer_failed : Kind

pub record Notice : Type 0 where
  pub kind : Kind
  pub transfer_id : String
  pub subject : String
  pub body : String
  pub approval_url : String
