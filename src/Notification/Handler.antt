-- ===== src/Notification/Handler.antt =====
-- internal/modules/notification/application/handler.go: telling the user of a transfer's events.
pub mod Delivery
use Prim.Native.String.{◌++◌ as str_append}
use go_sunabar_payments.Base.{
  ℕ, ◌+◌, Bool, true, false, List, [], ◌∷◌, ◌++◌, Option, none, some, String, str_eq, if◌then◌else◌,
}
use go_sunabar_payments.Platform.Errors.{
  Error, Result, ok, err, already_processed, wrapped, errors_is,
}
use go_sunabar_payments.Platform.World.{World, Action, pure}
use go_sunabar_payments.Transfer.Payload.{
  StateChangedPayload, unmarshal_state_changed, event_transfer_accepted_to_bank,
  event_transfer_awaiting_approval, event_transfer_settled, event_transfer_failed,
}
use go_sunabar_payments.Outbox.Event.{Event}
use go_sunabar_payments.Outbox.Processed.{mark_processed}
use go_sunabar_payments.Notification.Notice.{
  Kind, transfer_accepted, transfer_awaiting, transfer_settled, transfer_failed, Notice,
}

-- `ConsumerName`.
abbrev pub consumer_name : String
consumer_name = "notification"

abbrev pub notice_of : Kind → String → String → String → String → String → Notice
notice_of kind transfer_id title body detail url = record {
  kind = kind;
  transfer_id = transfer_id;
  subject = str_append title transfer_id;
  body = str_append body detail;
  approval_url = url;
}

-- The `switch` of `buildNotice`.
abbrev pub notice_for : String → StateChangedPayload → Option Notice
notice_for event_type p =
    if str_eq event_type event_transfer_accepted_to_bank
    then some (
        notice_of transfer_accepted p.transfer_id "[ 振込受付 ] " "振込依頼を銀行に受付けました。 applyNo=" p.apply_no
          "")
    else if str_eq event_type event_transfer_awaiting_approval
    then some (
        notice_of transfer_awaiting p.transfer_id "[ 要承認 ] "
          "sunabar サービスサイトのお知らせから「取引内容承認ページ」を開き、 取引パスワード入力で承認してください。 applyNo=" p.apply_no
          "https://portal.sunabar.gmo-aozora.com/")
    else if str_eq event_type event_transfer_settled
    then some
        (notice_of transfer_settled p.transfer_id "[ 振込完了 ] " "振込が完了しました。 applyNo=" p.apply_no "")
    else if str_eq event_type event_transfer_failed
    then some
        (notice_of transfer_failed p.transfer_id "[ 振込失敗 ] " "振込が失敗しました。 理由=" p.error_message "")
    else none

abbrev notice_from : String → Result StateChangedPayload → Option Notice
notice_from event_type (ok p) = notice_for event_type p
notice_from event_type (err e) = none

-- `buildNotice`.
unfoldable pub build_notice : Event → Option Notice
build_notice evt = notice_from evt.event_type (unmarshal_state_changed evt.payload)

abbrev refused_by : Option Error → Result (Unit {0})
refused_by none = ok tt
refused_by (some e) = err e

-- `sender.Send`.
unfoldable pub send : Notice → Action (Unit {0})
send n w = (
  refused_by (w.outside.deliver w.calls n),
  record w { calls = w.calls + 1; notices = w.notices ++ n ∷ [] },
)

unfoldable pub notify : Option Notice → Action (Unit {0})
unfolding send
notify none w = (ok tt, w)
notify (some n) w = send n w

-- What comes after `MarkProcessed`.
unfoldable pub after_mark : Event → Result (Unit {0}) × World → Result (Unit {0}) × World
unfolding notify
after_mark evt (ok _, w) = notify (build_notice evt) w
after_mark evt (err e, w) =
    if errors_is e already_processed then (ok tt, w) else (err (wrapped "mark processed" e), w)

-- `TransferEventHandler.Handle`.
unfoldable pub handle : Event → Action (Unit {0})
unfolding after_mark
handle evt w = after_mark evt (mark_processed evt.id consumer_name w)
