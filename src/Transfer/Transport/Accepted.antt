-- ===== src/Transfer/Transport/Accepted.antt =====
-- What the answer 202 promises (internal/modules/transfer/transport_http.go).
use go_sunabar_payments.Base.{
  ◌≡◌, refl, sym, ap, ◌∙◌, ◌≢◌, inl, inr, false, some, String, str_eq, eq_iff, arith, Bool-cases,
}
use go_sunabar_payments.Base.Int.{ℤ, pos, leb_ℤ, ◌<ℤ◌}
use go_sunabar_payments.Platform.Errors.{Result, ok, err}
use go_sunabar_payments.Platform.Json.{Json}
use go_sunabar_payments.Platform.World.{World}
use go_sunabar_payments.Platform.Sql.{interfered}
use go_sunabar_payments.Transfer.Entity.{Transfer}
use go_sunabar_payments.Transfer.Repository.{find_request}
use go_sunabar_payments.Transfer.Request.{Command, execute}
use go_sunabar_payments.Transfer.Request.Idempotent.{execute-Ended, returned_is_stored}
use go_sunabar_payments.Transfer.Transport.{
  Reply, shown, status_code_of, to_response, decode_body, requested, validated, create,
}

-- A body that is accepted names a request and a positive amount, and the transfer shown is the one
-- stored under the request.
abbrev pub Promise : Command → Reply × World → Type 0
Promise cmd (reply, w) =
    (t : Transfer) × (reply ≡ shown 202 (to_response t))
    × (find_request cmd.app_request_id w.committed.transfers ≡ some t)

requested-Promise :
    (cmd : Command) (w : World) (o : Result Transfer × World)
    → execute cmd w ≡ o
    → status_code_of (requested o).0 ≡ 202
    → Promise cmd (requested o)
unfolding requested
requested-Promise cmd w (ok t, w') q h = (
  t,
  refl,
  ap (λ (x : Result Transfer × World). find_request cmd.app_request_id x.1.committed.transfers)
        (sym q)
      ∙ returned_is_stored cmd w.committed (interfered w) (execute cmd w) t (execute-Ended cmd w)
          (ap (λ (x : Result Transfer × World). x.0) q),
)
requested-Promise cmd w (err e, w') q h = absurd (omega (arith, h))

validated-Promise :
    (r : Result Command) (w : World)
    → status_code_of (validated r w).0 ≡ 202
    → (cmd : Command) × (r ≡ ok cmd)
      × (cmd.app_request_id ≢ "")
      × (pos 0 <ℤ cmd.params.amount)
      × Promise cmd (validated r w)
unfolding validated
validated-Promise (err e) w h = absurd (omega (arith, h))
validated-Promise (ok cmd) w h = elim (Bool-cases (str_eq cmd.app_request_id "")) [
  | inl y ↦ absurd (omega (arith, rw y at h))
  | inr n ↦ elim (Bool-cases (leb_ℤ cmd.params.amount (pos 0))) [
    | inl y ↦ absurd (omega (arith, rw (n, y) at h))
    | inr m ↦ (
      cmd,
      refl,
      named cmd.app_request_id n,
      positive cmd.params.amount m,
      rw (n, m) (requested-Promise cmd w (execute cmd w) refl (rw (n, m) at h)),
    )
  ]
]
  where
    named : (s : String) → str_eq s "" ≡ false → s ≢ ""
    named s n e = ground (arith, eq_iff s "")

    positive : (a : ℤ) → leb_ℤ a (pos 0) ≡ false → pos 0 <ℤ a
    positive a m = ground arith

-- Whichever statements fail and whatever others commit, the answer 202 is given only for a body that
-- decodes to a named request of a positive amount, and it shows the transfer that is then stored
-- under the identifier of the request.
pub accepted_is_stored :
    (body : Json) (w : World)
    → status_code_of (create body w).0 ≡ 202
    → (cmd : Command) × (decode_body body ≡ ok cmd)
      × (cmd.app_request_id ≢ "")
      × (pos 0 <ℤ cmd.params.amount)
      × Promise cmd (create body w)
unfolding create
accepted_is_stored body w h = validated-Promise (decode_body body) w h
