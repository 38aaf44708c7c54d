-- ===== src/Platform/Errors.antt =====
-- Go error values: the sentinels of the packages, the API error of the bank client, errors of
-- packages outside the repository, and the wrapping of `fmt.Errorf` with `errors.Is`, `errors.As`.
use Prim.Native.String.{◌++◌ as str_append}
use text.Mathlib.Text.{find?}
use go_sunabar_payments.Base.{
  ℕ, zero, suc, ◌/◌, ◌%◌, ◌≡◌, refl, Bool, true, false, ◌||◌, Option, none, some, String, ltb, ◌==◌,
  if◌then◌else◌,
}

-- The values made by `errors.New`; `tx_done` is `sql.ErrTxDone`.
pub data Sentinel : Type 0 where
  invalid_transition already_exists not_found concurrent_update : Sentinel
  still_in_flight already_exists_retry circuit_open : Sentinel
  skip_attempt already_processed : Sentinel
  invoice_not_found invoice_already_exists : Sentinel
  tx_done : Sentinel
  account_not_found account_already_exists : Sentinel
  empty_base_url nil_auth_source no_corporate_auth : Sentinel
  empty_token oauth2_empty_endpoint oauth2_empty_credentials : Sentinel

abbrev pub sentinel_code : Sentinel → ℕ
sentinel_code invalid_transition = 0
sentinel_code already_exists = 1
sentinel_code not_found = 2
sentinel_code concurrent_update = 3
sentinel_code still_in_flight = 4
sentinel_code already_exists_retry = 5
sentinel_code circuit_open = 6
sentinel_code skip_attempt = 7
sentinel_code already_processed = 8
sentinel_code invoice_not_found = 9
sentinel_code invoice_already_exists = 10
sentinel_code tx_done = 11
sentinel_code account_not_found = 12
sentinel_code account_already_exists = 13
sentinel_code empty_base_url = 14
sentinel_code nil_auth_source = 15
sentinel_code no_corporate_auth = 16
sentinel_code empty_token = 17
sentinel_code oauth2_empty_endpoint = 18
sentinel_code oauth2_empty_credentials = 19

-- `external` is an error of a package outside the repository, by its text. `wrapped c e` is
-- `fmt.Errorf("c: %w", e)`, `joined a b` is `fmt.Errorf("%w: %w", a, b)`, and `annotated e m` is
-- `fmt.Errorf("%w ( rollback failed: %v ) ", e, m)`.
pub data Error : Type 0 where
  sentinel : Sentinel → Error
  api_error : ℕ → String → Error
  external : String → Error
  wrapped : String → Error → Error
  joined : Error → Error → Error
  annotated : Error → Error → Error

-- `errors.Is` against a sentinel.
abbrev pub errors_is : Error → Sentinel → Bool
errors_is (sentinel s) t = sentinel_code s == sentinel_code t
errors_is (api_error _ _) t = false
errors_is (external _) t = false
errors_is (wrapped _ e) t = errors_is e t
errors_is (joined a b) t = errors_is a t || errors_is b t
errors_is (annotated e _) t = errors_is e t

abbrev or_else {ℓ} : {A : Type ℓ} → Option A → Option A → Option A
or_else none b = b
or_else (some a) _ = some a

-- `errors.As` with `*sunabar.APIError`: the status code of the first one in the chain.
abbrev pub as_api_error : Error → Option ℕ
as_api_error (sentinel _) = none
as_api_error (api_error status _) = some status
as_api_error (external _) = none
as_api_error (wrapped _ e) = as_api_error e
as_api_error (joined a b) = or_else (as_api_error a) (as_api_error b)
as_api_error (annotated e _) = as_api_error e

abbrev pub digit_text : ℕ → String
digit_text d =
    if d == 0
    then "0"
    else if d == 1
    then "1"
    else if d == 2
    then "2"
    else if d == 3
    then "3"
    else if d == 4
    then "4"
    else if d == 5
    then "5"
    else if d == 6
    then "6"
    else if d == 7
    then "7"
    else if d == 8
    then "8"
    else "9"

-- `%d` of a number with at most `fuel` digits.
unfoldable pub decimal_from : ℕ → ℕ → String
decimal_from zero n = ""
decimal_from (suc fuel) n =
    let high = decimal_from fuel (n / 10) in
    if ltb n 10 then digit_text n else str_append high (digit_text (n % 10))

-- A status code is an `int`, of 19 digits at most.
unfoldable pub decimal : ℕ → String
unfolding decimal_from
decimal n = decimal_from 20 n

abbrev sentinel_text : Sentinel → String
sentinel_text invalid_transition = "transfer invalid status transition"
sentinel_text already_exists = "transfer already exists with the same app request id"
sentinel_text not_found = "transfer not found"
sentinel_text concurrent_update = "transfer concurrent update detected"
sentinel_text still_in_flight = "transfer still in flight, will retry"
sentinel_text already_exists_retry = "transfer already exists, retry outside tx"
sentinel_text circuit_open = "circuit breaker open"
sentinel_text skip_attempt = "outbox: skip attempt count"
sentinel_text already_processed = "event already processed"
sentinel_text invoice_not_found = "invoice not found"
sentinel_text invoice_already_exists = "invoice already exists for the virtual account"
sentinel_text tx_done = "sql: transaction has already been committed or rolled back"
sentinel_text account_not_found = "account not found"
sentinel_text account_already_exists = "account already exists"
sentinel_text empty_base_url = "sunabar empty base url"
sentinel_text nil_auth_source = "sunabar nil auth source"
sentinel_text no_corporate_auth = "sunabar corporate auth not configured"
sentinel_text empty_token = "sunabar empty token"
sentinel_text oauth2_empty_endpoint = "sunabar OAuth2: empty token url"
sentinel_text oauth2_empty_credentials = "sunabar OAuth2: empty client credentials"

-- `err.Error()`.
unfoldable pub error_text : Error → String
unfolding decimal
error_text (sentinel s) = sentinel_text s
error_text (api_error status body) =
    str_append "sunabar api error: status=" (str_append (decimal status) (str_append " body=" body))
error_text (external text) = text
error_text (wrapped context e) = str_append context (str_append ": " (error_text e))
error_text (joined a b) = str_append (error_text a) (str_append ": " (error_text b))
error_text (annotated e m) =
    str_append (error_text e) (str_append " ( rollback failed: " (str_append (error_text m) " ) "))

abbrev is_found : Option ℕ → Bool
is_found none = false
is_found (some _) = true

-- `isDuplicate` of a driver's error: its text contains "Duplicate entry".
unfoldable pub is_duplicate : Error → Bool
unfolding error_text
is_duplicate e = is_found (find? (error_text e) "Duplicate entry")

-- What the driver says when a row breaks a unique key.
abbrev pub duplicate_entry : Error
duplicate_entry = external "Error 1062 (23000): Duplicate entry"

pub is_duplicate-duplicate_entry : is_duplicate duplicate_entry ≡ true
unfolding is_duplicate
is_duplicate-duplicate_entry = refl

api_error_text : error_text (api_error 503 "busy") ≡ "sunabar api error: status=503 body=busy"
unfolding error_text
api_error_text = refl

pub data Result {ℓ} (A : Type ℓ) : Type ℓ where
  ok : A → Result A
  err : Error → Result A
