-- ===== src/Observability/Mask.antt =====
-- internal/platform/observability/mask.go, on texts as lists of bytes: as `string` values are.
pub mod Hiding
use go_sunabar_payments.Base.{
  ℕ, zero, suc, ◌+◌, ◌-◌, ◌/◌, ◌%◌, ◌≡◌, refl, List, [], ◌∷◌, ◌++◌, length, take, drop, replicate,
  ltb, leb, ◌==◌, if◌then◌else◌,
}
use go_sunabar_payments.Sunabar.Number.{codes, is_digit}

-- The digits of a text. A byte of a longer character is no digit.
abbrev pub digits_of : List ℕ → List ℕ
digits_of [] = []
digits_of (c ∷ s) = if is_digit c then c ∷ digits_of s else digits_of s

abbrev pub stars : ℕ → List ℕ
stars n = replicate n b'*'

abbrev pub masked_digits : List ℕ → List ℕ
masked_digits digits =
    if leb (length digits) 4
    then stars (length digits)
    else stars (length digits - 4) ++ drop (length digits - 4) digits

-- `MaskAccountNumber`.
unfoldable pub mask_account_number : List ℕ → List ℕ
mask_account_number s = masked_digits (digits_of s)

-- The loop of `lenStr`, with the digits found so far.
unfoldable pub len_loop : ℕ → ℕ → List ℕ → List ℕ
len_loop zero n out = out
len_loop (suc fuel) n out =
    let rest = len_loop fuel (n / 10) ((b'0' + n % 10) ∷ out) in if n == 0 then out else rest

-- `lenStr`; a length is an int, of 19 digits at most.
unfoldable pub len_str : ℕ → List ℕ
len_str n = if n == 0 then b'0' ∷ [] else len_loop 20 n []

-- `MaskAccessToken`.
unfoldable pub mask_access_token : List ℕ → List ℕ
unfolding len_str
mask_access_token s =
    if ltb (length s) 8
    then stars (length s)
    else take 4 s ++ codes "...(" ++ len_str (length s) ++ codes " chars)"

masked_token : mask_access_token (codes "abcdefghij") ≡ codes "abcd...(10 chars)"
unfolding mask_access_token len_loop
masked_token = refl
