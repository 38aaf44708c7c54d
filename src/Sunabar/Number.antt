-- ===== src/Sunabar/Number.antt =====
-- The numbers in the bank's messages: `parseSunabarInt` of internal/platform/sunabar/http_client.go,
-- and what it uses of the standard library: `strings.TrimSpace`, `strconv.ParseInt` and
-- `strconv.FormatInt` to the base 10. A text is walked as the list of its code points.
pub mod RoundTrip
use Prim.Native.Char.{Char, code}
use Prim.Native.String.{◌++◌ as str_append}
use go_sunabar_payments.Base.{
  ℕ, suc, ◌≡◌, refl, ◌+◌, ◌-◌, ◌*◌, ◌^◌, Bool, true, false, ◌&&◌, ◌||◌, List, [], ◌∷◌, ◌++◌, Option,
  none, some, String, ltb, leb, ◌==◌, if◌then◌else◌,
}
use go_sunabar_payments.Base.Int.{ℤ, pos, negsuc}
use go_sunabar_payments.Platform.Errors.{Result, ok, err, external, wrapped, decimal}

abbrev pub codes : String → List ℕ
codes String.[] = []
codes (String.◌∷◌ c s) = code c ∷ codes s

-- `unicode.IsSpace`.
abbrev pub is_space : ℕ → Bool
is_space c =
    (leb 9 c && leb c 13)
    || c == 32
    || c == 133
    || c == 160
    || c == 5760
    || (leb 8192 c && leb c 8202)
    || c == 8232
    || c == 8233
    || c == 8239
    || c == 8287
    || c == 12288

unfoldable pub trim_left : String → String
trim_left String.[] = String.[]
trim_left (String.◌∷◌ c s) = if is_space (code c) then trim_left s else String.◌∷◌ c s

abbrev pub keep_before : Char → String → String
keep_before c String.[] = if is_space (code c) then String.[] else String.◌∷◌ c String.[]
keep_before c (String.◌∷◌ d s) = String.◌∷◌ c (String.◌∷◌ d s)

-- A space goes when nothing is left after it.
unfoldable pub trim_right : String → String
trim_right String.[] = String.[]
trim_right (String.◌∷◌ c s) = keep_before c (trim_right s)

-- `strings.TrimSpace`.
unfoldable pub trim_space : String → String
unfolding trim_left trim_right
trim_space s = trim_right (trim_left s)

abbrev pub is_digit : ℕ → Bool
is_digit c = leb b'0' c && leb c b'9'

-- The number that digits spell behind `n`.
unfoldable pub digits_from : ℕ → List ℕ → Option ℕ
digits_from n [] = some n
digits_from n (c ∷ s) = if is_digit c then digits_from (n * 10 + (c - b'0')) s else none

abbrev pub parse_error : Result ℤ
parse_error = err (external "strconv.ParseInt: invalid syntax or value out of range")

abbrev in_range : Bool → ℕ → Result ℤ
in_range false n = if ltb n (2 ^ 63) then ok (pos n) else parse_error
in_range true n =
    if n == 0 then ok (pos 0) else if leb n (2 ^ 63) then ok (negsuc (n - 1)) else parse_error

abbrev ranged : Bool → Option ℕ → Result ℤ
ranged negative none = parse_error
ranged negative (some n) = in_range negative n

-- One digit at least after the sign.
unfoldable pub magnitude : Bool → List ℕ → Result ℤ
unfolding digits_from
magnitude negative [] = parse_error
magnitude negative (c ∷ s) = ranged negative (digits_from 0 (c ∷ s))

-- `strconv.ParseInt(s, 10, 64)`.
unfoldable pub parse_int : List ℕ → Result ℤ
unfolding magnitude
parse_int [] = parse_error
parse_int (c ∷ s) =
    if c == b'-'
    then magnitude true s
    else if c == b'+'
    then magnitude false s
    else magnitude false (c ∷ s)

-- `strconv.FormatInt(n, 10)`; an int64 has 19 digits at most.
unfoldable pub format_int : ℤ → String
format_int (pos n) = decimal n
format_int (negsuc n) = str_append "-" (decimal (suc n))

-- `%q`, for a text without characters that it escapes.
abbrev pub quoted : String → String
quoted s = str_append "\"" (str_append s "\"")

abbrev pub quoted_error : String → Result ℤ → Result ℤ
quoted_error s (ok n) = ok n
quoted_error s (err e) = err (wrapped (str_append "parse int " (quoted s)) e)

-- `parseSunabarInt` of a text already trimmed: an empty one is 0.
unfoldable pub parse_trimmed : String → Result ℤ
unfolding parse_int
parse_trimmed String.[] = ok (pos 0)
parse_trimmed (String.◌∷◌ c s) = quoted_error (String.◌∷◌ c s) (parse_int (codes (String.◌∷◌ c s)))

-- `parseSunabarInt`.
unfoldable pub parse_sunabar_int : String → Result ℤ
unfolding trim_space parse_trimmed
parse_sunabar_int s = parse_trimmed (trim_space s)

spaced : parse_sunabar_int " -12345 " ≡ ok (negsuc 12344)
unfolding parse_sunabar_int
spaced = refl
