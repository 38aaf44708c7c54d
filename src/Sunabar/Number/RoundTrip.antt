-- ===== src/Sunabar/Number/RoundTrip.antt =====
-- The texts that `strconv.FormatInt` writes and `parseSunabarInt` reads
-- (internal/platform/sunabar/http_client.go).
use Prim.Native.Char.{code}
use Prim.Native.String.{◌++◌ as str_append}
use Prim.Native.String.append
use go_sunabar_payments.Base.{
  ℕ, zero, suc, ◌+◌, ◌-◌, ◌*◌, ◌/◌, ◌%◌, ◌^◌, ◌≤◌, ◌<◌, ◌≡◌, ◌≢◌, refl, ap, ◌∙◌, true, false, List,
  [], ◌∷◌, ◌++◌, none, some, String, All, arith, ltb, ◌==◌, inl, inr, Bool-cases,
}
use go_sunabar_payments.Base.Int.{ℤ, pos, negsuc, InRange64}
use go_sunabar_payments.Platform.Errors.{ok, decimal, decimal_from, digit_text}
use go_sunabar_payments.Sunabar.Number.{
  codes, is_space, is_digit, trim_left, trim_right, trim_space, digits_from, magnitude, parse_int,
  format_int, keep_before, quoted_error, parse_trimmed, parse_sunabar_int,
}

pub codes-append : (s t : String) → codes (str_append s t) ≡ codes s ++ codes t
codes-append String.[] t = ap codes (append.nil t)
codes-append (String.◌∷◌ c s) t =
    ap codes (append.cons c s t) ∙ ap (λ l. code c ∷ l) (codes-append s t)

pub codes-digit_text : (d : ℕ) → d < 10 → codes (digit_text d) ≡ (b'0' + d) ∷ []
codes-digit_text zero h = refl
codes-digit_text (suc zero) h = refl
codes-digit_text (suc (suc zero)) h = refl
codes-digit_text (suc (suc (suc zero))) h = refl
codes-digit_text (suc (suc (suc (suc zero)))) h = refl
codes-digit_text (suc (suc (suc (suc (suc zero))))) h = refl
codes-digit_text (suc (suc (suc (suc (suc (suc zero)))))) h = refl
codes-digit_text (suc (suc (suc (suc (suc (suc (suc zero))))))) h = refl
codes-digit_text (suc (suc (suc (suc (suc (suc (suc (suc zero)))))))) h = refl
codes-digit_text (suc (suc (suc (suc (suc (suc (suc (suc (suc zero))))))))) h = refl
codes-digit_text (suc (suc (suc (suc (suc (suc (suc (suc (suc (suc d)))))))))) h =
    absurd (omega arith)

digits_from-last :
    (n m d : ℕ) (xs : List ℕ)
    → digits_from n xs ≡ some m
    → d < 10
    → digits_from n (xs ++ (b'0' + d) ∷ []) ≡ some (m * 10 + d)
unfolding digits_from
digits_from-last n m d [] h k = ground arith
digits_from-last n m d (c ∷ xs) h k = ground (arith, digits_from-last (n * 10 + (c - b'0')) m d xs)

pow_suc : (n : ℕ) → 10 ^ suc n ≡ 10 * 10 ^ n
pow_suc n = omega arith

high-below : (fuel n : ℕ) → n < 10 ^ suc fuel → n / 10 < 10 ^ fuel
high-below fuel n h = omega (arith, pow_suc fuel)

-- The decimal text of a number of at most `fuel` digits spells the number.
decimal_from-spells :
    (fuel n : ℕ) → n < 10 ^ fuel → digits_from 0 (codes (decimal_from fuel n)) ≡ some n
unfolding digits_from decimal_from
decimal_from-spells zero n h = ap some (omega arith)
decimal_from-spells (suc fuel) n h = elim (Bool-cases (ltb n 10)) [
  | inl y ↦ rw (y, codes-digit_text n (ground arith)) (ground arith)
  | inr m ↦
      rw
        (
          m,
          codes-append (decimal_from fuel (n / 10)) (digit_text (n % 10)),
          codes-digit_text (n % 10) (omega arith),
          digits_from-last 0 (n / 10) (n % 10) (codes (decimal_from fuel (n / 10)))
              (decimal_from-spells fuel (n / 10) (high-below fuel n h)) (omega arith),
        )
        (ap some (omega arith))
]

spells-digits :
    (n m : ℕ) (xs : List ℕ) → digits_from n xs ≡ some m → All (λ c. is_digit c ≡ true) xs
unfolding digits_from
spells-digits n m [] h = tt
spells-digits n m (c ∷ xs) h = elim (Bool-cases (is_digit c)) [
  | inl y ↦ (y, spells-digits (n * 10 + (c - b'0')) m xs (rw y at h))
  | inr k ↦ absurd (no_none (rw k at h))
]
  where
    no_none : none ≡ some m → ⊥
    no_none h = cc

digit-space : (c : ℕ) → is_digit c ≡ true → is_space c ≡ false
digit-space c h = ground arith

digits-spaces : (xs : List ℕ) → All (λ c. is_digit c ≡ true) xs → All (λ c. is_space c ≡ false) xs
digits-spaces [] h = tt
digits-spaces (c ∷ xs) (h, hs) = (digit-space c h, digits-spaces xs hs)

trim_left_id : (s : String) → All (λ c. is_space c ≡ false) (codes s) → trim_left s ≡ s
unfolding trim_left
trim_left_id String.[] h = refl
trim_left_id (String.◌∷◌ c s) (h, hs) = rw h refl

trim_right_id : (s : String) → All (λ c. is_space c ≡ false) (codes s) → trim_right s ≡ s
unfolding trim_right
trim_right_id String.[] h = refl
trim_right_id (String.◌∷◌ c String.[]) (h, hs) = rw h refl
trim_right_id (String.◌∷◌ c (String.◌∷◌ d s)) (h, hs) =
    ap (keep_before c) (trim_right_id (String.◌∷◌ d s) hs)

-- A text without spaces is left as it is.
trim_space_id : (s : String) → All (λ c. is_space c ≡ false) (codes s) → trim_space s ≡ s
unfolding trim_space
trim_space_id s h = ap trim_right (trim_left_id s h) ∙ trim_right_id s h

append-last-ne-nil : (xs : List ℕ) (c : ℕ) → xs ++ c ∷ [] ≢ []
append-last-ne-nil [] c h = cc
append-last-ne-nil (x ∷ xs) c h = cc

decimal-ne-nil : (n : ℕ) → codes (decimal n) ≢ []
unfolding decimal decimal_from
decimal-ne-nil n = elim (Bool-cases (ltb n 10)) [
  | inl y ↦ rw (y, codes-digit_text n (ground arith)) (append-last-ne-nil [] (b'0' + n))
  | inr m ↦
      rw
        (
          m,
          codes-append (decimal_from 19 (n / 10)) (digit_text (n % 10)),
          codes-digit_text (n % 10) (omega arith),
        )
        (append-last-ne-nil (codes (decimal_from 19 (n / 10))) (b'0' + n % 10))
]

parse_trimmed-codes :
    (s : String) (c : ℕ) (t : List ℕ)
    → codes s ≡ c ∷ t
    → parse_trimmed s ≡ quoted_error s (parse_int (c ∷ t))
unfolding parse_trimmed
parse_trimmed-codes String.[] c t h = cc
parse_trimmed-codes (String.◌∷◌ d s) c t h = ap (λ l. quoted_error (String.◌∷◌ d s) (parse_int l)) h

parse_int-digits :
    (c : ℕ) (t : List ℕ) (n : ℕ)
    → digits_from 0 (c ∷ t) ≡ some n
    → n < 2 ^ 63
    → parse_int (c ∷ t) ≡ ok (pos n)
unfolding parse_int magnitude
parse_int-digits c t n h k =
    let y = (spells-digits 0 n (c ∷ t) h).0 in
    let minus : (c == b'-') ≡ false = ground arith in
    let plus : (c == b'+') ≡ false = ground arith in rw (minus, plus, h) (ground arith)

parse_int-minus :
    (t : List ℕ) (n : ℕ)
    → t ≢ []
    → digits_from 0 t ≡ some (suc n)
    → n < 2 ^ 63
    → parse_int (b'-' ∷ t) ≡ ok (negsuc n)
unfolding parse_int magnitude
parse_int-minus [] n e h k = absurd (e refl)
parse_int-minus (c ∷ t) n e h k = rw h (ground arith)

pub decimal-spells : (n : ℕ) → n ≤ 2 ^ 63 → digits_from 0 (codes (decimal n)) ≡ some n
unfolding decimal
decimal-spells n h = decimal_from-spells 20 n (omega (arith, h))

parse-codes :
    (s : String) (c : ℕ) (t : List ℕ)
    → codes s ≡ c ∷ t
    → All (λ d. is_space d ≡ false) (codes s)
    → parse_sunabar_int s ≡ quoted_error s (parse_int (c ∷ t))
unfolding parse_sunabar_int
parse-codes s c t h spaces = ap parse_trimmed (trim_space_id s spaces) ∙ parse_trimmed-codes s c t h

parse-spelled :
    (s : String) (n : ℕ) (xs : List ℕ)
    → codes s ≡ xs
    → xs ≢ []
    → digits_from 0 xs ≡ some n
    → n < 2 ^ 63
    → parse_sunabar_int s ≡ ok (pos n)
parse-spelled s n [] e ne h k = absurd (ne refl)
parse-spelled s n (c ∷ t) e ne h k =
    parse-codes s c t e (rw e (digits-spaces (c ∷ t) (spells-digits 0 n (c ∷ t) h)))
    ∙ ap (quoted_error s) (parse_int-digits c t n h k)

parse-minus :
    (s : String) (n : ℕ)
    → codes s ≢ []
    → digits_from 0 (codes s) ≡ some (suc n)
    → n < 2 ^ 63
    → parse_sunabar_int (str_append "-" s) ≡ ok (negsuc n)
parse-minus s n ne h k =
    let e : codes (str_append "-" s) ≡ b'-' ∷ codes s = codes-append "-" s in
    parse-codes (str_append "-" s) b'-' (codes s) e
      (rw e (refl, digits-spaces (codes s) (spells-digits 0 (suc n) (codes s) h)))
    ∙ ap (quoted_error (str_append "-" s)) (parse_int-minus (codes s) n ne h k)

-- Whatever int64 the service writes with `FormatInt`, `parseSunabarInt` reads it back.
pub parse-format_int : (n : ℤ) → InRange64 n → parse_sunabar_int (format_int n) ≡ ok n
unfolding format_int
parse-format_int (pos n) h =
    parse-spelled (decimal n) n (codes (decimal n)) refl (decimal-ne-nil n)
      (decimal-spells n (omega (arith, h))) (omega (arith, h))
parse-format_int (negsuc n) h =
    parse-minus (decimal (suc n)) n (decimal-ne-nil (suc n))
      (decimal-spells (suc n) (omega (arith, h))) (omega (arith, h))
