-- ===== src/Observability/Mask/Hiding.antt =====
-- What a mask shows (internal/platform/observability/mask.go).
use go_sunabar_payments.Base.{
  ℕ, zero, suc, ◌+◌, ◌-◌, ◌*◌, ◌/◌, ◌%◌, ◌^◌, ◌<◌, ◌≡◌, refl, sym, ap, ◌∙◌, inl, inr, true, false,
  List, [], ◌∷◌, ◌++◌, length, drop, leb, ltb, ◌==◌, arith, Bool-cases,
}
use mathlib.Core.List.{append-nil, append_assoc}
use go_sunabar_payments.Base.Int.{pos}
use go_sunabar_payments.Platform.Errors.{digit_text, decimal_from, decimal}
use go_sunabar_payments.Sunabar.Number.{codes, format_int}
use go_sunabar_payments.Sunabar.Number.RoundTrip.{codes-append, codes-digit_text}
use go_sunabar_payments.Observability.Mask.{
  digits_of, stars, mask_account_number, len_loop, len_str,
}

-- Two texts with as many digits, the last four of which agree, have the same mask: of the digits before
-- these a mask shows how many there are.
pub masks_agree :
    (s t : List ℕ)
    → length (digits_of s) ≡ length (digits_of t)
    → drop (length (digits_of s) - 4) (digits_of s) ≡ drop (length (digits_of t) - 4) (digits_of t)
    → mask_account_number s ≡ mask_account_number t
unfolding mask_account_number
masks_agree s t h k = elim (Bool-cases (leb (length (digits_of s)) 4)) [
  | inl y ↦ let z : leb (length (digits_of t)) 4 ≡ true = rw h at y in rw (y, z) (ap stars h)
  | inr n ↦
      let z : leb (length (digits_of t)) 4 ≡ false = rw h at n in
      rw (n, z, k) (ap (λ l. stars (l - 4) ++ drop (length (digits_of t) - 4) (digits_of t)) h)
]

pow_suc : (n : ℕ) → 10 ^ suc n ≡ 10 * 10 ^ n
pow_suc n = omega arith

len_loop-zero : (fuel : ℕ) (out : List ℕ) → len_loop fuel 0 out ≡ out
unfolding len_loop
len_loop-zero zero out = refl
len_loop-zero (suc fuel) out = refl

len_loop-step :
    (rounds n : ℕ) (out : List ℕ)
    → (n == 0) ≡ false
    → len_loop (suc rounds) n out ≡ len_loop rounds (n / 10) ((b'0' + n % 10) ∷ out)
unfolding len_loop
len_loop-step rounds n out m = rw m refl

decimal_from-one : (fuel n : ℕ) → n < 10 → codes (decimal_from (suc fuel) n) ≡ (b'0' + n) ∷ []
unfolding decimal_from
decimal_from-one fuel n h = let y : ltb n 10 ≡ true = ground arith in rw y (codes-digit_text n h)

decimal_from-more :
    (fuel n : ℕ)
    → ltb n 10 ≡ false
    → codes (decimal_from (suc fuel) n) ≡ codes (decimal_from fuel (n / 10)) ++ (b'0' + n % 10) ∷ []
unfolding decimal_from
decimal_from-more fuel n z = rw z (
    codes-append (decimal_from fuel (n / 10)) (digit_text (n % 10))
    ∙ ap (λ l. codes (decimal_from fuel (n / 10)) ++ l) (codes-digit_text (n % 10) (omega arith)))

one_digit :
    (rounds n : ℕ) (out : List ℕ)
    → n < 10
    → len_loop rounds (n / 10) ((b'0' + n % 10) ∷ out) ≡ (b'0' + n) ∷ out
one_digit rounds n out h =
    let none_left : n / 10 ≡ 0 = omega (arith, h) in
    let itself : n % 10 ≡ n = omega (arith, h) in
    rw (none_left, itself) (len_loop-zero rounds ((b'0' + n) ∷ out))

-- The loop puts the decimal digits of a number above zero before what it has.
len_loop-digits :
    (fuel rounds n : ℕ) (out : List ℕ)
    → n < 10 ^ fuel
    → n < 10 ^ rounds
    → 0 < n
    → len_loop rounds n out ≡ codes (decimal_from fuel n) ++ out
len_loop-digits zero rounds n out h k p = absurd (omega (arith, h, p))
len_loop-digits (suc fuel) zero n out h k p = absurd (omega (arith, k, p))
len_loop-digits (suc fuel) (suc rounds) n out h k p =
    len_loop-step rounds n out (ground arith) ∙ elim (Bool-cases (ltb n 10)) [
      | inl y ↦
          one_digit rounds n out (ground arith)
          ∙ ap (λ l. l ++ out) (sym (decimal_from-one fuel n (ground arith)))
      | inr z ↦
          len_loop-digits fuel rounds (n / 10) ((b'0' + n % 10) ∷ out)
            (omega (arith, pow_suc fuel, h)) (omega (arith, pow_suc rounds, k)) (ground arith)
          ∙ sym (append_assoc (codes (decimal_from fuel (n / 10))) ((b'0' + n % 10) ∷ []) out)
          ∙ ap (λ l. l ++ out) (sym (decimal_from-more fuel n z))
    ]

above_zero : (n : ℕ) → (n == 0) ≡ false → len_str n ≡ len_loop 20 n []
unfolding len_str
above_zero n m = rw m refl

zero_text : len_str 0 ≡ codes (decimal_from 20 0)
unfolding len_str decimal_from
zero_text = refl

-- `lenStr` ends, for a length below 2^63 within 20 rounds of its loop, and gives the text that
-- `strconv.FormatInt` gives to the base 10.
pub len_str-format_int : (n : ℕ) → n < 2 ^ 63 → len_str n ≡ codes (format_int (pos n))
unfolding format_int decimal
len_str-format_int zero h = zero_text
len_str-format_int (suc n) h =
    above_zero (suc n) (ground arith)
    ∙ len_loop-digits 20 20 (suc n) [] (omega (arith, h)) (omega (arith, h)) (omega arith)
    ∙ append-nil (codes (decimal_from 20 (suc n)))
