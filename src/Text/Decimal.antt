-- ===== src/Text/Decimal.antt =====
-- Printing a number in decimal and reading it back.
use monitoring_tool.Prelude.{
  ℕ, zero, suc, ◌+◌, ◌-◌, ◌*◌, ◌/◌, ◌%◌, ◌^◌, ◌<◌, ◌≡◌, refl, ◌∙◌, ap, true, List, [], ◌∷◌, ◌++◌,
  some, inl, inr, arith, ltb, ℤ, pos, negsuc, Bool-cases, ltb→lt,
}
use monitoring_tool.Text.{
  codes, codes-<>, is_digit, digits_value, atoi, digit_text, show_fuel, show_ℤ, signed,
}

codes-digit_text : (d : ℕ) → d < 10 → codes (digit_text d) ≡ (b'0' + d) ∷ []
unfolding digit_text codes
codes-digit_text zero h = refl
codes-digit_text (suc zero) h = refl
codes-digit_text (suc (suc zero)) h = refl
codes-digit_text (suc (suc (suc zero))) h = refl
codes-digit_text (suc (suc (suc (suc zero)))) h = refl
codes-digit_text (suc (suc (suc (suc (suc zero))))) h = refl
codes-digit_text (suc (suc (suc (suc (suc (suc zero)))))) h = refl
codes-digit_text (suc (suc (suc (suc (suc (suc (suc zero))))))) h = refl
codes-digit_text (suc (suc (suc (suc (suc (suc (suc (suc zero)))))))) h = refl
codes-digit_text (suc (suc (suc (suc (suc (suc (suc (suc (suc zero))))))))) h = refl
codes-digit_text (suc (suc (suc (suc (suc (suc (suc (suc (suc (suc d)))))))))) h =
    absurd (omega arith)

-- Digits in front of others multiply into the value read so far.
digits_value-digit :
    (xs : List ℕ) (n m d : ℕ)
    → d < 10
    → digits_value n xs ≡ some m
    → digits_value n (xs ++ (b'0' + d) ∷ []) ≡ some (m * 10 + d)
unfolding digits_value
digits_value-digit [] n m d h e = ground arith
digits_value-digit (x ∷ xs) n m d h e =
    ground (arith, digits_value-digit xs (n * 10 + (x - b'0')) m d)

one_digit : (d : ℕ) → d < 10 → digits_value 0 ((b'0' + d) ∷ []) ≡ some d
unfolding digits_value
one_digit d h = ground arith

show_fuel-value : (fuel n : ℕ) → n < fuel → digits_value 0 (codes (show_fuel fuel n)) ≡ some n
unfolding show_fuel
show_fuel-value zero n h = absurd (omega arith)
show_fuel-value (suc fuel) n h = elim (Bool-cases (ltb n 10)) [
  | inl small ↦
      rw small (rw (codes-digit_text n (ltb→lt n 10 small)) (one_digit n (ltb→lt n 10 small)))
  | inr big ↦ rw big (
      rw (codes-<> (show_fuel fuel (n / 10)) (digit_text (n % 10))) (
        rw (codes-digit_text (n % 10) (omega arith)) (
          digits_value-digit (codes (show_fuel fuel (n / 10))) 0 (n / 10) (n % 10) (omega arith)
            (show_fuel-value fuel (n / 10) (ground arith))
          ∙ ap some (let e : n / 10 * 10 + n % 10 ≡ n = omega arith in e))))
]

-- The first character of a printed number is a digit, and there is one.
abbrev StartsWithDigit : List ℕ → Type 0
StartsWithDigit xs = (c : ℕ) × (cs : List ℕ) × (xs ≡ c ∷ cs) × (is_digit c ≡ true)

show_fuel-StartsWithDigit : (fuel n : ℕ) → n < fuel → StartsWithDigit (codes (show_fuel fuel n))
unfolding show_fuel
show_fuel-StartsWithDigit zero n h = absurd (omega arith)
show_fuel-StartsWithDigit (suc fuel) n h = elim (Bool-cases (ltb n 10)) [
  | inl small ↦ (b'0' + n, [], rw small (codes-digit_text n (ltb→lt n 10 small)), ground arith)
  | inr big ↦
      let (c, cs, e, d) = show_fuel-StartsWithDigit fuel (n / 10) (ground arith) in
      (
        c,
        cs ++ codes (digit_text (n % 10)),
        rw big (
            codes-<> (show_fuel fuel (n / 10)) (digit_text (n % 10))
            ∙ ap (λ l. l ++ codes (digit_text (n % 10))) e),
        d,
      )
]

-- What `signed` makes of digits that read as n, without and with a minus sign.
signed_digits :
    (xs : List ℕ) (n : ℕ)
    → StartsWithDigit xs
    → digits_value 0 xs ≡ some n
    → n < 2 ^ 63
    → signed xs ≡ some (pos n)
signed_digits xs n (c, cs, e, d) v h = rw e (ground arith)

signed_minus :
    (xs : List ℕ) (n : ℕ)
    → StartsWithDigit xs
    → digits_value 0 xs ≡ some (n + 1)
    → n < 2 ^ 63
    → signed (b'-' ∷ xs) ≡ some (negsuc n)
signed_minus xs n (c, cs, e, d) v h = rw e (ground arith)

-- An `int`, in 64 bits.
abbrev pub FitsInt : ℤ → Type 0
FitsInt (pos n) = n < 2 ^ 63
FitsInt (negsuc n) = n < 2 ^ 63

-- `strconv.Atoi` reads back what `%d` prints of any `int`, its sign included.
pub atoi-show_ℤ : (z : ℤ) → FitsInt z → atoi (show_ℤ z) ≡ some z
unfolding atoi show_ℤ
atoi-show_ℤ (pos n) h =
    signed_digits _ n (show_fuel-StartsWithDigit (suc n) n (omega arith))
      (show_fuel-value (suc n) n (omega arith)) h
atoi-show_ℤ (negsuc n) h = rw (codes-<> "-" (show_fuel (suc (n + 1)) (n + 1))) (
    signed_minus _ n (show_fuel-StartsWithDigit (suc (n + 1)) (n + 1) (omega arith))
      (show_fuel-value (suc (n + 1)) (n + 1) (omega arith)) h)
