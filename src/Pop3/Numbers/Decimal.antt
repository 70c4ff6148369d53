-- ===== src/Pop3/Numbers/Decimal.antt =====
-- `int` reads what `str` writes, for the numbers of pop3_server.py.
use rdt_mail_service.Prelude.{
  ℕ, zero, suc, ◌+◌, ◌-◌, ◌*◌, ◌/◌, ◌%◌, ◌≤◌, ◌<◌, ◌≡◌, refl, ap, ◌∙◌, inl, inr, Bool, true, false,
  ◌&&◌, [], ◌∷◌, ◌++◌, some, arith, length, length-append, ltb, nat_eq, Bool-cases,
}
use rdt_mail_service.Prelude.Text.{Text}
use rdt_mail_service.Pop3.Numbers.{
  ℤ, is_digit, parse_digits, parse_nat, parse_int, decimal_rounds, decimal,
}

abbrev pub all_digits : Text → Bool
all_digits [] = true
all_digits (c ∷ s) = is_digit c && all_digits s

-- The number that digits stand for, onto what is read so far.
abbrev value : ℕ → Text → ℕ
value n [] = n
value n (c ∷ s) = value (n * 10 + (c - b'0')) s

parse_digits-value : (n : ℕ) (s : Text) → all_digits s ≡ true → parse_digits n s ≡ some (value n s)
unfolding parse_digits
parse_digits-value n [] h = refl
parse_digits-value n (c ∷ []) h = ground arith
parse_digits-value n (c ∷ d ∷ s) h =
    ground (arith, parse_digits-value (n * 10 + (c - b'0')) (d ∷ s))

value-append : (n : ℕ) (s : Text) (c : ℕ) → value n (s ++ c ∷ []) ≡ value n s * 10 + (c - b'0')
value-append n [] c = refl
value-append n (d ∷ s) c = value-append (n * 10 + (d - b'0')) s c

all_digits-append :
    (s : Text) (c : ℕ) → all_digits s ≡ true → is_digit c ≡ true → all_digits (s ++ c ∷ []) ≡ true
all_digits-append [] c h d = ground arith
all_digits-append (x ∷ s) c h d = ground (arith, all_digits-append s c)

digit-is_digit : (n : ℕ) → is_digit (b'0' + n % 10) ≡ true
digit-is_digit n = ground arith

pub decimal_rounds-all_digits : (rounds n : ℕ) → all_digits (decimal_rounds rounds n) ≡ true
unfolding decimal_rounds
decimal_rounds-all_digits zero n = refl
decimal_rounds-all_digits (suc rounds) n = elim (Bool-cases (ltb n 10)) [
  | inl small ↦ rw small (ground (arith, digit-is_digit n))
  | inr large ↦ rw large (
      all_digits-append (decimal_rounds rounds (n / 10)) (b'0' + n % 10)
        (decimal_rounds-all_digits rounds (n / 10)) (digit-is_digit n))
]

digit_of : (n : ℕ) → ltb n 10 ≡ true → n < 10
digit_of n h = ground arith

many_digits : (n : ℕ) → ltb n 10 ≡ false → 10 ≤ n
many_digits n h = ground arith

-- Enough rounds write the number.
decimal_rounds-value : (rounds n : ℕ) → n < rounds → value 0 (decimal_rounds rounds n) ≡ n
unfolding decimal_rounds
decimal_rounds-value zero n h = absurd (omega arith)
decimal_rounds-value (suc rounds) n h = elim (Bool-cases (ltb n 10)) [
  | inl small ↦ rw small (omega (arith, digit_of n small))
  | inr large ↦ rw large (
      value-append 0 (decimal_rounds rounds (n / 10)) (b'0' + n % 10)
      ∙ omega (arith, decimal_rounds-value rounds (n / 10) (omega (arith, many_digits n large))))
]

pub length-decimal_rounds : (rounds n : ℕ) → 1 ≤ length (decimal_rounds (suc rounds) n)
unfolding decimal_rounds
length-decimal_rounds rounds n = elim (Bool-cases (ltb n 10)) [
  | inl small ↦ rw small (omega arith)
  | inr large ↦
      rw large
        (omega (arith, length-append (decimal_rounds rounds (n / 10)) ((b'0' + n % 10) ∷ [])))
]

-- Digits read as their value.
parse_int-value :
    (s : Text) → all_digits s ≡ true → 1 ≤ length s → parse_int s ≡ some (ℤ.pos (value 0 s))
unfolding parse_int parse_nat
parse_int-value [] h l = absurd (omega arith)
parse_int-value (c ∷ s) h l = ground (arith, parse_digits-value (c - b'0') s)

-- `int(str(n))` is n, for every number that is not negative.
pub parse_int-decimal : (n : ℕ) → parse_int (decimal n) ≡ some (ℤ.pos n)
unfolding decimal
parse_int-decimal n =
    parse_int-value (decimal_rounds (suc n) n) (decimal_rounds-all_digits (suc n) n)
      (length-decimal_rounds n n)
    ∙ ap (λ (m : ℕ). some (ℤ.pos m)) (decimal_rounds-value (suc n) n (omega arith))
