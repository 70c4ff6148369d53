-- ===== src/Pop3/Numbers.antt =====
-- Numbers as email-network-service/src/pop3/pop3_server.py reads and writes them, with `int` and
-- `str` of Python.
pub mod Decimal
use rdt_mail_service.Prelude.{
  ℕ, zero, suc, ◌+◌, ◌-◌, ◌*◌, ◌/◌, ◌%◌, Bool, ◌&&◌, [], ◌∷◌, ◌++◌, Option, none, some, leb, ltb,
  ◌==◌, nat_eq, if◌then◌else◌,
}
use rdt_mail_service.Prelude.Text.{Text, text_eq, codes}

-- An `int`: `negsuc n` is -(n + 1).
pub data ℤ : Type 0 where
  pos negsuc : ℕ → ℤ

abbrev pub is_digit : ℕ → Bool
is_digit c = leb b'0' c && leb c b'9'

-- Digits after a digit, with single underscores between them, onto what is read so far.
unfoldable pub parse_digits : ℕ → Text → Option ℕ
parse_digits n [] = some n
parse_digits n (c ∷ []) = if is_digit c then some (n * 10 + (c - b'0')) else none
parse_digits n (c ∷ d ∷ s) =
    let next = parse_digits (n * 10 + (c - b'0')) (d ∷ s) in
    let skipped = parse_digits (n * 10 + (d - b'0')) s in
    if is_digit c then next else if (c == b'_') && is_digit d then skipped else none

unfoldable pub parse_nat : Text → Option ℕ
unfolding parse_digits
parse_nat [] = none
parse_nat (c ∷ s) = if is_digit c then parse_digits (c - b'0') s else none

abbrev negated : Option ℕ → Option ℤ
negated none = none
negated (some zero) = some (ℤ.pos zero)
negated (some (suc n)) = some (ℤ.negsuc n)

abbrev positive : Option ℕ → Option ℤ
positive none = none
positive (some n) = some (ℤ.pos n)

-- `int(s)` of a text without white space; `none` is `ValueError`.
unfoldable pub parse_int : Text → Option ℤ
unfolding parse_nat
parse_int [] = none
parse_int (c ∷ s) =
    if c == b'-'
    then negated (parse_nat s)
    else if c == b'+'
    then positive (parse_nat s)
    else positive (parse_nat (c ∷ s))

-- Each round writes the last digit; `suc n` rounds are enough for n.
unfoldable pub decimal_rounds : ℕ → ℕ → Text
decimal_rounds zero n = []
decimal_rounds (suc rounds) n =
    let digit = (b'0' + n % 10) ∷ [] in
    let before = decimal_rounds rounds (n / 10) in if ltb n 10 then digit else before ++ digit

-- `str(n)`
unfoldable pub decimal : ℕ → Text
unfolding decimal_rounds
decimal n = decimal_rounds (suc n) n

unfoldable pub show_int : ℤ → Text
unfolding decimal
show_int (pos n) = decimal n
show_int (negsuc n) = codes "-" ++ decimal (suc n)
