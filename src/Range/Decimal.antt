-- ===== src/Range/Decimal.antt =====
-- Decimal numbers as text, and how parseRange's scanning passes over them.
use impd4e.Common.{
  ◌==◌, ◌-◌, ℕ, zero, suc, ◌+◌, ◌*◌, ◌/◌, ◌%◌, ◌<◌, ◌^◌, ap, ◌∷◌, true, false, ◌≡◌, ◌∙◌, inl, inr,
  arith, ltb, if◌then◌else◌, Bool-cases,
}
use impd4e.Range.{
  Text, is_digit, is_space, digits_value, int_of_long, atoi_nonneg, is_separator, at_end, Parsed,
  parse_items,
}

-- The digits of `n`, in front of `rest`; `fuel` bounds their number.
unfoldable pub digits_onto : ℕ → ℕ → Text → Text
digits_onto zero n rest = rest
digits_onto (suc fuel) n rest =
    let more = digits_onto fuel (n / 10) ((n % 10 + b'0') ∷ rest) in
    if ltb n 10 then (n + b'0') ∷ rest else more

unfoldable pub decimal : ℕ → Text → Text
unfolding digits_onto
decimal n rest = digits_onto (n + 1) n rest

digit-facts :
    (d : ℕ)
    → d < 10
    → (is_digit (d + b'0') ≡ true)
      × (is_space (d + b'0') ≡ false)
      × (is_separator (d + b'0') ≡ false)
unfolding is_digit is_space is_separator
digit-facts d h = ground arith

digits_value-digit :
    (acc d : ℕ) (rest : Text)
    → d < 10
    → digits_value acc ((d + b'0') ∷ rest) ≡ digits_value (acc * 10 + d) rest
unfolding digits_value
digits_value-digit acc d rest h =
    let e : d + b'0' - b'0' ≡ d = omega arith in rw ((digit-facts d h).0, e)

digits_value-digits_onto :
    (fuel n : ℕ) (rest : Text)
    → n < fuel
    → digits_value 0 (digits_onto fuel n rest) ≡ digits_value n rest
unfolding digits_onto
digits_value-digits_onto zero n rest h = absurd (omega arith)
digits_value-digits_onto (suc fuel) n rest h = elim (Bool-cases (ltb n 10)) [
  | inl small ↦
      let base : 0 * 10 + n ≡ n = omega arith in
      rw small (digits_value-digit 0 n rest (ground arith) ∙ rw base)
  | inr large ↦
      let n_lt : n / 10 < fuel = ground arith in
      let whole : n / 10 * 10 + n % 10 ≡ n = omega arith in
      rw large (
        digits_value-digits_onto fuel (n / 10) ((n % 10 + b'0') ∷ rest) n_lt
        ∙ digits_value-digit (n / 10) (n % 10) rest (omega arith)
        ∙ rw whole)
]

parse_items-digit :
    (d : ℕ) (rest : Text) (s : Parsed)
    → d < 10
    → parse_items ((d + b'0') ∷ rest) s ≡ parse_items rest s
unfolding parse_items
parse_items-digit d rest s h = rw (digit-facts d h).2

parse_items-digits_onto :
    (fuel n : ℕ) (rest : Text) (s : Parsed)
    → n < fuel
    → parse_items (digits_onto fuel n rest) s ≡ parse_items rest s
unfolding digits_onto
parse_items-digits_onto zero n rest s h = absurd (omega arith)
parse_items-digits_onto (suc fuel) n rest s h = elim (Bool-cases (ltb n 10)) [
  | inl small ↦ rw small (parse_items-digit n rest s (ground arith))
  | inr large ↦ rw large (
      parse_items-digits_onto fuel (n / 10) ((n % 10 + b'0') ∷ rest) s (ground arith)
      ∙ parse_items-digit (n % 10) rest s (omega arith))
]

-- The text begins with a digit.
record StartsWithDigit (text : Text) : Type 0 where
  digit : ℕ
  behind : Text
  small : digit < 10
  shape : text ≡ (digit + b'0') ∷ behind

digits_onto-StartsWithDigit :
    (fuel n : ℕ) (rest : Text) → n < fuel → StartsWithDigit (digits_onto fuel n rest)
unfolding digits_onto
digits_onto-StartsWithDigit zero n rest h = absurd (omega arith)
digits_onto-StartsWithDigit (suc fuel) n rest h = elim (Bool-cases (ltb n 10)) [
  | inl less ↦ record { digit = n; behind = rest; small = ground arith; shape = rw less }
  | inr large ↦
      let deeper =
        digits_onto-StartsWithDigit fuel (n / 10) ((n % 10 + b'0') ∷ rest) (ground arith) in
      record {
        digit = deeper.digit;
        behind = deeper.behind;
        small = deeper.small;
        shape = rw large deeper.shape;
      }
]

-- Reading the digits back stops at `rest` if it does not begin with a digit itself.
abbrev pub EndsNumber : Text → Type 0
EndsNumber rest = (n : ℕ) → digits_value n rest ≡ n

atoi-StartsWithDigit :
    (text : Text)
    → StartsWithDigit text
    → (atoi_nonneg text ≡ int_of_long (digits_value 0 text)) × (at_end text ≡ false)
unfolding atoi_nonneg at_end
atoi-StartsWithDigit text w =
    let (is, no_space, no_separator) = digit-facts w.digit w.small in
    let no_minus : ((w.digit + b'0') == b'-') ≡ false = let h = w.small in ground arith in
    let no_plus : ((w.digit + b'0') == b'+') ≡ false = let h = w.small in ground arith in
    rw w.shape (rw (no_space, no_minus, no_plus), no_separator)

int_of_long_fits : (n : ℕ) → n < 2 ^ 31 → int_of_long n ≡ n
int_of_long_fits n fits = ground arith

-- What parseRange sees of a printed number with `rest` behind it.
pub decimal-reads :
    (n : ℕ) (rest : Text)
    → n < 2 ^ 31
    → EndsNumber rest
    → (atoi_nonneg (decimal n rest) ≡ n)
      × (at_end (decimal n rest) ≡ false)
      × ((s : Parsed) → parse_items (decimal n rest) s ≡ parse_items rest s)
unfolding decimal
decimal-reads n rest fits h =
    let (read, filled) =
      atoi-StartsWithDigit _ (digits_onto-StartsWithDigit (n + 1) n rest (omega arith)) in
    (
      read
          ∙ ap int_of_long (digits_value-digits_onto (n + 1) n rest (omega arith) ∙ h n)
          ∙ int_of_long_fits n fits,
      filled,
      λ s. parse_items-digits_onto (n + 1) n rest s (omega arith),
    )
