-- ===== src/Range.antt =====
-- src/hash.c: parseRange, which reads the ranges of a selection such as "20,34-45,14+4,4".
--
-- Text is a list of bytes with no terminator. The end of the list `rSel` is a pointer of its own
-- in the code; here the current range is kept apart from the finished ones before it. The numbers
-- are `int`, and are natural numbers here: offsets and lengths below zero are set to zero by the
-- code, which subtraction on ℕ does by itself. An `int` wraps around at 2^32; an offset that
-- does so stands as the uint32_t with which the packet length is compared.
pub mod Decimal
pub mod RoundTrip
use impd4e.Common.{
  ℕ, zero, suc, ◌+◌, ◌-◌, ◌*◌, ◌%◌, ◌^◌, List, [], ◌∷◌, ◌++◌, Bool, true, false, ◌&&◌, ◌||◌, ltb,
  leb, ◌==◌, if◌then◌else◌, Option, none, some,
}
use impd4e.Selection.{Range}

abbrev pub Text : Type 0
Text = List ℕ

pub is_digit : ℕ → Bool
is_digit c = leb b'0' c && leb c b'9'

-- isspace in the C locale.
unfoldable pub is_space : ℕ → Bool
is_space c = c == b' ' || (leb 9 c && leb c 13)

-- The digits of atoi.
pub digits_value : ℕ → Text → ℕ
digits_value acc [] = acc
digits_value acc (c ∷ s) =
    let more = digits_value (acc * 10 + (c - b'0')) s in if is_digit c then more else acc

-- A number in an int, with a negative value set to 0.
abbrev pub int_nonneg : ℕ → ℕ
int_nonneg n = if ltb (n % 2 ^ 32) (2 ^ 31) then n % 2 ^ 32 else 0

-- The int of a long: one that does not fit a long is the largest or smallest, whose int is -1 or 0.
abbrev pub int_of_long : ℕ → ℕ
int_of_long n = if ltb n (2 ^ 63) then int_nonneg n else 0

-- atoi, with a negative value set to 0 as parseRange does with it.
pub atoi_nonneg : Text → ℕ
atoi_nonneg [] = 0
atoi_nonneg (c ∷ s) =
    let spaced = atoi_nonneg s in
    let digits = digits_value 0 s in
    if is_space c
    then spaced
    else if c == b'-'
    then (if ltb digits (2 ^ 63) then int_nonneg (2 ^ 32 - digits % 2 ^ 32) else 0)
    else if c == b'+'
    then int_of_long digits
    else int_of_long (digits_value 0 (c ∷ s))

-- The separators of `strcspn( arg, ",-+<>:^" )`.
pub is_separator : ℕ → Bool
is_separator c =
    c == b',' || c == b'-' || c == b'+' || c == b'<' || c == b'>' || c == b':' || c == b'^'

-- `0 == len`: nothing stands before the next separator.
pub at_end : Text → Bool
at_end [] = true
at_end (c ∷ s) = is_separator c

-- The list as built so far; `current` is the element that `p` points at.
pub record Parsed : Type 0 where
  pub finished : List Range
  pub current : Range

abbrev pub begin_range : ℕ → Bool → Range
begin_range value empty = record { offset = value; length = if empty then 0 else 1 }

-- The switch on the separator that stands before an item. A ',' begins a range, and moves `p` on.
-- The cases '[' and ']' are no separators of strcspn and cannot occur.
pub item : ℕ → ℕ → Bool → Parsed → Parsed
item separator value empty s =
    if separator == b'-'
    then record s {
      current = record {
        offset = s.current.offset;
        length = int_nonneg (value + 1 - s.current.offset);
      };
    }
    else if separator == b':' || separator == b'+'
    then record s { current = record { offset = s.current.offset; length = value } }
    else if separator == b'<'
    then record s {
      current = record { offset = s.current.offset; length = value - s.current.offset };
    }
    else if separator == b'>'
    then record s {
      current = record { offset = s.current.offset + 1; length = value - s.current.offset };
    }
    else if separator == b'^'
    then record s {
      current = record { offset = s.current.offset + 1; length = value - (s.current.offset + 1) };
    }
    else record { finished = s.finished ++ s.current ∷ []; current = begin_range value empty }

-- The loop, from behind the first item on: `arg += len` passes over what is no separator, and
-- `*arg++` over the separator, whose item is read from the text behind it.
pub parse_items : Text → Parsed → List Range
parse_items [] s = s.finished ++ s.current ∷ []
parse_items (c ∷ text) s =
    parse_items text (if is_separator c then item c (atoi_nonneg text) (at_end text) s else s)

-- The first pass begins a range, since no separator was stored yet.
unfoldable pub parse_range : Text → List Range
unfolding is_digit is_space digits_value atoi_nonneg is_separator at_end item parse_items
parse_range text =
    parse_items text
      (record { finished = []; current = begin_range (atoi_nonneg text) (at_end text) })
