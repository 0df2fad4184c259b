-- ===== src/Range/RoundTrip.antt =====
-- The selection language as data, printed and read back.
use impd4e.Common.{◌≤◌, ◌<◌, ℕ, ◌+◌, ◌-◌, List, [], ◌∷◌, ◌≡◌, false}
use impd4e.Selection.{Range}
use impd4e.Range.{Text, atoi_nonneg, at_end, begin_range, parse_items}
use impd4e.Range.Decimal.{decimal}

-- "offset", "first-last", "offset+count" or "offset:count", and ranges of which the right border
-- ('<'), the left one ('>') or both ('^') are excluded.
pub data Spec : Type 0 where
  byte : ℕ → Spec
  from_to : ℕ → ℕ → Spec
  plus colon : ℕ → ℕ → Spec
  up_to after between : ℕ → ℕ → Spec

-- The bytes that are meant.
unfoldable pub meaning : Spec → Range
meaning (byte o) = record { offset = o; length = 1 }
meaning (from_to a b) = record { offset = a; length = b + 1 - a }
meaning (plus o n) = record { offset = o; length = n }
meaning (colon o n) = record { offset = o; length = n }
meaning (up_to a b) = record { offset = a; length = b - a }
meaning (after a b) = record { offset = a + 1; length = b - a }
meaning (between a b) = record { offset = a + 1; length = b - (a + 1) }

-- What the help text says of a byte: it is selected.
unfoldable pub IsSelected : Spec → ℕ → Type 0
IsSelected (byte o) k = k ≡ o
IsSelected (from_to a b) k = (a ≤ k) × (k ≤ b)
IsSelected (plus o n) k = (o ≤ k) × (k < o + n)
IsSelected (colon o n) k = (o ≤ k) × (k < o + n)
IsSelected (up_to a b) k = (a ≤ k) × (k < b)
IsSelected (after a b) k = (a < k) × (k ≤ b)
IsSelected (between a b) k = (a < k) × (k < b)

-- Numbers below the largest int.
unfoldable pub Fits : Spec → Type 0
Fits (byte o) = o < 2147483647
Fits (from_to a b) = (a < 2147483647) × (b < 2147483647)
Fits (plus o n) = (o < 2147483647) × (n < 2147483647)
Fits (colon o n) = (o < 2147483647) × (n < 2147483647)
Fits (up_to a b) = (a < 2147483647) × (b < 2147483647)
Fits (after a b) = (a < 2147483647) × (b < 2147483647)
Fits (between a b) = (a < 2147483647) × (b < 2147483647)

abbrev pub Covers : Range → ℕ → Type 0
Covers r k = (r.offset ≤ k) × (k < r.offset + r.length)

print_spec : Spec → Text → Text
print_spec (byte o) rest = decimal o rest
print_spec (from_to a b) rest = decimal a (b'-' ∷ decimal b rest)
print_spec (plus o n) rest = decimal o (b'+' ∷ decimal n rest)
print_spec (colon o n) rest = decimal o (b':' ∷ decimal n rest)
print_spec (up_to a b) rest = decimal a (b'<' ∷ decimal b rest)
print_spec (after a b) rest = decimal a (b'>' ∷ decimal b rest)
print_spec (between a b) rest = decimal a (b'^' ∷ decimal b rest)

print_more : List Spec → Text
print_more [] = []
print_more (x ∷ xs) = b',' ∷ print_spec x (print_more xs)

pub print_specs : Spec → List Spec → Text
unfolding print_spec print_more
print_specs x xs = print_spec x (print_more xs)

first : Spec → ℕ
first (byte o) = o
first (from_to a b) = a
first (plus o n) = o
first (colon o n) = o
first (up_to a b) = a
first (after a b) = a
first (between a b) = a

-- What the loop reads at `text`, which begins with the number `n`: the range begun with `n`
-- becomes `r`, and `rest` is left.
abbrev Reads : Text → ℕ → Range → Text → Type 0
Reads text n r rest =
    (atoi_nonneg text ≡ n)
    × (at_end text ≡ false)
    × ((fs : List Range)
        → parse_items text (record { finished = fs; current = begin_range n false })
          ≡ parse_items rest (record { finished = fs; current = r }))
