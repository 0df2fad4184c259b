-- ===== src/Selection/Ranges.antt =====
-- What the range loops copy: the ranges one behind the other, cut off where the buffer is full.
use impd4e.Common.{
  ℕ, ◌-◌, ◌≤◌, ◌<◌, List, [], ◌∷◌, ◌++◌, ◌≡◌, ap, ◌∙◌, arith, ltb, leb, ◌==◌, if◌then◌else◌, min,
  length, take, drop, take-take, take-append, drop-take, length-take, length-drop, take-nil,
  drop_all, leb→le, Outcome, ok, inl, inr, Bool-cases, ltb→lt, ◌>>=◌,
}
use impd4e.Memory.{slice}
use impd4e.Memory.Laws.{slice_of_le}
use impd4e.Selection.{Range, write_count, copy_fields_select, copy_fields_select_reverse}

-- One range of a packet; a length of 0 takes all from the offset on.
abbrev pub range_bytes : List ℕ → Range → List ℕ
range_bytes q r = if r.length == 0 then drop r.offset q else take r.length (drop r.offset q)

pub all_ranges : List ℕ → List Range → List ℕ
all_ranges q [] = []
all_ranges q (r ∷ rs) = range_bytes q r ++ all_ranges q rs

length-range_bytes :
    (q : List ℕ) (r : Range)
    → length (range_bytes q r)
      ≡ (if r.length == 0 then length q - r.offset else min (length q - r.offset) r.length)
length-range_bytes q r =
    ground (arith, length-drop r.offset q, length-take r.length (drop r.offset q))

-- The bytes that one round writes.
write_count-range_bytes :
    (p : List ℕ) (n room : ℕ) (r : Range)
    → r.offset ≤ n
    → n ≤ length p
    → take (write_count (n - r.offset) r.length room) (drop r.offset p)
      ≡ take room (range_bytes (take n p) r)
unfolding write_count
write_count-range_bytes p n room r h fits = elim (Bool-cases (r.length == 0)) [
  | inl all ↦
      let e : min (n - r.offset) room ≡ min room (n - r.offset) = omega arith in
      rw (all, drop-take r.offset n p, take-take room (n - r.offset) (drop r.offset p), e)
  | inr some_bytes ↦
      let e : min (min (n - r.offset) r.length) room ≡ min room (min r.length (n - r.offset)) =
        omega arith in
      rw (some_bytes, drop-take r.offset n p)
        (rw (take-take r.length (n - r.offset) (drop r.offset p)) (rw take-take (rw e)))
]

write_count-bounds :
    (available wanted room : ℕ)
    → (write_count available wanted room ≤ available)
      × (write_count available wanted room
          ≡ min (if wanted == 0 then available else min available wanted) room)
unfolding write_count
write_count-bounds available wanted room = ground arith

-- One round behind which the loop goes on only if there is room.
one_round :
    (x y : List ℕ) (room count : ℕ) (piece next : Outcome (List ℕ))
    → min (length x) room ≡ count
    → piece ≡ ok (take room x)
    → next ≡ ok (take (room - count) y)
    → (piece >>= λ a. (if ltb 0 (room - count) then next else ok []) >>= λ rest. ok (a ++ rest))
      ≡ ok (take room (x ++ y))
one_round x y room count piece next e hx hy = elim (Bool-cases (ltb 0 (room - count))) [
  | inl more ↦
      let left : room - length x ≡ room - count = omega arith in
      rw (hx, more, hy, take-append room x y, left)
  | inr full ↦
      let left : room - length x ≡ 0 = ground arith in rw (hx, full, take-append room x y, left)
]

empty_range : (q : List ℕ) (r : Range) → length q ≤ r.offset → range_bytes q r ≡ []
empty_range q r h = rw (drop_all r.offset q h) (ground (arith, take-nil {0} {A = ℕ} r.length))

-- copyFields_Select writes the user's ranges of the packet one behind the other, cut off at the
-- size of the buffer, and reads nothing beyond the packet length, where that many bytes are there.
pub copy_fields_select-all_ranges :
    (p : List ℕ) (n : ℕ) (rs : List Range) (room : ℕ)
    → n ≤ length p
    → copy_fields_select p n rs room ≡ ok (take room (all_ranges (take n p) rs))
unfolding copy_fields_select all_ranges
copy_fields_select-all_ranges p n [] room fits = rw (take-nil room)
copy_fields_select-all_ranges p n (r ∷ rs) room fits = elim (Bool-cases (ltb r.offset n)) [
  | inl inside ↦
      let count = write_count (n - r.offset) r.length room in
      let (small, e) = write_count-bounds (n - r.offset) r.length room in
      let h : r.offset < n = ltb→lt r.offset n inside in
      rw inside (
        one_round (range_bytes (take n p) r) (all_ranges (take n p) rs) room count
          (slice p r.offset count) (copy_fields_select p n rs (room - count))
          (ground (arith, length-range_bytes (take n p) r, length-take n p))
          (slice_of_le p r.offset count (omega arith)
            ∙ ap ok (write_count-range_bytes p n room r (omega arith) fits))
          (copy_fields_select-all_ranges p n rs (room - count) fits))
  | inr outside ↦
      let h : n ≤ r.offset = ground arith in
      let nothing = empty_range (take n p) r (omega (arith, length-take n p)) in
      rw outside (
        one_round (range_bytes (take n p) r) (all_ranges (take n p) rs) room 0 (ok [])
          (copy_fields_select p n rs (room - 0)) (omega (arith, ap length nothing))
          (rw (nothing, take-nil room)) (copy_fields_select-all_ranges p n rs (room - 0) fits))
]

-- A range whose offset counts from the end of the packet; one that begins before it is left out.
abbrev pub from_end : List ℕ → Range → Range
from_end q r = record r { offset = length q - r.offset }

abbrev pub range_bytes_reverse : List ℕ → Range → List ℕ
range_bytes_reverse q r = if leb r.offset (length q) then range_bytes q (from_end q r) else []

pub all_ranges_reverse : List ℕ → List Range → List ℕ
all_ranges_reverse q [] = []
all_ranges_reverse q (r ∷ rs) = range_bytes_reverse q r ++ all_ranges_reverse q rs

-- copyFields_Select_reverse does the same with offsets from the end of the packet, where the bytes
-- of the packet length are there.
pub copy_fields_select_reverse-all_ranges :
    (p : List ℕ) (n : ℕ) (rs : List Range) (room : ℕ)
    → n ≤ length p
    → copy_fields_select_reverse p n rs room ≡ ok (take room (all_ranges_reverse (take n p) rs))
unfolding copy_fields_select_reverse all_ranges_reverse
copy_fields_select_reverse-all_ranges p n [] room fits = rw (take-nil room)
copy_fields_select_reverse-all_ranges p n (r ∷ rs) room fits =
    let whole : length (take n p) ≡ n = omega (arith, length-take n p) in
    elim (Bool-cases (leb r.offset n)) [
      | inl inside ↦
          let count = write_count r.offset r.length room in
          let h : r.offset ≤ n = leb→le r.offset n inside in
          let (small, e) = write_count-bounds r.offset r.length room in
          let start : Range = record r { offset = n - r.offset } in
          let size : n - (n - r.offset) ≡ r.offset = omega arith in
          rw (inside, whole, inside)
            (one_round (range_bytes (take n p) start) (all_ranges_reverse (take n p) rs) room count
              (slice p (n - r.offset) count) (copy_fields_select_reverse p n rs (room - count))
              (ground (arith, length-range_bytes (take n p) start))
              (slice_of_le p (n - r.offset) count (omega arith)
                ∙ ap ok (rw size at (write_count-range_bytes p n room start (omega arith) fits)))
              (copy_fields_select_reverse-all_ranges p n rs (room - count) fits))
      | inr outside ↦
          rw (outside, whole, outside)
            (one_round [] (all_ranges_reverse (take n p) rs) room 0 (ok [])
              (copy_fields_select_reverse p n rs (room - 0)) (omega arith) (rw (take-nil room))
              (copy_fields_select_reverse-all_ranges p n rs (room - 0) fits))
    ]
