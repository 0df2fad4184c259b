-- ===== src/Tests/Logger.antt =====
-- The filters of the logger on a function name.
use impd4e.Common.{List, [], ◌∷◌, ◌≡◌, true, Bool, ◌↔◌, arith, ok}
use impd4e.Range.{Text}
use impd4e.Logger.{is_filter}
use impd4e.Logger.Filter.{AnyAccepts, is_filter-AnyAccepts}

-- "open" and "*ip*".
abbrev filters : List Text
filters = (b'o' ∷ b'p' ∷ b'e' ∷ b'n' ∷ []) ∷ (b'*' ∷ b'i' ∷ b'p' ∷ b'*' ∷ []) ∷ []

-- "anip".
is_filter-AnyAccepts_example :
    (found : Bool) × (is_filter filters (b'a' ∷ b'n' ∷ b'i' ∷ b'p' ∷ []) ≡ ok found)
    × ((found ≡ true) ↔ AnyAccepts filters (b'a' ∷ b'n' ∷ b'i' ∷ b'p' ∷ []))
is_filter-AnyAccepts_example =
    is_filter-AnyAccepts filters b'a' (b'n' ∷ b'i' ∷ b'p' ∷ [])
      (omega arith, (omega arith, (omega arith, (omega arith, tt))))
