-- ===== src/Logger.antt =====
-- src/logger.c: the two filter lists, which choose the functions whose messages are written, and the
-- level. Text is a list of bytes with no terminator: `'\0' == s[i]` is the end of the list.
pub mod Filter
use impd4e.Common.{
  ℕ, List, [], ◌∷◌, ◌++◌, Bool, true, false, not, ◌&&◌, ◌||◌, ◌-◌, ltb, ◌==◌, if◌then◌else◌,
  Outcome, ok, err, overread, ◌>>=◌, ℤ, pos, negsuc,
}
use impd4e.Range.{Text}

pub record Filters : Type 0 where
  pub include_list : List Text
  pub exclude_list : List Text

-- push_filter walks to the end of the list.
pub push_filter : List Text → Text → List Text
push_filter [] value = value ∷ []
push_filter (v ∷ list) value = v ∷ push_filter list value

-- One token of logger_set_filter, which strtok never leaves empty.
pub add_filter : Filters → Text → Filters
unfolding push_filter
add_filter filters [] = filters
add_filter filters (c ∷ token) =
    if c == b'-'
    then record filters { exclude_list = push_filter filters.exclude_list token }
    else record filters { include_list = push_filter filters.include_list (c ∷ token) }

-- The inner loop and the two tests behind it.
pub matches : Text → Text → Bool
matches [] [] = true
matches [] (d ∷ s) = false
matches (c ∷ f) [] = c == b'*'
matches (c ∷ f) (d ∷ s) = let rest = matches f s in if c == d then rest else c == b'*'

pub is_empty : Text → Bool
is_empty [] = true
is_empty (c ∷ s) = false

-- The `do` loop: it goes on while `start_with_asterix`. Behind the terminator of an empty `s` it
-- reads one byte more.
pub search : Bool → Text → Text → Outcome Bool
search start_with_asterix f [] = if matches f [] then ok true else err overread
search start_with_asterix f (d ∷ s) =
    let rest = search start_with_asterix f s in
    if matches f (d ∷ s)
    then ok true
    else if not (is_empty s) && start_with_asterix
    then rest
    else ok false

-- One filter of the list; "*" alone matches anything.
pub is_match : Text → Text → Outcome Bool
is_match [] s = search false [] s
is_match (c ∷ f) s =
    if c == b'*' then (if is_empty f then ok true else search true f s) else search false (c ∷ f) s

pub is_filter : List Text → Text → Outcome Bool
is_filter [] s = ok false
is_filter (value ∷ list) s =
    let rest = is_filter list s in do found ← is_match value s; if found then ok true else rest

no_filter : List Text → Bool
no_filter [] = true
no_filter (value ∷ list) = false

pub is_logging : Filters → Text → Outcome Bool
unfolding no_filter
is_logging filters s = do
  included ← (if no_filter filters.include_list then ok true else is_filter filters.include_list s)
  excluded ←
      (if not included || no_filter filters.exclude_list
        then ok false
        else is_filter filters.exclude_list s)
  ok (included && not excluded)

abbrev pub log_n_levels : ℕ
log_n_levels = 6

-- The third assignment overwrites the second one.
pub logger_set_level : ℤ → ℤ
logger_set_level (pos level) = if ltb log_n_levels level then pos (log_n_levels - 1) else pos level
logger_set_level (negsuc n) = negsuc n
