-- ===== src/Settings/Sections.antt =====
-- src/settings.c: read_options_file_v2 and read_options_file over the lines of a configuration file,
-- with the headings of its sections. The one calls the function of each option, the other stores the
-- letter of each option for later.
--
-- The variable `heading` is read uninitialised before the first heading of a file; it is an
-- argument. A heading of more than 100 characters, or a full key of 200 or more, overflows its buffer, and 200
-- options or more overflow the array of read_options_file.
use impd4e.Common.{
  ℕ, List, [], ◌∷◌, ◌++◌, Bool, ◌&&◌, ◌||◌, leb, ltb, ◌==◌, if◌then◌else◌, length, Option, none,
  some, inl, inr, ◌⊎◌, Outcome, ok, err, overflow, ◌>>=◌, ◌≡◌, refl,
}
use impd4e.Range.{Text}
use impd4e.Settings.File.{remove_comment, r_trim, make_lower, read_line}
use impd4e.Settings.Table.{
  OptFunction, is_unknown, find_opt_function_key, find_opt_function_char, find_opt_letter,
}

-- The characters of "[%[a-zA-Z0-9 _+-]]".
is_heading_char : ℕ → Bool
is_heading_char c =
    (leb b'a' c && leb c b'z')
    || (leb b'A' c && leb c b'Z')
    || (leb b'0' c && leb c b'9')
    || c == b' '
    || c == b'_'
    || c == b'+'
    || c == b'-'

heading_chars : Text → Text
unfolding is_heading_char
heading_chars [] = []
heading_chars (c ∷ s) = let rest = heading_chars s in if is_heading_char c then c ∷ rest else []

non_empty : Text → Option Text
non_empty [] = none
non_empty (c ∷ s) = some (c ∷ s)

-- sscanf on a trimmed line: a heading of at least one character behind a bracket.
unfoldable pub scan_heading : Text → Option Text
unfolding heading_chars non_empty
scan_heading [] = none
scan_heading (c ∷ s) = if c == b'[' then non_empty (heading_chars s) else none

-- What a line is: a heading, a full key and a value, or nothing.
pub data Line : Type 0 where
  heading_line : Text → Line
  option_line : Text → Text → Line
  no_line : Line

unfoldable pub line_of : Text → Text → Line
line_of heading text = elim (scan_heading (r_trim (remove_comment text))) [
  | some name ↦ heading_line (make_lower name)
  | none ↦ elim (read_line text) [
    | none ↦ no_line
    | some (key, value) ↦ option_line (heading ++ (b'.' ∷ key)) value
  ]
]

-- The calls of option functions, in order.
unfoldable pub read_options_file_v2 : Text → List Text → Outcome (List (OptFunction × Text))
read_options_file_v2 heading [] = ok []
read_options_file_v2 heading (text ∷ texts) = elim (line_of heading text) [
  | no_line ↦ read_options_file_v2 heading texts
  | heading_line name ↦
      (let rest = read_options_file_v2 name texts in
        if leb (length name) 100 then rest else err overflow)
  | option_line fullkey value ↦
      (let rest = read_options_file_v2 heading texts in
        if ltb (length fullkey) 200
        then (do calls ← rest; ok ((find_opt_function_key fullkey, value) ∷ calls))
        else err overflow)
]

-- The letters and values that are stored, in order; 0 is no letter.
unfoldable pub stored_options : Text → List Text → Outcome (List (ℕ × Text))
stored_options heading [] = ok []
stored_options heading (text ∷ texts) = elim (line_of heading text) [
  | no_line ↦ stored_options heading texts
  | heading_line name ↦
      (let rest = stored_options name texts in if leb (length name) 100 then rest else err overflow)
  | option_line fullkey value ↦
      (let rest = stored_options heading texts in
        let letter = find_opt_letter fullkey in
        if ltb (length fullkey) 200
        then (do stored ← rest; ok (if letter == 0 then stored else (letter, value) ∷ stored))
        else err overflow)
]

-- `sizeof(g_config_file_options)`, of which one entry ends the list.
abbrev pub config_file_options_size : ℕ
config_file_options_size = 200

-- More options than the array has entries for, with the one that ends the list, are written behind it.
abbrev pub into_array : List (ℕ × Text) → Outcome (List (ℕ × Text))
into_array stored = if ltb (length stored) config_file_options_size then ok stored else err overflow

unfoldable pub read_options_file : Text → List Text → Outcome (List (ℕ × Text))
unfolding stored_options
read_options_file heading texts = do stored ← stored_options heading texts; into_array stored

-- The calls of known options, and the functions that the stored letters stand for.
unfoldable pub known_calls : List (OptFunction × Text) → List (OptFunction × Text)
known_calls [] = []
known_calls ((f, value) ∷ calls) =
    let rest = known_calls calls in if is_unknown f then rest else (f, value) ∷ rest

unfoldable pub calls_of : List (ℕ × Text) → List (OptFunction × Text)
calls_of [] = []
calls_of ((letter, value) ∷ stored) = (find_opt_function_char letter, value) ∷ calls_of stored

abbrev Same : Outcome (List (ℕ × Text)) → Outcome (List (OptFunction × Text)) → Type 0
Same m m' = (do stored ← m; ok (calls_of stored)) ≡ (do calls ← m'; ok (known_calls calls))

pub Line-cases :
    (l : Line)
    → (l ≡ no_line)
      ⊎ (((name : Text) × (l ≡ heading_line name))
          ⊎ ((key : Text) × (value : Text) × (l ≡ option_line key value)))
Line-cases no_line = inl refl
Line-cases (heading_line name) = inr (inl (name, refl))
Line-cases (option_line key value) = inr (inr (key, value, refl))

-- The known options among the calls, where they fit the array of read_options_file.
abbrev pub fitting_calls : List (OptFunction × Text) → Outcome (List (OptFunction × Text))
fitting_calls calls =
    if ltb (length (known_calls calls)) 200 then ok (known_calls calls) else err overflow
