-- ===== src/Settings/File.antt =====
-- A line of the configuration file that is no heading: read_options_file_v2 and remove_comment of
-- src/settings.c, with l_trim and r_trim of src/helper.c. Text is a list of bytes with no
-- terminator.
use impd4e.Common.{
  ℕ, [], ◌∷◌, ◌++◌, Bool, true, false, ◌&&◌, leb, ◌==◌, if◌then◌else◌, ◌≡◌, refl, ap, sym, ◌∙◌,
  arith, length, All, Option, none, some, ◌+◌,
}
use impd4e.Range.{Text, is_space}

unfoldable pub remove_comment : Text → Text
remove_comment [] = []
remove_comment (c ∷ s) = let rest = remove_comment s in if c == b'#' then [] else c ∷ rest

pub l_trim : Text → Text
l_trim [] = []
l_trim (c ∷ s) = let rest = l_trim s in if is_space c then rest else c ∷ s

unfoldable pub no_text : Text → Bool
no_text [] = true
no_text (c ∷ s) = false

unfoldable pub trim_end : Text → Text
unfolding no_text
trim_end [] = []
trim_end (c ∷ s) = let rest = trim_end s in if no_text rest && is_space c then [] else c ∷ rest

-- The loop stops behind the first character, which is kept.
unfoldable pub r_trim : Text → Text
r_trim [] = []
r_trim (c ∷ s) = c ∷ trim_end s

unfoldable pub to_lower : ℕ → ℕ
to_lower c = if leb 65 c && leb c 90 then c + 32 else c

unfoldable pub make_lower : Text → Text
unfolding to_lower
make_lower [] = []
make_lower (c ∷ s) = to_lower c ∷ make_lower s

-- The line up to its first '=', and behind it, which is empty without one.
pub split_value : Text → Text × Text
split_value [] = ([], [])
split_value (c ∷ s) =
    let rest = split_value s in if c == b'=' then ([], s) else (c ∷ rest.0, rest.1)

-- What is read from a line without comment and trailing blanks: the key, without its section, and
-- the value. Lines of one character are skipped as empty ones are.
key_and_value : Text → Option (Text × Text)
unfolding l_trim r_trim trim_end make_lower split_value
key_and_value line =
    let pair = split_value line in
    if leb (length line) 1 then none else some (make_lower (l_trim (r_trim pair.0)), l_trim pair.1)

unfoldable pub read_line : Text → Option (Text × Text)
unfolding remove_comment r_trim trim_end key_and_value
read_line text = key_and_value (r_trim (remove_comment text))

abbrev pub NoComment : Text → Type 0
NoComment s = All (λ c. (c == b'#') ≡ false) s

abbrev pub Spaces : Text → Type 0
Spaces s = All (λ c. is_space c ≡ true) s

remove_comment-append :
    (s comment : Text) → NoComment s → remove_comment (s ++ (b'#' ∷ comment)) ≡ s
unfolding remove_comment
remove_comment-append [] comment plain = refl
remove_comment-append (c ∷ s) comment (p, plain) =
    rw p (ap (λ x. c ∷ x) (remove_comment-append s comment plain))

remove_comment_plain : (s : Text) → NoComment s → remove_comment s ≡ s
unfolding remove_comment
remove_comment_plain [] plain = refl
remove_comment_plain (c ∷ s) (p, plain) = rw p (ap (λ x. c ∷ x) (remove_comment_plain s plain))

Spaces-NoComment : (spaces : Text) → Spaces spaces → NoComment spaces
unfolding is_space
Spaces-NoComment [] h = tt
Spaces-NoComment (c ∷ spaces) (p, h) = (ground arith, Spaces-NoComment spaces h)

NoComment-append : (s t : Text) → NoComment s → NoComment t → NoComment (s ++ t)
NoComment-append [] t h k = k
NoComment-append (c ∷ s) t (p, h) k = (p, NoComment-append s t h k)

trim_end-Spaces : (spaces : Text) → Spaces spaces → trim_end spaces ≡ []
unfolding trim_end no_text
trim_end-Spaces [] h = refl
trim_end-Spaces (c ∷ spaces) (p, h) = rw (trim_end-Spaces spaces h, p) refl

trim_end-append : (s spaces : Text) → Spaces spaces → trim_end (s ++ spaces) ≡ trim_end s
unfolding trim_end
trim_end-append [] spaces h = trim_end-Spaces spaces h
trim_end-append (c ∷ s) spaces h = rw (trim_end-append s spaces h) refl

r_trim-append :
    (c : ℕ) (s spaces : Text) → Spaces spaces → r_trim ((c ∷ s) ++ spaces) ≡ r_trim (c ∷ s)
unfolding r_trim
r_trim-append c s spaces blank = ap (λ x. c ∷ x) (trim_end-append s spaces blank)

-- A comment behind a line, and the blanks before it, change nothing of what is read from the line,
-- which is not empty and has no comment.
read_line-append :
    (c : ℕ) (s spaces comment : Text)
    → NoComment (c ∷ s)
    → Spaces spaces
    → read_line (((c ∷ s) ++ spaces) ++ (b'#' ∷ comment)) ≡ read_line (c ∷ s)
unfolding read_line
read_line-append c s spaces comment plain blank =
    let behind =
      remove_comment-append ((c ∷ s) ++ spaces) comment
        (NoComment-append (c ∷ s) spaces plain (Spaces-NoComment spaces blank)) in
    ap key_and_value (
      ap r_trim behind
      ∙ r_trim-append c s spaces blank
      ∙ ap r_trim (sym (remove_comment_plain (c ∷ s) plain)))
