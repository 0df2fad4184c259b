-- ===== src/Logger/Filter.antt =====
-- What the filters match.
use impd4e.Common.{
  arith, ℕ, List, [], ◌∷◌, ◌++◌, Bool, true, false, ◌≡◌, ◌≢◌, refl, ap, sym, ◌∙◌, ◌⊎◌, inl, inr,
  ◌↔◌, Bool-cases, All, ◌==◌, Outcome-cases, ok,
}
use mathlib.Core.Path.{subst}
use impd4e.Range.{Text}
use impd4e.Logger.{matches, is_empty, search, is_match, is_filter}

-- The text is the filter, or begins with what stands in the filter before an asterisk.
abbrev pub Matches : Text → Text → Type 0
Matches f s =
    (f ≡ s)
    ⊎ ((start : Text) × (rest : Text) × (end : Text) × (f ≡ start ++ (b'*' ∷ rest))
        × (s ≡ start ++ end))

matches→Matches : (f s : Text) → matches f s ≡ true → Matches f s
unfolding matches
matches→Matches [] [] h = inl refl
matches→Matches [] (d ∷ s) h = absurd (cc)
matches→Matches (c ∷ f) [] h =
    let star : c ≡ b'*' = ground arith in inr ([], f, [], ap (λ x. x ∷ f) star, refl)
matches→Matches (c ∷ f) (d ∷ s) h = elim (Bool-cases (c == d)) [
  | inl same ↦
      let same' : c ≡ d = ground arith in
      elim (matches→Matches f s (ground arith)) [
        | inl e ↦ inl cc
        | inr (start, rest, end, e1, e2) ↦ inr (c ∷ start, rest, end, cc, cc)
      ]
  | inr other ↦ let star : c ≡ b'*' = ground arith in inr ([], f, d ∷ s, ap (λ x. x ∷ f) star, refl)
]

matches_refl : (s : Text) → matches s s ≡ true
unfolding matches
matches_refl [] = refl
matches_refl (c ∷ s) = ground (arith, matches_refl s)

abbrev pub NoAsterisk : Text → Type 0
NoAsterisk s = All (λ c. c ≢ b'*') s

matches_asterisk :
    (start rest end : Text)
    → NoAsterisk (start ++ end)
    → matches (start ++ (b'*' ∷ rest)) (start ++ end) ≡ true
unfolding matches
matches_asterisk [] rest [] plain = refl
matches_asterisk [] rest (d ∷ end) plain = let other : d ≢ b'*' = plain.0 in ground arith
matches_asterisk (c ∷ start) rest end plain =
    ground (arith, matches_asterisk start rest end plain.1)

Matches→matches : (f s : Text) → NoAsterisk s → Matches f s → matches f s ≡ true
Matches→matches f s plain (inl e) = rw e (matches_refl s)
Matches→matches f s plain (inr (start, rest, end, e1, e2)) =
    rw (e1, e2) (matches_asterisk start rest end (subst NoAsterisk e2 plain))

-- Some part of the text, up to its end and not empty, matches.
abbrev pub MatchesIn : Text → Text → Type 0
MatchesIn f s =
    (before : Text) × (d : ℕ) × (after : Text) × (s ≡ before ++ (d ∷ after)) × Matches f (d ∷ after)

search→MatchesIn :
    (f : Text) (d : ℕ) (s : Text) → search true f (d ∷ s) ≡ ok true → MatchesIn f (d ∷ s)
unfolding search is_empty
search→MatchesIn f d [] h = ([], d, [], refl, matches→Matches f (d ∷ []) (ground arith))
search→MatchesIn f d (d' ∷ s) h = elim (Bool-cases (matches f (d ∷ d' ∷ s))) [
  | inl here ↦ ([], d, d' ∷ s, refl, matches→Matches f (d ∷ d' ∷ s) here)
  | inr later ↦
      let (before, c, after, e, m) = search→MatchesIn f d' s (ground arith) in
      (d ∷ before, c, after, ap (λ x. d ∷ x) e, m)
]

MatchesIn→search :
    (f before : Text) (c : ℕ) (after : Text)
    → matches f (c ∷ after) ≡ true
    → search true f (before ++ (c ∷ after)) ≡ ok true
unfolding search is_empty
MatchesIn→search f [] c after m = ground arith
MatchesIn→search f (d ∷ []) c after m = ground (arith, MatchesIn→search f [] c after m)
MatchesIn→search f (d ∷ d' ∷ before) c after m =
    ground (arith, MatchesIn→search f (d' ∷ before) c after m)

search_returns :
    (all : Bool) (f : Text) (d : ℕ) (s : Text) → (found : Bool) × (search all f (d ∷ s) ≡ ok found)
unfolding search is_empty
search_returns all f d [] = elim (Bool-cases (matches f (d ∷ []))) [
  | inl h ↦ (true, rw h)
  | inr h ↦ (false, rw h)
]
search_returns all f d (d' ∷ s) = elim (Outcome-cases (search all f (d ∷ d' ∷ s))) [
  | inl found ↦ found
  | inr (why, e) ↦ absurd (let (found, e') = search_returns all f d' s in ground arith)
]

search-false : (f : Text) (d : ℕ) (s : Text) → search false f (d ∷ s) ≡ ok (matches f (d ∷ s))
unfolding search is_empty
search-false f d s = elim (Bool-cases (matches f (d ∷ s))) [ inl h ↦ rw h | inr h ↦ ground arith ]

-- What a filter accepts: with no asterisk before it, it matches the whole name; with one, a part
-- of it up to its end; and an asterisk alone accepts every name.
unfoldable pub Accepts : Text → Text → Type 0
Accepts [] s = Matches [] s
Accepts (c ∷ f) s = ((c ≢ b'*') × Matches (c ∷ f) s) ⊎ ((c ≡ b'*') × ((f ≡ []) ⊎ MatchesIn f s))

unfoldable pub AnyAccepts : List Text → Text → Type 0
AnyAccepts [] s = ⊥
AnyAccepts (value ∷ list) s = Accepts value s ⊎ AnyAccepts list s

whole_name :
    (f : Text) (d : ℕ) (s : Text) {found : Bool}
    → NoAsterisk (d ∷ s)
    → search false f (d ∷ s) ≡ ok found
    → (found ≡ true) ↔ Matches f (d ∷ s)
whole_name f d s {found} plain e =
    let same : matches f (d ∷ s) ≡ found = ground (arith, search-false f d s) in
    (λ h. matches→Matches f (d ∷ s) (same ∙ h), λ m. sym same ∙ Matches→matches f (d ∷ s) plain m)

NoAsterisk-behind : (before after : Text) → NoAsterisk (before ++ after) → NoAsterisk after
NoAsterisk-behind [] after plain = plain
NoAsterisk-behind (c ∷ before) after plain = NoAsterisk-behind before after plain.1

MatchesIn-search :
    (f : Text) (d : ℕ) (s : Text)
    → NoAsterisk (d ∷ s)
    → MatchesIn f (d ∷ s)
    → search true f (d ∷ s) ≡ ok true
MatchesIn-search f d s plain (before, c, after, e, m) = rw e (
    MatchesIn→search f before c after (
      Matches→matches f (c ∷ after)
        (NoAsterisk-behind before (c ∷ after) (subst NoAsterisk e plain)) m))

part_of_name :
    (f : Text) (d : ℕ) (s : Text) {found : Bool}
    → NoAsterisk (d ∷ s)
    → search true f (d ∷ s) ≡ ok found
    → (found ≡ true) ↔ MatchesIn f (d ∷ s)
part_of_name f d s {found} plain e = (
  λ h. search→MatchesIn f d s (ground arith),
  λ m. (let e' = MatchesIn-search f d s plain m in ground arith),
)

is_empty→[] : (f : Text) → is_empty f ≡ true → f ≡ []
unfolding is_empty
is_empty→[] [] h = refl
is_empty→[] (c ∷ f) h = absurd (cc)

is_match-Accepts :
    (value : Text) (d : ℕ) (s : Text) {found : Bool}
    → NoAsterisk (d ∷ s)
    → is_match value (d ∷ s) ≡ ok found
    → (found ≡ true) ↔ Accepts value (d ∷ s)
unfolding is_match Accepts is_empty
is_match-Accepts [] d s {found} plain e = whole_name [] d s plain e
is_match-Accepts (c ∷ f) d s {found} plain e = elim (Bool-cases (c == b'*')) [
  | inl star ↦
      let asterisk : c ≡ b'*' = ground arith in
      elim (Bool-cases (is_empty f)) [
        | inl alone ↦ (λ h. inr (asterisk, inl (is_empty→[] f alone)), λ a. ground arith)
        | inr more ↦
            let part = part_of_name f d s {found = found} plain (ground arith) in
            (
              λ h. inr (asterisk, inr (part.0 h)),
              λ a. elim a [
                | inl (ne, m) ↦ absurd (ne asterisk)
                | inr (eq', inl nothing) ↦ absurd (ground arith)
                | inr (eq', inr m) ↦ part.1 m
              ],
            )
      ]
  | inr letter ↦
      let other : c ≢ b'*' = ground arith in
      let whole = whole_name (c ∷ f) d s {found = found} plain (ground arith) in
      (
        λ h. inl (other, whole.0 h),
        λ a. elim a [ inl (ne, m) ↦ whole.1 m | inr (eq', m) ↦ absurd (other eq') ],
      )
]

is_match_returns :
    (value : Text) (d : ℕ) (s : Text) → (found : Bool) × (is_match value (d ∷ s) ≡ ok found)
unfolding is_match
is_match_returns [] d s = search_returns false [] d s
is_match_returns (c ∷ f) d s = elim (Outcome-cases (is_match (c ∷ f) (d ∷ s))) [
  | inl found ↦ found
  | inr (why, e) ↦ absurd (
      let (one, e1) = search_returns true f d s in
      let (two, e2) = search_returns false (c ∷ f) d s in ground arith)
]

-- For a function name, which is not empty and has no asterisk, is_filter returns, and finds the
-- name exactly if one of the filters accepts it: a filter with no asterisk before it matches from
-- the start, one with an asterisk matches a part up to the end, a lone asterisk accepts all; and to
-- match is to be the same, or the same up to an asterisk in the filter.
pub is_filter-AnyAccepts :
    (list : List Text) (d : ℕ) (s : Text)
    → NoAsterisk (d ∷ s)
    → (found : Bool) × (is_filter list (d ∷ s) ≡ ok found)
      × ((found ≡ true) ↔ AnyAccepts list (d ∷ s))
unfolding is_filter AnyAccepts
is_filter-AnyAccepts [] d s plain = (false, refl, (λ h. absurd (cc), λ h. absurd h))
is_filter-AnyAccepts (value ∷ list) d s plain =
    let (here, e1) = is_match_returns value d s in
    let (rest, e2, later) = is_filter-AnyAccepts list d s plain in
    let accepts = is_match-Accepts value d s {found = here} plain e1 in
    elim (Bool-cases here) [
      | inl hit ↦ (true, rw (e1, hit), (λ h. inl (accepts.0 hit), λ h. refl))
      | inr miss ↦ (
        rest,
        rw (e1, miss) e2,
        (
          λ h. inr (later.0 h),
          λ a. elim a [ inl m ↦ absurd (let h = accepts.1 m in cc) | inr m ↦ later.1 m ],
        ),
      )
    ]
