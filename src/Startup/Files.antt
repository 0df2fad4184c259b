-- ===== src/Startup/Files.antt =====
-- What a configuration file does, against the command line with the same options.
use impd4e.Common.{
  ℕ, List, [], ◌∷◌, true, false, if◌then◌else◌, leb, ltb, ◌==◌, length, Option, some, ok, Ensures,
  returns, faults, bind_returns, err, overflow, ap, Ensures-map, Ensures-bind, Ensures-ok,
  Bool-cases, inl, inr, ◌≡◌, refl, ◌∙◌,
}
use impd4e.Range.{Text}
use impd4e.Settings.Table.{
  OptFunction, fct_unknown, find_opt_letter, find_opt_function_key, is_unknown,
  find_opt_function_char-find_opt_letter, is_unknown-find_opt_letter,
}
use impd4e.Settings.Sections.{line_of, stored_options, into_array, read_options_file, Line-cases}
use impd4e.Startup.{goes_on, ◌>>=◌, bind_same}
use impd4e.Startup.Arguments.{
  Readers, Parsed, apply_to, run_lines, opt_c, apply_option, parse_cmdline_v2,
}

-- The stored letters and values as parse_cmdline takes them: each value is the argument of its letter, an empty one for an
-- option without.
abbrev pub as_arguments : List (ℕ × Text) → List (ℕ × Option Text)
as_arguments [] = []
as_arguments ((letter, value) ∷ stored) = (letter, some value) ∷ as_arguments stored

unknown-only : (f : OptFunction) → is_unknown f ≡ true → f ≡ fct_unknown
unfolding is_unknown
unknown-only fct_unknown e = refl
unknown-only f e = absurd (cc)

module _ (io : Readers) (fuel : ℕ) where
  abbrev FollowsLines : Text → List Text → List (ℕ × Text) → Type 0
  FollowsLines heading texts stored =
      (s : Parsed)
      → run_lines io (opt_c io fuel) heading texts s
        ≡ parse_cmdline_v2 io fuel (as_arguments stored) s

  option-follows :
      (fullkey value heading : Text) (texts : List Text) (stored : List (ℕ × Text))
      → FollowsLines heading texts stored
      → (s : Parsed)
      → (do
        next ← apply_to io (opt_c io fuel) (find_opt_function_key fullkey) value s
        run_lines io (opt_c io fuel) heading texts next)
        ≡ parse_cmdline_v2 io fuel
            (as_arguments (
              if find_opt_letter fullkey == 0
              then stored
              else (find_opt_letter fullkey, value) ∷ stored))
            s
  unfolding parse_cmdline_v2 apply_option apply_to
  option-follows fullkey value heading texts stored ih s =
      elim (Bool-cases (find_opt_letter fullkey == 0)) [
        | inl none_found ↦
            let unknown =
              unknown-only (find_opt_function_key fullkey)
                (is_unknown-find_opt_letter fullkey ∙ none_found) in
            let skipped : apply_to io (opt_c io fuel) (find_opt_function_key fullkey) value s
                ≡ goes_on s =
              rw unknown refl in
            rw none_found (rw skipped (ih s))
        | inr letter ↦
            let known : is_unknown (find_opt_function_key fullkey) ≡ false =
              is_unknown-find_opt_letter fullkey ∙ letter in
            rw letter
              (rw (find_opt_function_char-find_opt_letter fullkey) (rw known (bind_same _ _ _ ih)))
      ]

  lines-follow :
      (heading : Text) (texts : List Text)
      → Ensures (FollowsLines heading texts) (stored_options heading texts)
  unfolding stored_options run_lines parse_cmdline_v2
  lines-follow heading [] = returns [] (λ s. refl)
  lines-follow heading (text ∷ texts) = elim (Line-cases (line_of heading text)) [
    | inl e ↦
        rw (e, stored_options)
          (Ensures-map _ (λ stored ih s. rw (e, run_lines) (ih s)) (lines-follow heading texts))
    | inr (inl (name, e)) ↦ elim (Bool-cases (leb (length name) 100)) [
      | inl h ↦
          rw (e, h, stored_options)
            (Ensures-map _ (λ stored ih s. rw (e, h, run_lines) (ih s)) (lines-follow name texts))
      | inr h ↦ rw (e, h, stored_options) (faults _)
    ]
    | inr (inr (fullkey, value, e)) ↦ elim (Bool-cases (ltb (length fullkey) 200)) [
      | inl h ↦
          rw (e, h, stored_options)
            (Ensures-bind (stored_options heading texts) _ (λ stored e'. returns _ (λ s.
              rw (e, h, run_lines)
                (option-follows fullkey value heading texts stored
                  (Ensures-ok (lines-follow heading texts) e') s))))
      | inr h ↦ rw (e, h, stored_options) (faults _)
    ]
  ]

  -- A configuration file does what the command line with the same options does: where its lines overflow no buffer, calling each
  -- line's function in turn is parse_cmdline_v2 on the letters and values that read_options_file stores for the
  -- file, in its order, each letter with its value as argument, an empty one where the line has none; also in where the program
  -- ends, and for files that read others.
  pub run_lines-parse_cmdline_v2 :
      (heading : Text) (texts : List Text) (s : Parsed) {stored : List (ℕ × Text)}
      → read_options_file heading texts ≡ ok stored
      → run_lines io (opt_c io fuel) heading texts s
        ≡ parse_cmdline_v2 io fuel (as_arguments stored) s
  unfolding read_options_file
  run_lines-parse_cmdline_v2 heading texts s {stored} e =
      let (found, e', fitted) = bind_returns (stored_options heading texts) into_array e in
      Ensures-ok (lines-follow heading texts) (e' ∙ ap ok (fitting_same found fitted)) s
    where
      fitting_same : (found : List (ℕ × Text)) → into_array found ≡ ok stored → found ≡ stored
      fitting_same found h = elim (Bool-cases (ltb (length found) 200)) [
        | inl fits ↦ (let both : ok found ≡ ok stored = rw fits at h in cc)
        | inr full ↦ (let both : err overflow ≡ ok stored = rw full at h in absurd (cc))
      ]
