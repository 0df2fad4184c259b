-- ===== src/Netcon/Messages.antt =====
-- The message that the callbacks get of what was read.
use impd4e.Common.{
  ℕ, List, [], ◌∷◌, ◌++◌, true, false, ◌==◌, none, some, Bool-cases, err, overread, ◌≡◌, ◌≢◌, inl,
  inr, refl, ap, arith, All,
}
use impd4e.Range.{Text}
use impd4e.Netcon.{is_cntrl, zeros, strncpy, strip_cntrl, Callback, run_callbacks, connection_read}

abbrev AllCntrl : Text → Type 0
AllCntrl s = All (λ c. is_cntrl c ≡ true) s

-- A text with no zero, that ends in a character which is no control character.
abbrev pub IsMessage : Text → Type 0
IsMessage s =
    All (λ c. c ≢ 0) s × ((c : ℕ) (before : Text) → s ≡ before ++ (c ∷ []) → is_cntrl c ≡ false)

zeros-none : (s : Text) → strip_cntrl (zeros s) ≡ none
unfolding strip_cntrl zeros is_cntrl
zeros-none [] = refl
zeros-none (c ∷ s) = rw (zeros-none s, strip_cntrl) refl

control-none : (s : Text) → AllCntrl s → strip_cntrl (strncpy s) ≡ none
unfolding strip_cntrl strncpy is_cntrl
control-none [] h = refl
control-none (c ∷ s) h = elim (Bool-cases (c == 0)) [
  | inl zero_byte ↦ rw zero_byte (zeros-none (c ∷ s))
  | inr other ↦ rw other (rw (control-none s h.1, strip_cntrl) (rw h.0 refl))
]

strip-message :
    (first : ℕ) (rest tail : Text)
    → All (λ c. c ≢ 0) (first ∷ rest)
    → ((c : ℕ) (before : Text) → first ∷ rest ≡ before ++ (c ∷ []) → is_cntrl c ≡ false)
    → AllCntrl tail
    → strip_cntrl (strncpy ((first ∷ rest) ++ tail)) ≡ some (first ∷ rest)
unfolding strip_cntrl strncpy
strip-message first [] tail (nonzero, h) last t =
    let there : (first == 0) ≡ false = ground arith in
    rw there (rw (control-none tail t, strip_cntrl) (rw (last first [] refl) refl))
strip-message first (second ∷ rest) tail (nonzero, h) last t =
    let there : (first == 0) ≡ false = ground arith in
    let ih =
      strip-message second rest tail h (λ c before e. last c (first ∷ before) (ap (◌∷◌ first) e))
        t in
    rw there (rw (ih, strip_cntrl) refl)

module _ {S : Type 0} where
  -- What is read as a text that is not empty, has no zero byte and ends in no control character,
  -- with control characters behind it, reaches the callbacks as exactly that text.
  pub connection_read-message :
      (reg : List (Callback S)) (first : ℕ) (rest tail : Text) (s : S)
      → IsMessage (first ∷ rest)
      → AllCntrl tail
      → connection_read reg ((first ∷ rest) ++ tail) s ≡ run_callbacks reg (first ∷ rest) s
  unfolding connection_read
  connection_read-message reg first rest tail s (h, last) t =
      rw (strip-message first rest tail h last t) refl

  -- Control characters alone, such as an empty line, make connection_read read the byte before its message.
  connection_read_overread :
      (reg : List (Callback S)) (in_buf : Text) (s : S)
      → AllCntrl in_buf
      → connection_read reg in_buf s ≡ err overread
  unfolding connection_read
  connection_read_overread reg in_buf s h = rw (control-none in_buf h) refl
