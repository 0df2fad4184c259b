-- ===== src/Tests/Hash.antt =====
-- src/hash.c and the hash functions on concrete bytes.
use impd4e.Common.{ℕ, List, [], ◌∷◌, ◌≡◌, refl, arith}
use impd4e.Hash.Bob.{bob_state-injective}
use impd4e.Hash.Bob.Mix.{State, IsWords, mix, unmix, mix_reversible}

abbrev words : State
words = record { a = 0x9e3779b9; b = 0x12345678; c = 5 }

abbrev key : List ℕ
key = 69 ∷ 17 ∷ 10 ∷ 0 ∷ 127 ∷ []

bob_state-injective_example : words ≡ words
bob_state-injective_example =
    bob_state-injective 5 key words words (omega arith, omega arith, omega arith)
      (omega arith, omega arith, omega arith) refl

mix_reversible_example :
    (unmix (mix words) ≡ words) × (mix (unmix words) ≡ words) × IsWords (unmix words)
mix_reversible_example = mix_reversible words (omega arith, omega arith, omega arith)
