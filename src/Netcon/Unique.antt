-- ===== src/Netcon/Unique.antt =====
-- src/netcon.c: how often a descriptor is registered, before and after a call of netcon_resync.
use impd4e.Common.{
  ℕ, zero, suc, ◌+◌, ◌≤◌, List, [], ◌∷◌, Bool, true, false, ◌==◌, none, some, Option-cases,
  Bool-cases, if◌then◌else◌, ℤ, pos, negsuc, ◌≡◌, ◌≢◌, sym, subst, ◌⊎◌, inl, inr, refl, arith,
}
use impd4e.Netcon.{
  Connections, NetEffect, close_fd, start_read, stop_read, closed_fd, ◌==ℤ◌, clean, is_registered,
  place, netcon_resync,
}

-- How many connections have the descriptor `n`.
unfoldable pub count : ℕ → Connections → ℕ
count n [] = 0
count n (conn ∷ conns) = (if conn.fd ==ℤ pos n then 1 else 0) + count n conns

count-is_registered :
    (n : ℕ) (conns : Connections) → is_registered (pos n) conns ≡ false → count n conns ≡ 0
unfolding count is_registered
count-is_registered n [] h = refl
count-is_registered n (conn ∷ conns) h = ground (arith, count-is_registered n conns)

is_registered-count :
    (n : ℕ) (conns : Connections) → is_registered (pos n) conns ≡ true → 1 ≤ count n conns
unfolding count is_registered
is_registered-count n [] h = absurd (cc)
is_registered-count n (conn ∷ conns) h = ground (arith, is_registered-count n conns)

closed-other : (fd : ℤ) (m : ℕ) → (fd ==ℤ closed_fd) ≡ true → (fd ==ℤ pos m) ≡ false
closed-other (pos n) m h = absurd (cc)
closed-other (negsuc n) m h = refl

-- The new descriptor comes in place of a free one, or behind the last.
count-place :
    (memory : Bool) (n m : ℕ) (conns : Connections) {placed : Connections}
    → place memory (pos n) conns ≡ some placed
    → count m placed ≡ (if n == m then 1 else 0) + count m conns
unfolding count place
count-place memory n m [] {placed} e = ground arith
count-place memory n m (conn ∷ conns) {placed} e = elim (Bool-cases (conn.fd ==ℤ closed_fd)) [
  | inl free ↦ ground (arith, closed-other conn.fd m free)
  | inr taken ↦ elim (Option-cases (place memory (pos n) conns)) [
    | inl full ↦ ground arith
    | inr (rest, found) ↦ ground (arith, count-place memory n m conns {placed = rest})
  ]
]

place-some :
    (fd : ℤ) (conns : Connections) → (placed : Connections) × (place true fd conns ≡ some placed)
unfolding place
place-some fd [] = (record { sync = true; fd = fd } ∷ [], refl)
place-some fd (conn ∷ conns) =
    let (rest, e) = place-some fd conns in
    elim (Bool-cases (conn.fd ==ℤ closed_fd)) [
      | inl free ↦ (record { sync = true; fd = fd } ∷ conns, rw free refl)
      | inr taken ↦ (conn ∷ rest, rw taken (rw e refl))
    ]

abbrev pub IsUnique : Connections → Type 0
IsUnique conns = (n : ℕ) → count n conns ≤ 1

abbrev pub Resynced : Type 0
Resynced = Connections × List NetEffect × ℤ

-- What a descriptor of the collector leads to: it is registered once, the others as before, and
-- a call that follows does nothing.
abbrev pub IsRegistered : ℕ → Connections → Resynced → Type 0
IsRegistered n conns r =
    (r.2 ≡ pos 0)
    × (count n r.0 ≡ 1)
    × ((m : ℕ) → m ≢ n → count m r.0 ≡ count m conns)
    × (r.1 ≡ (if is_registered (pos n) conns then [] else start_read (pos n) ∷ []))
    × ((memory : Bool) → netcon_resync memory (pos n) r.0 ≡ (r.0, [], pos 0))

resync_again :
    (n : ℕ) (conns : Connections)
    → count n conns ≡ 1
    → (memory : Bool) → netcon_resync memory (pos n) conns ≡ (conns, [], pos 0)
unfolding netcon_resync
resync_again n conns once memory = elim (Bool-cases (is_registered (pos n) conns)) [
  | inl there ↦ rw there refl
  | inr absent ↦ absurd (omega (arith, once, count-is_registered n conns absent))
]

-- netcon_resync with a descriptor of the collector, where none was registered twice: without memory for a new connection it may
-- fail and change nothing; else the descriptor is registered exactly once afterwards, every other
-- as often as before, reading starts unless it was registered, and calling it again does nothing.
pub netcon_resync-IsRegistered :
    (memory : Bool) (n : ℕ) (conns : Connections)
    → IsUnique conns
    → ((memory ≡ false) × (netcon_resync memory (pos n) conns ≡ (conns, [], negsuc 0)))
      ⊎ IsRegistered n conns (netcon_resync memory (pos n) conns)
unfolding netcon_resync
netcon_resync-IsRegistered memory n conns unique = elim (Bool-cases (is_registered (pos n) conns)) [
  | inl there ↦
      let once : count n conns ≡ 1 = omega (arith, unique n, is_registered-count n conns there) in
      let called : netcon_resync memory (pos n) conns ≡ (conns, [], pos 0) = rw there refl in
      inr (
        subst (IsRegistered n conns) (sym called)
          (refl, once, (λ m ne. refl), rw there refl, resync_again n conns once))
  | inr absent ↦ elim (Option-cases (place memory (pos n) conns)) [
    | inl full ↦ inl (no_memory memory full, rw absent (rw (full, netcon_resync) refl))
    | inr (placed, found) ↦ inr (new placed absent found)
  ]
]
  where
    no_memory : (b : Bool) → place b (pos n) conns ≡ none → b ≡ false
    no_memory true e = (let (placed, some_placed) = place-some (pos n) conns in cc)
    no_memory false e = refl

    new :
        (placed : Connections)
        → is_registered (pos n) conns ≡ false
        → place memory (pos n) conns ≡ some placed
        → IsRegistered n conns (netcon_resync memory (pos n) conns)
    new placed absent found =
        let once : count n placed ≡ 1 = ground (
          arith,
          count-place memory n n conns {placed = placed} found,
          count-is_registered n conns absent,
        ) in
        let called : netcon_resync memory (pos n) conns ≡ (placed, start_read (pos n) ∷ [], pos 0) =
          rw absent (rw (found, netcon_resync) refl) in
        subst (IsRegistered n conns) (sym called) (
          refl,
          once,
          (λ m ne. ground (arith, count-place memory n m conns {placed = placed} found)),
          rw absent refl,
          resync_again n placed once,
        )

-- How often a descriptor is closed.
pub closes : ℕ → List NetEffect → ℕ
closes n [] = 0
closes n (close_fd fd ∷ effects) = (if fd ==ℤ pos n then 1 else 0) + closes n effects
closes n (start_read fd ∷ effects) = closes n effects
closes n (stop_read fd ∷ effects) = closes n effects

-- netcon_resync without a collector: every registered descriptor above 0 is closed as often as it
-- was registered, and registered no longer.
pub clean-closes :
    (memory : Bool) (k n : ℕ) (conns : Connections)
    → let r = netcon_resync memory (negsuc k) conns in
      (count (suc n) r.0 ≡ 0)
      × (closes (suc n) r.1 ≡ count (suc n) conns)
      × (count 0 r.0 ≡ count 0 conns)
unfolding netcon_resync clean count closes
clean-closes memory k n [] = (refl, refl, refl)
clean-closes memory k n (conn ∷ conns) = by_fd conn.fd (clean-closes memory k n conns)
  where
    by_fd :
        (fd : ℤ)
        → (count (suc n) (clean conns).0 ≡ 0)
          × (closes (suc n) (clean conns).1 ≡ count (suc n) conns)
          × (count 0 (clean conns).0 ≡ count 0 conns)
        → let cs = record conn { fd = fd } ∷ conns in
          (count (suc n) (clean cs).0 ≡ 0)
          × (closes (suc n) (clean cs).1 ≡ count (suc n) cs)
          × (count 0 (clean cs).0 ≡ count 0 cs)
    by_fd (pos zero) ih = ground arith
    by_fd (pos (suc m)) ih = ground arith
    by_fd (negsuc m) ih = ground arith
