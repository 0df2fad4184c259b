-- ===== src/Netcon/Reachable.antt =====
-- src/netcon.c: the connections from the start of the probe on, as steps.
use impd4e.Common.{
  ℕ, zero, suc, ◌+◌, ◌≤◌, List, [], ◌∷◌, ◌++◌, Bool, true, false, ◌==◌, Option, none, some,
  Option-cases, Bool-cases, ℤ, pos, negsuc, ◌≡◌, ◌≢◌, inl, inr, refl, ap, subst, arith, All,
}
use impd4e.Netcon.{
  Connection, Connections, NetEffect, closed_fd, ◌==ℤ◌, clean, place, is_registered, stop_read,
  netcon_resync, connection_close,
}
use impd4e.Netcon.Unique.{count, IsUnique, netcon_resync-IsRegistered, clean-closes}

abbrev IsSync : Connections → Type 0
IsSync conns = All (λ c. Connection.sync c ≡ true) conns

-- What happens to the connections: a call of netcon_resync, or the end of a connection that
-- read_cb finds.
pub data Step (conns conns' : Connections) : Type 0 where
  resynced :
      (memory : Bool) (fd : ℤ) → conns' ≡ (netcon_resync memory fd conns).0 → Step conns conns'
  ended :
      (before after : Connections) (conn kept : Connection) (effects : List NetEffect)
      → conns ≡ before ++ (conn ∷ after)
      → connection_close conn ≡ (some kept, effects)
      → conns' ≡ before ++ (kept ∷ after)
      → Step conns conns'

-- From no connections on, as netcon_init leaves them.
pub data Reachable : Connections → Type 0 where
  init : Reachable []
  next : (conns conns' : Connections) → Reachable conns → Step conns conns' → Reachable conns'

count-append : (n : ℕ) (xs ys : Connections) → count n (xs ++ ys) ≡ count n xs + count n ys
unfolding count
count-append n [] ys = ground arith
count-append n (x ∷ xs) ys = ground (arith, count-append n xs ys)

-- No descriptor is registered more often than before.
abbrev Fewer : Connections → Connections → Type 0
Fewer conns conns' = (m : ℕ) → count m conns' ≤ count m conns

clean-Fewer :
    (memory : Bool) (k : ℕ) (conns : Connections)
    → Fewer conns (netcon_resync memory (negsuc k) conns).0
clean-Fewer memory k conns zero =
    let (gone, closed, same) = clean-closes memory k 0 conns in omega (arith, same)
clean-Fewer memory k conns (suc m) =
    let (gone, closed, same) = clean-closes memory k m conns in omega (arith, gone)

connection_close-Fewer :
    (before after : Connections) (conn kept : Connection) (effects : List NetEffect)
    → connection_close conn ≡ (some kept, effects)
    → Fewer (before ++ (conn ∷ after)) (before ++ (kept ∷ after))
unfolding count connection_close
connection_close-Fewer before after conn kept effects e m =
    ground (arith, count-append m before (conn ∷ after), count-append m before (kept ∷ after))

Step-IsUnique : (conns conns' : Connections) → Step conns conns' → IsUnique conns → IsUnique conns'
Step-IsUnique conns conns' (resynced memory (pos n) e) unique m =
    elim (netcon_resync-IsRegistered memory n conns unique) [
      | inl (full, same) ↦ rw e (rw same (unique m))
      | inr (back, once, others, began, again) ↦ rw e (elim (Bool-cases (m == n)) [
        | inl h ↦ let same : m ≡ n = ground arith in rw same (omega (arith, once))
        | inr h ↦ let other : m ≢ n = ground arith in omega (arith, others m other, unique m)
      ])
    ]
Step-IsUnique conns conns' (resynced memory (negsuc k) e) unique m =
    rw e (omega (arith, clean-Fewer memory k conns m, unique m))
Step-IsUnique conns conns' (ended before after conn kept effects e closed e') unique m = rw e' (
    omega (
      arith,
      connection_close-Fewer before after conn kept effects closed m,
      ap (count m) e,
      unique m,
    ))

abbrev AllSync : Option Connections → Type 0
AllSync none = Unit
AllSync (some conns) = IsSync conns

place-IsSync :
    (memory : Bool) (fd : ℤ) (conns : Connections) {placed : Connections}
    → IsSync conns
    → place memory fd conns ≡ some placed
    → IsSync placed
unfolding place
place-IsSync true fd [] {placed} h e = subst (λ o. AllSync o) e (refl, tt)
place-IsSync false fd [] {placed} h e = absurd (cc)
place-IsSync memory fd (conn ∷ conns) {placed} h e = elim (Bool-cases (conn.fd ==ℤ closed_fd)) [
  | inl free ↦ subst (λ o. AllSync o) e (rw free (refl, h.1))
  | inr taken ↦ elim (Option-cases (place memory fd conns)) [
    | inl full ↦ absurd (ground arith)
    | inr (rest, found) ↦
        subst (λ o. AllSync o) e
          (rw taken (rw found (h.0, place-IsSync memory fd conns {placed = rest} h.1 found)))
  ]
]

clean-IsSync : (conns : Connections) → IsSync conns → IsSync (clean conns).0
unfolding clean
clean-IsSync [] h = tt
clean-IsSync (conn ∷ conns) h = by_fd (clean-IsSync conns h.1) conn.fd
  where
    by_fd : IsSync (clean conns).0 → (fd : ℤ) → IsSync (clean (record conn { fd = fd } ∷ conns)).0
    by_fd ih (pos zero) = (h.0, ih)
    by_fd ih (pos (suc n)) = (h.0, ih)
    by_fd ih (negsuc n) = (h.0, ih)

netcon_resync-IsSync :
    (memory : Bool) (fd : ℤ) (conns : Connections)
    → IsSync conns
    → IsSync (netcon_resync memory fd conns).0
unfolding netcon_resync
netcon_resync-IsSync memory (negsuc n) conns h = clean-IsSync conns h
netcon_resync-IsSync memory (pos n) conns h = elim (Bool-cases (is_registered (pos n) conns)) [
  | inl there ↦ rw there h
  | inr absent ↦ elim (Option-cases (place memory (pos n) conns)) [
    | inl full ↦ rw absent (rw (full, netcon_resync) h)
    | inr (placed, found) ↦
        rw absent
          (rw (found, netcon_resync) (place-IsSync memory (pos n) conns {placed = placed} h found))
  ]
]

All-at :
    (before after : Connections) (conn : Connection)
    → IsSync (before ++ (conn ∷ after))
    → conn.sync ≡ true
All-at [] after conn h = h.0
All-at (x ∷ before) after conn h = All-at before after conn h.1

All-replace :
    (before after : Connections) (conn kept : Connection)
    → IsSync (before ++ (conn ∷ after))
    → kept.sync ≡ true
    → IsSync (before ++ (kept ∷ after))
All-replace [] after conn kept h k = (k, h.1)
All-replace (x ∷ before) after conn kept h k = (h.0, All-replace before after conn kept h.1 k)

Step-IsSync : (conns conns' : Connections) → Step conns conns' → IsSync conns → IsSync conns'
unfolding connection_close
Step-IsSync conns conns' (resynced memory fd e) h = rw e (netcon_resync-IsSync memory fd conns h)
Step-IsSync conns conns' (ended before after conn kept effects e closed e') h =
    let h' : IsSync (before ++ (conn ∷ after)) = subst (λ cs. IsSync cs) e h in
    rw e' (All-replace before after conn kept h' (ground (arith, All-at before after conn h')))

reached : (conns : Connections) → Reachable conns → IsUnique conns × IsSync conns
unfolding count
reached conns init = ((λ n. omega arith), tt)
reached conns (next before after r step) =
    let (unique, sync) = reached before r in
    (Step-IsUnique before after step unique, Step-IsSync before after step sync)

-- However netcon_resync is called from the start on, and however connections end in between, no file
-- descriptor is registered twice, and a connection of the list that ends is kept as a free one: its memory is never
-- freed while the list holds it.
pub Reachable-IsUnique :
    (conns : Connections)
    → Reachable conns
    → IsUnique conns
      × ((before after : Connections) (conn : Connection)
          → conns ≡ before ++ (conn ∷ after)
          → connection_close conn ≡ (some (record conn { fd = closed_fd }), stop_read conn.fd ∷ []))
unfolding connection_close
Reachable-IsUnique conns r =
    let (unique, sync) = reached conns r in
    (unique, λ before after conn e. keeps before after conn (subst (λ cs. IsSync cs) e sync))
  where
    keeps :
        (before after : Connections) (conn : Connection)
        → IsSync (before ++ (conn ∷ after))
        → connection_close conn ≡ (some (record conn { fd = closed_fd }), stop_read conn.fd ∷ [])
    keeps before after conn h =
        let same = All-at before after conn h in rw (same, connection_close) refl
