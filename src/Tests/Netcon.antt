-- ===== src/Tests/Netcon.antt =====
-- Concrete connections and messages.
use impd4e.Common.{ℕ, [], ◌∷◌, ◌++◌, ◌≡◌, ◌⊎◌, refl, true, false, ok, pos, negsuc, arith, some}
use impd4e.Range.{Text}
use impd4e.Netcon.{
  Connection, Connections, stop_read, closed_fd, connection_close, netcon_resync, connection_read,
  run_callbacks, Callback, is_cntrl, is_registered, place,
}
use impd4e.Netcon.Unique.{IsUnique, IsRegistered, netcon_resync-IsRegistered, count}
use impd4e.Netcon.Reachable.{init, next, resynced, Reachable-IsUnique}
use impd4e.Netcon.Messages.{connection_read-message}

abbrev one : Connections
one = record { sync = true; fd = pos 5 } ∷ []

Reachable-IsUnique_example :
    IsUnique one
    × ((before after : Connections) (conn : Connection)
        → one ≡ before ++ (conn ∷ after)
        → connection_close conn ≡ (some (record conn { fd = closed_fd }), stop_read conn.fd ∷ []))
unfolding netcon_resync is_registered place
Reachable-IsUnique_example = Reachable-IsUnique one (next [] one init (resynced true (pos 5) refl))

netcon_resync-IsRegistered_example :
    ((true ≡ false) × (netcon_resync true (pos 7) [] ≡ ([], [], negsuc 0)))
    ⊎ IsRegistered 7 [] (netcon_resync true (pos 7) [])
unfolding count
netcon_resync-IsRegistered_example = netcon_resync-IsRegistered true 7 [] (λ n. omega arith)

-- A callback that consumes every message and keeps it.
abbrev keep : Callback Text
keep msg s = ok (true, msg)

connection_read-message_example :
    connection_read (keep ∷ []) ((104 ∷ []) ++ (13 ∷ 10 ∷ [])) []
    ≡ run_callbacks (keep ∷ []) (104 ∷ []) []
unfolding is_cntrl
connection_read-message_example =
    connection_read-message (keep ∷ []) 104 [] (13 ∷ 10 ∷ []) [] ((omega arith, tt), last)
      (refl, (refl, tt))
  where
    last : (c : ℕ) (before : Text) → 104 ∷ [] ≡ before ++ (c ∷ []) → is_cntrl c ≡ false
    last c [] e = let same : c ≡ 104 = cc in rw same refl
    last c (x ∷ []) e = absurd (cc)
    last c (x ∷ y ∷ before) e = absurd (cc)
