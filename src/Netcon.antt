-- ===== src/Netcon.antt =====
-- src/netcon.c: the connections over which the collector sends commands, and how a message that was
-- read reaches the callbacks.
--
-- File descriptors are ints, and -1 marks a free connection. What read and calloc return is an
-- argument; the calls of close, ev_io_start and ev_io_stop are listed in order. Connections are
-- those of netcon_resync; netcon_init returns before its code for a listening socket, so that
-- accept_cb and write_cb are never called. A read position is always 0, and so is a write position
-- when read_cb begins: the buffer holds what one call of read has put there.
pub mod Unique
pub mod Reachable
pub mod Messages
use impd4e.Common.{
  ℕ, zero, suc, List, [], ◌∷◌, ◌++◌, Bool, true, false, ◌||◌, ltb, leb, ◌==◌, Option, none, some,
  if◌then◌else◌, ℤ, pos, negsuc, Outcome, ok, err, or_overread, ◌>>=◌,
}
use impd4e.Range.{Text}

pub record Connection : Type 0 where
  pub sync : Bool
  pub fd : ℤ

pub data NetEffect : Type 0 where
  close_fd start_read stop_read : ℤ → NetEffect

abbrev pub closed_fd : ℤ
closed_fd = negsuc 0

infix 50 ◌==ℤ◌
abbrev pub ◌==ℤ◌ : ℤ → ℤ → Bool
pos a ==ℤ pos b = a == b
negsuc a ==ℤ negsuc b = a == b
pos a ==ℤ negsuc b = false
negsuc a ==ℤ pos b = false

abbrev pub Connections : Type 0
Connections = List Connection

-- The loop of netcon_resync without a collector: `fd > 0` is a descriptor to close.
unfoldable pub clean : Connections → Connections × List NetEffect
clean [] = ([], [])
clean (conn ∷ conns) =
    let rest = clean conns in
    elim conn.fd [
      | pos zero ↦ (conn ∷ rest.0, rest.1)
      | pos (suc n) ↦ (record conn { fd = closed_fd } ∷ rest.0, close_fd (pos (suc n)) ∷ rest.1)
      | negsuc n ↦ (conn ∷ rest.0, rest.1)
    ]

unfoldable pub is_registered : ℤ → Connections → Bool
is_registered fd [] = false
is_registered fd (conn ∷ conns) = conn.fd ==ℤ fd || is_registered fd conns

-- The first free connection, or a new one behind the last where calloc has memory for it.
unfoldable pub place : Bool → ℤ → Connections → Option Connections
place memory fd [] = if memory then some (record { sync = true; fd = fd } ∷ []) else none
place memory fd (conn ∷ conns) =
    let rest = place memory fd conns in
    if conn.fd ==ℤ closed_fd
    then some (record { sync = true; fd = fd } ∷ conns)
    else elim rest [ none ↦ none | some placed ↦ some (conn ∷ placed) ]

abbrev register : Bool → ℤ → Connections → Connections × List NetEffect × ℤ
register memory fd conns =
    if is_registered fd conns then (conns, [], pos 0) else elim (place memory fd conns) [
      | none ↦ (conns, [], negsuc 0)
      | some placed ↦ (placed, start_read fd ∷ [], pos 0)
    ]

-- The connections, what was called, and the result.
unfoldable pub netcon_resync : Bool → ℤ → Connections → Connections × List NetEffect × ℤ
unfolding is_registered place clean
netcon_resync memory (pos n) conns = register memory (pos n) conns
netcon_resync memory (negsuc n) conns = let cleaned = clean conns in (cleaned.0, cleaned.1, pos 0)

-- `none` is a connection that is freed.
unfoldable pub connection_close : Connection → Option Connection × List NetEffect
connection_close conn =
    if conn.sync
    then (some (record conn { fd = closed_fd }), stop_read conn.fd ∷ [])
    else (none, stop_read conn.fd ∷ stop_read conn.fd ∷ close_fd conn.fd ∷ [])

-- iscntrl in the C locale.
unfoldable pub is_cntrl : ℕ → Bool
is_cntrl c = ltb c 32 || c == 127

unfoldable pub zeros : Text → Text
zeros [] = []
zeros (c ∷ s) = 0 ∷ zeros s

-- strncpy: the text up to its first zero, and zeros behind it.
unfoldable pub strncpy : Text → Text
unfolding zeros
strncpy [] = []
strncpy (c ∷ s) = let rest = strncpy s in if c == 0 then 0 ∷ zeros s else c ∷ rest

-- The loop that cuts the control characters off, from the end of the text on; with no other
-- character it reads the byte before the text.
unfoldable pub strip_cntrl : Text → Option Text
unfolding is_cntrl
strip_cntrl [] = none
strip_cntrl (c ∷ s) = elim (strip_cntrl s) [
  | some kept ↦ some (c ∷ kept)
  | none ↦ if is_cntrl c then none else some (c ∷ [])
]

-- A callback on a message and a state: whether it consumed the message, and the state then.
abbrev pub Callback : Type 0 → Type 0
Callback S = Text → S → Outcome (Bool × S)

-- What read_cb finds: an error of the event loop, a read of nothing or a failed one, or bytes.
pub data Received : Type 0 where
  event_error nothing_read : Received
  bytes_read : Text → Received

module _ {S : Type 0} where
  -- netcon_register, at the end of the list.
  unfoldable pub netcon_register : Option (Callback S) → List (Callback S) → List (Callback S)
  netcon_register none reg = reg
  netcon_register (some cmd) reg = reg ++ (cmd ∷ [])

  -- The callbacks in order, until one has consumed the message.
  unfoldable pub run_callbacks : List (Callback S) → Text → S → Outcome (Bool × S)
  run_callbacks [] msg s = ok (false, s)
  run_callbacks (cmd ∷ reg) msg s = do
    r ← cmd msg s
    let rest = run_callbacks reg msg r.1
    if r.0 then ok r else rest

  unfoldable pub connection_read : List (Callback S) → Text → S → Outcome (Bool × S)
  connection_read reg in_buf s = do
    msg ← or_overread (strip_cntrl (strncpy in_buf))
    run_callbacks reg msg s

  unfoldable pub read_cb :
      List (Callback S)
      → Received
      → Connection
      → S
      → Outcome (Option Connection × List NetEffect × S)
  read_cb reg event_error conn s = ok (some conn, [], s)
  read_cb reg nothing_read conn s = let closed = connection_close conn in ok (closed.0, closed.1, s)
  read_cb reg (bytes_read in_buf) conn s = do
    r ← connection_read reg in_buf s
    ok (some conn, [], r.1)
