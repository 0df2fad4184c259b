-- ===== src/Sockets/Capture.antt =====
-- What the dispatch functions make of what a socket delivers: a run of the packet handler.
use impd4e.Common.{
  ℕ, zero, suc, ◌+◌, ◌<◌, List, [], ◌∷◌, ◌++◌, Bool, true, false, ltb, if◌then◌else◌, ℤ, pos,
  negsuc, length, take, min, length-take, Outcome, ok, err, ◌>>=◌, ◌==◌, sym, ◌≡◌, ◌⊎◌, inl, inr,
  refl, subst, ◌∙◌, arith,
}
use impd4e.Memory.{Packet}
use impd4e.Hash.{Machine}
use impd4e.Device.{Device, Options}
use impd4e.Packet.{Timeval}
use impd4e.Packet.Handler.{Handled, handle_packet}
use impd4e.Packet.Handler.Counters.{run_packets}
use impd4e.Sockets.{
  Delivered, shutdown, would_block, recv_error, datagram, Dispatched, continues, Next, fails, idle,
  received, read_next, recv_packet, dispatch_loop,
}

-- The first `k` packets that a socket delivers, up to the first round in which recv delivers none;
-- whether that round was an error, and what is left on the socket.
pub record Capture : Type 0 where
  pub packets : List (Packet × Timeval)
  pub failed : Bool
  pub left : List Delivered

unfoldable pub captured : Bool → ℕ → ℕ → List Delivered → Capture
captured peeks size zero socket = record { packets = []; failed = false; left = socket }
captured peeks size (suc k) [] = record { packets = []; failed = false; left = [] }
captured peeks size (suc k) (shutdown ∷ socket) = record {
  packets = [];
  failed = true;
  left = socket;
}
captured peeks size (suc k) (would_block ∷ socket) = record {
  packets = [];
  failed = false;
  left = socket;
}
captured peeks size (suc k) (recv_error ∷ socket) = record {
  packets = [];
  failed = true;
  left = socket;
}
captured peeks size (suc k) (datagram [] ts ∷ socket) = record {
  packets = [];
  failed = true;
  left = if peeks then datagram [] ts ∷ socket else socket;
}
captured peeks zero (suc k) (datagram (b ∷ bytes) ts ∷ socket) = record {
  packets = [];
  failed = true;
  left = socket;
}
captured peeks (suc n) (suc k) (datagram (b ∷ bytes) ts ∷ socket) =
    let rest = captured peeks (suc n) k socket in
    let packet : Packet = record {
      ptr = take (suc n) (b ∷ bytes);
      len = min (suc n) (length (b ∷ bytes));
    } in
    record rest { packets = (packet, ts) ∷ rest.packets }

-- One round, by what the calls of recv find.
abbrev after_next : Bool → ℕ → ℕ → Delivered → List Delivered → Next → Capture
after_next peeks size k delivered socket next = elim next [
  | fails stays ↦ record {
    packets = [];
    failed = true;
    left = if stays then delivered ∷ socket else socket;
  }
  | idle ↦ record { packets = []; failed = false; left = socket }
  | received bytes ts ↦
      (let rest = captured peeks size k socket in
        record rest { packets = (recv_packet bytes, ts) ∷ rest.packets })
]

not_empty : (b : ℕ) (bytes : List ℕ) → (length (b ∷ bytes) == 0) ≡ false
not_empty b bytes = ground arith

-- A datagram that is not empty, in a buffer that is not.
whole_packet :
    (peeks : Bool) (n k b : ℕ) (bytes : List ℕ) (ts : Timeval) (socket : List Delivered)
    → captured peeks (suc n) (suc k) (datagram (b ∷ bytes) ts ∷ socket)
      ≡ after_next peeks (suc n) k (datagram (b ∷ bytes) ts) socket (
          if length (take (suc n) (b ∷ bytes)) == 0
          then fails false
          else received (take (suc n) (b ∷ bytes)) ts)
unfolding captured
whole_packet peeks n k b bytes ts socket =
    let cut : min (suc n) (length (b ∷ bytes)) ≡ length (take (suc n) (b ∷ bytes)) =
      sym (length-take (suc n) (b ∷ bytes)) in
    let some_read : (length (take (suc n) (b ∷ bytes)) == 0) ≡ false = ground arith in
    rw (cut, some_read) refl

pub captured-read_next :
    (peeks : Bool) (size k : ℕ) (delivered : Delivered) (socket : List Delivered)
    → captured peeks size (suc k) (delivered ∷ socket)
      ≡ after_next peeks size k delivered socket (read_next peeks size delivered)
unfolding captured read_next
captured-read_next peeks size k shutdown socket = refl
captured-read_next peeks size k would_block socket = refl
captured-read_next peeks size k recv_error socket = refl
captured-read_next true size k (datagram [] ts) socket = refl
captured-read_next false zero k (datagram [] ts) socket = refl
captured-read_next false (suc n) k (datagram [] ts) socket = refl
captured-read_next true zero k (datagram (b ∷ bytes) ts) socket = rw (not_empty b bytes) refl
captured-read_next false zero k (datagram (b ∷ bytes) ts) socket = refl
captured-read_next true (suc n) k (datagram (b ∷ bytes) ts) socket =
    rw (not_empty b bytes) (whole_packet true n k b bytes ts socket)
captured-read_next false (suc n) k (datagram (b ∷ bytes) ts) socket =
    whole_packet false n k b bytes ts socket

-- What a dispatch function returns for a capture, from index `i` on.
abbrev pub result_of : ℕ → Capture → ℤ
result_of i capture = if capture.failed then negsuc 0 else pos (i + length capture.packets)

abbrev pub finish : ℕ → Capture → Handled → Dispatched
finish i capture r = record {
  result = result_of i capture;
  socket = capture.left;
  device = r.0;
  effects = r.1;
}

abbrev pub dispatched : Machine → Options → ℕ → Capture → Device → Outcome Dispatched
dispatched machine options i capture dev = do
  r ← run_packets machine options capture.packets dev
  ok (finish i capture r)

abbrev pub join : Handled → Handled → Handled
join here rest = (rest.0, here.1 ++ rest.1)

abbrev pub behind : Handled → Dispatched → Dispatched
behind here rest = record rest { effects = here.1 ++ rest.effects }

-- The loop goes on for the next `k` rounds, and no longer than there is something to read.
abbrev pub HasRounds : ℤ → ℕ → ℕ → List Delivered → Type 0
HasRounds max_packets i k socket =
    (j : ℕ) → j < length socket → continues max_packets (i + j) ≡ ltb j k

abbrev pub Next-cases : Next → Type 0
Next-cases n =
    ((b : Bool) × (n ≡ fails b))
    ⊎ ((n ≡ idle) ⊎ ((bytes : List ℕ) × (ts : Timeval) × (n ≡ received bytes ts)))

pub next_cases : (n : Next) → Next-cases n
next_cases (fails b) = inl (b, refl)
next_cases idle = inr (inl refl)
next_cases (received bytes ts) = inr (inr (bytes, ts, refl))

module _ (machine : Machine) (options : Options) (peeks : Bool) (size : ℕ) (max_packets : ℤ) where
  abbrev pub loop : ℕ → List Delivered → Device → Outcome Dispatched
  loop = dispatch_loop peeks (handle_packet machine options) size max_packets

  abbrev with_packet : Packet → Timeval → Capture → Capture
  with_packet packet ts capture = record capture { packets = (packet, ts) ∷ capture.packets }

  after_rest :
      (i : ℕ) (packet : Packet) (ts : Timeval) (capture : Capture) (here : Handled)
      (m : Outcome Handled)
      → (do rest ← (do r ← m; ok (finish (suc i) capture r)); ok (behind here rest)) ≡ (do
        r ← (do rest ← m; ok (join here rest))
        ok (finish i (with_packet packet ts capture) r))
  after_rest i packet ts capture here (err why) = refl
  after_rest i packet ts capture here (ok r) =
      let more : suc i + length capture.packets ≡ i + suc (length capture.packets) = omega arith in
      rw more refl

  after_packet :
      (i : ℕ) (packet : Packet) (ts : Timeval) (capture : Capture) (socket : List Delivered)
      (m : Outcome Handled)
      → ((d : Device) → loop (suc i) socket d ≡ dispatched machine options (suc i) capture d)
      → (do here ← m; rest ← loop (suc i) socket here.0; ok (behind here rest)) ≡ (do
        r ← (do
          here ← m
          rest ← run_packets machine options capture.packets here.0
          ok (join here rest))
        ok (finish i (with_packet packet ts capture) r))
  after_packet i packet ts capture socket (err why) h = refl
  after_packet i packet ts capture socket (ok here) h =
      rw (h here.0)
        (after_rest i packet ts capture here (run_packets machine options capture.packets here.0))

  continues_later :
      (i k : ℕ) (delivered : Delivered) (socket : List Delivered)
      → HasRounds max_packets i (suc k) (delivered ∷ socket)
      → HasRounds max_packets (suc i) k socket
  continues_later i k delivered socket h j lt =
      let at : i + suc j ≡ suc i + j = omega arith in
      let same : ltb (suc j) (suc k) ≡ ltb j k = ground arith in
      let lt' : suc j < length (delivered ∷ socket) = omega (arith, lt) in
      subst (λ n. continues max_packets n ≡ ltb j k) at (h (suc j) lt' ∙ same)

  continues_now :
      (i k : ℕ) (delivered : Delivered) (socket : List Delivered)
      → HasRounds max_packets i k (delivered ∷ socket)
      → continues max_packets i ≡ ltb 0 k
  continues_now i k delivered socket h =
      let at : i + 0 ≡ i = omega arith in
      let lt : 0 < length (delivered ∷ socket) = omega arith in
      subst (λ n. continues max_packets n ≡ ltb 0 k) at (h 0 lt)

  pub dispatch_loop-captured :
      (i k : ℕ) (socket : List Delivered) (dev : Device)
      → HasRounds max_packets i k socket
      → loop i socket dev ≡ dispatched machine options i (captured peeks size k socket) dev
  unfolding dispatch_loop captured run_packets
  dispatch_loop-captured i zero [] dev h =
      let none_read : i + 0 ≡ i = omega arith in rw none_read refl
  dispatch_loop-captured i (suc k) [] dev h =
      let none_read : i + 0 ≡ i = omega arith in rw none_read refl
  dispatch_loop-captured i zero (delivered ∷ socket) dev h =
      let none_read : i + 0 ≡ i = omega arith in
      let stop : continues max_packets i ≡ false = continues_now i 0 delivered socket h in
      rw none_read (rw (stop, dispatch_loop) refl)
  dispatch_loop-captured i (suc k) (delivered ∷ socket) dev h =
      let none_read : i + 0 ≡ i = omega arith in
      let go : continues max_packets i ≡ true =
        ground (arith, continues_now i (suc k) delivered socket h) in
      elim (next_cases (read_next peeks size delivered)) [
        | inl (b, e) ↦
            rw (go, dispatch_loop)
              (rw (captured-read_next peeks size k delivered socket, e, dispatch_loop) refl)
        | inr (inl e) ↦
            rw (go, dispatch_loop)
              (rw (captured-read_next peeks size k delivered socket, e, dispatch_loop)
                (rw none_read refl))
        | inr (inr (bytes, ts, e)) ↦
            rw (go, dispatch_loop)
              (rw (captured-read_next peeks size k delivered socket, e, dispatch_loop)
                (after_packet i (recv_packet bytes) ts (captured peeks size k socket) socket
                  (handle_packet machine options (recv_packet bytes) ts dev)
                  (λ d.
                    dispatch_loop-captured (suc i) k socket d
                      (continues_later i k delivered socket h))))
      ]
