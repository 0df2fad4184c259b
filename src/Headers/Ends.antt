-- ===== src/Headers/Ends.antt =====
-- The loop of findHeaders over IPv6 options ends: each round reads further on in the packet.
use impd4e.Common.{
  ℕ, zero, suc, ◌+◌, ◌*◌, if◌then◌else◌, ◌==◌, ◌<◌, List, ◌≡◌, ◌≢◌, inl, inr, arith, Bool-cases,
  length, get_elem?, get_elem?_of_le, ok, err, no_fuel, bind_fails, Option-cases,
}
use native.Mathlib.Decide.{dec_lt}
use impd4e.Memory.{Offsets, no_header, Layers, read}
use impd4e.Headers.{
  find_transport, find_ip4, find_ip6, find_headers, skip_options, is_option, ip6hdr_ah,
  payload_offset,
}

read_lt : (p : List ℕ) (i : ℕ) {b : ℕ} → read p i ≡ ok b → i < length p
read_lt p i e = elim (dec_lt i (length p)) [
  | yes h ↦ h
  | no h ↦ ground (arith, get_elem?_of_le p i)
]

-- A round that does not return read two bytes, the second one further on.
skip_options_round :
    (fuel : ℕ) (p : List ℕ) (net offs proto : ℕ)
    → skip_options (suc fuel) p net offs proto ≡ err no_fuel
    → (offs' : ℕ) × (proto' : ℕ) × (offs < offs')
      × (net + offs' < length p)
      × (skip_options fuel p net offs' proto' ≡ err no_fuel)
unfolding skip_options
skip_options_round fuel p net offs proto e = elim (Bool-cases (is_option proto)) [
  | inr done ↦ let e' = rw (done, skip_options) at e in absurd (cc)
  | inl more ↦ elim (Option-cases (get_elem? p (net + offs + 1))) [
    | inl end ↦ let e' = rw (more, skip_options, end) at e in absurd (cc)
    | inr (size, there) ↦
        let offs' = offs + (if proto == ip6hdr_ah then size * 4 + 8 else size * 8 + 8) in
        elim (Option-cases (get_elem? p (net + offs'))) [
          | inl end ↦ let e' = rw (more, skip_options, there, end) at e in absurd (cc)
          | inr (proto', there') ↦ (
            offs',
            proto',
            ground arith,
            read_lt p (net + offs') {b = proto'} (rw there'),
            rw (more, skip_options, there, there') at e,
          )
        ]
  ]
]

-- With one round for each byte of the packet, and one more, the loop over the options ends by its
-- own test or by a read beyond the packet.
skip_options_ends :
    (fuel : ℕ) (p : List ℕ) (net offs proto : ℕ)
    → 0 < fuel
    → length p < fuel + offs
    → skip_options fuel p net offs proto ≢ err no_fuel
skip_options_ends zero p net offs proto pos h e = absurd (omega arith)
skip_options_ends (suc fuel) p net offs proto pos h e =
    let (offs', proto', further, inside, e') = skip_options_round fuel p net offs proto e in
    skip_options_ends fuel p net offs' proto' (omega arith) (omega arith) e'

find_transport-ne-no_fuel :
    (p : List ℕ) (n offs proto : ℕ) (o : Offsets) (l : Layers)
    → find_transport p n offs proto o l ≢ err no_fuel
unfolding find_transport payload_offset
find_transport-ne-no_fuel p n offs proto o l e = ground arith

read-ne-no_fuel : (p : List ℕ) (i : ℕ) → read p i ≢ err no_fuel
read-ne-no_fuel p i e = ground arith

find_ip6-ne-no_fuel :
    (p : List ℕ) (n : ℕ) (o : Offsets) (l : Layers) → find_ip6 p n o l ≢ err no_fuel
unfolding find_ip6
find_ip6-ne-no_fuel p n o l e = elim (bind_fails (read p (o.net + 6)) _ e) [
  | inl first ↦ read-ne-no_fuel p (o.net + 6) first
  | inr (proto, e1, e2) ↦
      elim (bind_fails (skip_options (length p + 1) p o.net (o.net + 40) proto) _ e2) [
        | inl loop ↦
            skip_options_ends (length p + 1) p o.net (o.net + 40) proto (omega arith) (omega arith)
              loop
        | inr (behind, e3, e4) ↦ find_transport-ne-no_fuel p n behind.0 behind.1 o _ e4
      ]
]

find_ip4-ne-no_fuel :
    (p : List ℕ) (n first : ℕ) (o : Offsets) (l : Layers) → find_ip4 p n first o l ≢ err no_fuel
unfolding find_ip4
find_ip4-ne-no_fuel p n first o l e = elim (bind_fails (read p (o.net + 9)) _ e) [
  | inl early ↦ read-ne-no_fuel p (o.net + 9) early
  | inr (proto, e1, e2) ↦ find_transport-ne-no_fuel p n _ proto o _ e2
]

-- findHeaders ends on every packet: within the rounds that the model allows for it the loop over
-- the options has returned, or has read beyond the packet.
pub find_headers-ne-no_fuel :
    (p : List ℕ) (n : ℕ) (o : Offsets) (l : Layers) → find_headers p n o l ≢ err no_fuel
unfolding find_headers
find_headers-ne-no_fuel p n o l e = elim (bind_fails (read p o.net) _ e) [
  | inl early ↦ read-ne-no_fuel p o.net early
  | inr (first, e1, e2) ↦ ground (
    arith,
    find_ip6-ne-no_fuel p n (record o { trans = no_header; payload = no_header }) l,
    find_ip4-ne-no_fuel p n first (record o { trans = no_header; payload = no_header }) l,
  )
]
