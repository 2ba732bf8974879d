-- ===== src/RawUdp/Packets/Overflow.antt =====
-- `PacketizeIpv6` of chapter11/iphdrinc/rawudp.cpp: a payload for which `Packets` is too short.
use network_programming_for.Base.{
  ℕ, zero, suc, ◌+◌, ◌-◌, ◌*◌, ◌≤◌, ◌<◌, ◌≡◌, refl, ltb, ◌&&◌, true, false, length, arith,
  Bool-cases, inl, inr,
}
use network_programming_for.RawUdp.Packets.{
  Packetized, Job, udp_header, layout, packetize_loop, packetize_ipv6, first_fragment,
  next_fragment, last_fragment,
}
use network_programming_for.RawUdp.Packets.Reassembly.{IsJob}
use network_programming_for.RawUdp.Packets.Room.{nonfirst, packetize_step}
use network_programming_for.RawUdp.Packets.Whole.{udp_header_first}

no_slot : (j : Job) (n offset k : ℕ) → packetize_loop j 0 n offset k ≡ Packetized.fault
unfolding packetize_loop
no_slot j n offset k = refl

one_slot :
    (j : Job)
    → IsJob j
    → (n offset k : ℕ) → 56 ≤ j.mtu
    → packetize_loop j 1 (suc n) offset k ≡ Packetized.fault
unfolding layout udp_header
one_slot j h n offset k m = elim (Bool-cases (ltb j.mtu k)) [
  | inl more ↦
      let d = j.mtu - 48 in
      let g : (ltb j.mtu k && ltb j.mtu 48) ≡ false = ground arith in
      let s =
        packetize_step j h 0 (suc n) offset k (next_fragment j.mtu) (rw (more, nonfirst n) refl)
          g in
      let left : ltb 0 (k - d) ≡ true = ground arith in
      rw (s, left, nonfirst n) (rw (no_slot j (suc (suc n)) (offset + d) (k - d)) refl)
  | inr fits ↦
      let s =
        packetize_step j h 0 (suc n) offset k (last_fragment k) (rw (fits, nonfirst n) refl)
          (ground arith) in
      let z : ltb 0 (k - k) ≡ false = ground arith in rw (s, z, nonfirst n) refl
]

-- A full fragment in front of packets that overflow.
next_overflows :
    (j : Job)
    → IsJob j
    → 56 ≤ j.mtu
    → (slots n offset k : ℕ) → j.mtu < k
    → packetize_loop j slots (suc (suc n)) (offset + (j.mtu - 48)) (k - (j.mtu - 48))
      ≡ Packetized.fault
    → packetize_loop j (suc slots) (suc n) offset k ≡ Packetized.fault
unfolding layout udp_header
next_overflows j h m slots n offset k room rest =
    let more : ltb j.mtu k ≡ true = ground arith in
    let g : (ltb j.mtu k && ltb j.mtu 48) ≡ false = ground arith in
    let s =
      packetize_step j h slots (suc n) offset k (next_fragment j.mtu) (rw (more, nonfirst n) refl)
        g in
    let left : ltb 0 (k - (j.mtu - 48)) ≡ true = ground arith in rw (s, left, nonfirst n, rest) refl

loop_overflows :
    (j : Job)
    → IsJob j
    → 56 ≤ j.mtu
    → (full n offset k : ℕ) → full * (j.mtu - 48) + j.mtu < k
    → packetize_loop j (suc (suc full)) (suc n) offset k ≡ Packetized.fault
loop_overflows j h m zero n offset k room =
    next_overflows j h m 1 n offset k (omega arith)
      (one_slot j h (suc n) (offset + (j.mtu - 48)) (k - (j.mtu - 48)) m)
loop_overflows j h m (suc full) n offset k room =
    next_overflows j h m (suc (suc full)) n offset k (omega arith)
      (loop_overflows j h m full (suc n) (offset + (j.mtu - 48)) (k - (j.mtu - 48)) (omega arith))

-- For two IPv6 addresses, an MTU of at least 56, memory for every packet and a protocol other than
-- 44, a payload of at most 65486 bytes that is longer than 41 full fragments, a first and a last
-- one: PacketizeIpv6 writes outside of its array of packets.
pub packetize_ipv6_overflows :
    (j : Job)
    → IsJob j
    → 56 ≤ j.mtu
    → length j.payload ≤ 65486
    → 41 * (j.mtu - 48) + j.mtu + (j.mtu - 56) < length j.payload
    → packetize_ipv6 j ≡ Packetized.fault
unfolding packetize_ipv6 layout
packetize_ipv6_overflows j h m short room =
    let k = length j.payload in
    let d = j.mtu - 56 in
    let more : ltb j.mtu k ≡ true = ground arith in
    let g : (ltb j.mtu k && ltb j.mtu 56) ≡ false = ground arith in
    let s = packetize_step j h 43 0 0 k (first_fragment j.mtu) (rw more refl) g in
    let left : ltb 0 (k - d) ≡ true = ground arith in
    let (udp, size, u) = udp_header_first j h short (first_fragment j.mtu) in
    rw (s, left, u, loop_overflows j h m 41 0 (0 + d) (k - d) (omega arith)) refl
