-- ===== src/RawUdp/Packets/Single.antt =====
-- `PacketizeIpv6` of chapter11/iphdrinc/rawudp.cpp where it does not fragment.
use network_programming_for.Base.{
  take_all, ℕ, ◌+◌, ◌-◌, ◌≤◌, ◌≡◌, refl, ltb, List, [], ◌∷◌, ◌++◌, false, length, arith,
  length-append,
}
use network_programming_for.RawUdp.Packets.{
  Packetized, Job, layout, whole, packetize_ipv6, ip_headers, default_ttl,
}
use network_programming_for.RawUdp.Headers.{ipv6_bytes, init_ipv6_header}
use network_programming_for.RawUdp.Packets.Reassembly.{IsJob, length-ipv6_bytes}
use network_programming_for.RawUdp.Packets.Room.{packetize_step}
use network_programming_for.RawUdp.Packets.Whole.{udp_header_first}

length-whole_headers :
    (j : Job) → IsJob j → (offset k : ℕ) → length (ip_headers j offset (whole k)) ≡ 40
unfolding ip_headers init_ipv6_header
length-whole_headers j h offset k =
    let iphdr = init_ipv6_header j.src j.dest default_ttl j.proto (k + 8) in
    omega (arith, length-append (ipv6_bytes iphdr) [], length-ipv6_bytes iphdr h.0 h.1)

-- For two IPv6 addresses, memory for every packet, a protocol other than 44 and a payload of at
-- most 65486 bytes that is not longer than the MTU, PacketizeIpv6 gives one packet of 48 bytes
-- more than the payload.
pub packetize_ipv6_single :
    (j : Job)
    → IsJob j
    → length j.payload ≤ j.mtu
    → length j.payload ≤ 65486
    → (p : List ℕ) × (packetize_ipv6 j ≡ Packetized.packets (p ∷ []))
      × (length p ≡ 48 + length j.payload)
unfolding packetize_ipv6 layout
packetize_ipv6_single j h fits short =
    let k = length j.payload in
    let l = whole k in
    let inside : ltb j.mtu k ≡ false = ground arith in
    let s = packetize_step j h 43 0 0 k l (rw inside refl) (ground arith) in
    let z : ltb 0 (k - k) ≡ false = ground arith in
    let (udp, size, u) = udp_header_first j h short l in
    let all = take_all k j.payload (omega arith) in
    let headers = ip_headers j 0 l in
    let e₁ = length-append headers (udp ++ j.payload) in
    let e₂ = length-append udp j.payload in
    let e₃ = length-whole_headers j h 0 k in
    (headers ++ (udp ++ j.payload), rw (s, z, u, all) refl, omega (arith, e₁, e₂, e₃, size))
