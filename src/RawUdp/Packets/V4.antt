-- ===== src/RawUdp/Packets/V4.antt =====
-- `PacketizeIpv4` of chapter11/iphdrinc/rawudp.cpp: the packet and the length in its header.
use network_programming_for.Base.{
  ℕ, ◌+◌, ◌*◌, ◌≤◌, ◌≡◌, refl, ap, List, [], ◌∷◌, ◌++◌, true, some, length, get_or, arith,
  length-append, false, ltb,
}
use network_programming_for.RawUdp.Checksum.{checksum}
use network_programming_for.RawUdp.Headers.{
  SockAddr, Ipv4Hdr, UdpHdr, init_ipv4_header, init_udp_header, ipv4_bytes, udp_bytes,
}
use network_programming_for.RawUdp.Udp.{
  compute_udp_pseudo_header_checksum_v4, store_checksum, padding, max_packet, pseudo_header_v4,
}
use network_programming_for.RawUdp.Udp.Verify.{length-padding}
use network_programming_for.RawUdp.Packets.{Packetized, ipv4_packet, packetize_ipv4, default_ttl}

compute_v4_fits :
    (h : Ipv4Hdr) (u : UdpHdr) (payload : List ℕ)
    → length payload ≤ 65514
    → (v : UdpHdr) × (compute_udp_pseudo_header_checksum_v4 h u payload ≡ some v)
unfolding compute_udp_pseudo_header_checksum_v4 store_checksum
compute_v4_fits h u payload short =
    let buf = pseudo_header_v4 h u ++ 0 ∷ 0 ∷ (payload ++ padding (length payload)) in
    let l = length-append payload (padding (length payload)) in
    let p = length-padding (length payload) in
    let e : ltb max_packet (length buf) ≡ false = ground (arith, l, p) in
    (record u { udp_checksum = checksum buf }, rw e refl)

-- With memory for it and a payload of at most 65514 bytes, PacketizeIpv4 gives one packet of 28
-- bytes more than the payload, and the total length in its IPv4 header is 20 bytes more than the
-- payload.
pub packetize_ipv4_short :
    (src dest : SockAddr) (proto : ℕ) (payload : List ℕ)
    → length payload ≤ 65514
    → (p : List ℕ) × (packetize_ipv4 src dest proto payload true ≡ Packetized.packets (p ∷ []))
      × (length p ≡ 28 + length payload)
      × (256 * get_or p 2 0 + get_or p 3 0 ≡ 20 + length payload)
unfolding packetize_ipv4 init_ipv4_header ipv4_bytes udp_bytes
packetize_ipv4_short src dest proto payload short =
    let iphdr = init_ipv4_header src dest default_ttl proto (length payload) in
    let udphdr = init_udp_header src dest (length payload) in
    let (v, e) = compute_v4_fits iphdr udphdr payload short in
    (
      ipv4_bytes iphdr ++ (udp_bytes v ++ payload),
      ap (ipv4_packet iphdr payload) e,
      omega arith,
      omega arith,
    )
