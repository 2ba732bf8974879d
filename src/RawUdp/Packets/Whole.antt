-- ===== src/RawUdp/Packets/Whole.antt =====
-- `PacketizeIpv6` of chapter11/iphdrinc/rawudp.cpp as a whole: the first packet and those behind it.
use network_programming_for.Base.{
  take_all, ℕ, ◌+◌, ◌-◌, ◌*◌, ◌≤◌, ◌≡◌, refl, ap, ◌∙◌, ltb, ◌&&◌, if◌then◌else◌, List, ◌∷◌, ◌++◌,
  true, false, some, length, take, drop, arith, subst, length-append, take-append-drop, Bool-cases,
  inl, inr, append-nil,
}
use network_programming_for.RawUdp.Headers.{
  init_ipv6_header, init_udp_header, udp_bytes, UdpHdr, Ipv6Hdr,
}
use network_programming_for.RawUdp.Udp.{
  compute_udp_pseudo_header_checksum_v6, store_checksum, max_packet, pseudo_header_v6, padding,
  mid_v6,
}
use network_programming_for.RawUdp.Packets.{
  Packetized, Layout, Job, ip_headers, udp_header, layout, packetize_ipv6, add_packet, bytes_of,
  default_ttl, fragment_header_protocol, first_fragment, whole,
}
use network_programming_for.RawUdp.Udp.Verify.{length-padding}
use network_programming_for.RawUdp.Packets.Reassembly.{
  IsJob, contents, later_contents, reassemble, later, contents-fragment, contents-whole,
}
use network_programming_for.RawUdp.Checksum.{checksum}
use network_programming_for.RawUdp.Packets.Room.{packetize_step, later-packetize_loop}

reassemble-add_packet :
    (headers udp bytes r : List ℕ) (rest : Packetized)
    → later rest ≡ some r
    → reassemble (add_packet headers (some udp) bytes rest)
      ≡ some (contents 8 (headers ++ (udp ++ bytes)) ++ r)
unfolding later later_contents reassemble
reassemble-add_packet headers udp bytes r (Packetized.packets ps) h = cc
reassemble-add_packet headers udp bytes r Packetized.out_of_memory h = cc
reassemble-add_packet headers udp bytes r Packetized.fault h = cc

length-udp_bytes : (u : UdpHdr) → length (udp_bytes u) ≡ 8
unfolding udp_bytes
length-udp_bytes u = refl

store_checksum_fits :
    (buf : List ℕ) (u : UdpHdr)
    → length buf ≤ 65535
    → (v : UdpHdr) × (store_checksum buf u ≡ some v)
unfolding store_checksum
store_checksum_fits buf u h =
    let e : ltb max_packet (length buf) ≡ false = ground arith in
    (record u { udp_checksum = checksum buf }, rw e refl)

length-pseudo_v6 :
    (h : Ipv6Hdr) (u : UdpHdr) (payload : List ℕ)
    → length h.ipv6_srcaddr ≡ 16
    → length h.ipv6_destaddr ≡ 16
    → length payload ≤ 65486
    → length
        (pseudo_header_v6 h u (length payload) ++ 0 ∷ 0 ∷ (payload ++ padding (length payload)))
      ≤ 65535
length-pseudo_v6 h u payload s d short =
    let mid = mid_v6 u (length payload) in
    let l₀ = length-append h.ipv6_srcaddr (h.ipv6_destaddr ++ mid) in
    let l₁ = length-append h.ipv6_destaddr mid in
    let l₂ =
      length-append (pseudo_header_v6 h u (length payload))
        (0 ∷ 0 ∷ (payload ++ padding (length payload))) in
    let l₃ = length-append payload (padding (length payload)) in
    omega (arith, l₀, l₁, l₂, l₃, length-padding (length payload))

pub udp_header_first :
    (j : Job)
    → IsJob j
    → length j.payload ≤ 65486
    → (l : Layout)
    → (udp : List ℕ) × (length udp ≡ 8) × (udp_header j 0 (length j.payload) l ≡ some udp)
unfolding udp_header compute_udp_pseudo_header_checksum_v6 init_ipv6_header
udp_header_first j h short l =
    let all = take_all (length j.payload) j.payload (omega arith) in
    let iphdr =
      init_ipv6_header j.src j.dest default_ttl
        (if l.fragment then fragment_header_protocol else j.proto) (l.datalen + l.plushdrs) in
    let (v, e) = store_checksum_fits _ (init_udp_header j.src j.dest (length j.payload)) (
      length-pseudo_v6 iphdr (init_udp_header j.src j.dest (length j.payload)) j.payload h.0 h.1
        short) in
    (udp_bytes v, length-udp_bytes v, rw (all, ap bytes_of e) refl)

-- The first of several fragments.
reassemble-more :
    (j : Job)
    → IsJob j
    → 56 ≤ j.mtu
    → length j.payload ≤ 65486
    → length j.payload ≤ 41 * (j.mtu - 48) + j.mtu + (j.mtu - 56)
    → ltb j.mtu (length j.payload) ≡ true
    → reassemble (packetize_ipv6 j) ≡ some j.payload
unfolding packetize_ipv6 layout
reassemble-more j h m short room more =
    let k = length j.payload in
    let d = j.mtu - 56 in
    let l = first_fragment j.mtu in
    let g : (ltb j.mtu k && ltb j.mtu 56) ≡ false = ground arith in
    let s = packetize_step j h 43 0 0 k l (rw more refl) g in
    let left : ltb 0 (k - d) ≡ true = ground arith in
    let (udp, size, u) = udp_header_first j h short l in
    let rest = later-packetize_loop j h m 41 0 (0 + d) (k - d) (ground arith) (ground arith) in
    let c = contents-fragment j h 0 l udp (take d j.payload) refl in
    let c₈ =
      subst (λ n. contents n (ip_headers j 0 l ++ (udp ++ take d j.payload)) ≡ take d j.payload)
        size c in
    let z : 0 + d ≡ d = omega arith in
    rw (s, left, u)
      (reassemble-add_packet (ip_headers j 0 l) udp (take d j.payload) (drop (0 + d) j.payload) _
          rest
        ∙ ap some (
            ap (λ ys. ys ++ drop (0 + d) j.payload) c₈
            ∙ ap (λ n. take d j.payload ++ drop n j.payload) z
            ∙ take-append-drop d j.payload))

-- For two IPv6 addresses, an MTU of at least 56, memory for every packet and a protocol other than
-- 44, a payload of at most 65486 bytes that is at most as long as 41 full fragments, a first and a
-- last one: PacketizeIpv6 ends with packets, and the contents of the packets behind their headers,
-- joined in order, are the payload.
pub reassemble-packetize_ipv6 :
    (j : Job)
    → IsJob j
    → 56 ≤ j.mtu
    → length j.payload ≤ 65486
    → length j.payload ≤ 41 * (j.mtu - 48) + j.mtu + (j.mtu - 56)
    → reassemble (packetize_ipv6 j) ≡ some j.payload
unfolding packetize_ipv6 layout reassemble later_contents
reassemble-packetize_ipv6 j h m short room = elim (Bool-cases (ltb j.mtu (length j.payload))) [
  | inl more ↦ reassemble-more j h m short room more
  | inr fits ↦
      let k = length j.payload in
      let l = whole k in
      let s = packetize_step j h 43 0 0 k l (rw fits refl) (ground arith) in
      let z : ltb 0 (k - k) ≡ false = ground arith in
      let (udp, size, u) = udp_header_first j h short l in
      let c = contents-whole j h 0 l udp (take k j.payload) refl in
      let c₈ =
        subst (λ n. contents n (ip_headers j 0 l ++ (udp ++ take k j.payload)) ≡ take k j.payload)
          size c in
      rw (s, z, u) (ap some (append-nil _ ∙ c₈ ∙ take_all k j.payload (omega arith)))
]
