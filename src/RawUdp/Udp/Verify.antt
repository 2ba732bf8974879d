-- ===== src/RawUdp/Udp/Verify.antt =====
-- The UDP checksum of chapter11/iphdrinc/rawudp.cpp as a receiver checks it: over the same bytes,
-- with the checksum in its place.
use network_programming_for.Base.{
  ℕ, ◌/◌, ◌%◌, ◌^◌, ◌<◌, ◌≤◌, ◌≡◌, refl, List, [], ◌∷◌, ◌++◌, arith, length, Option, none, some,
  ltb, length-append, ap, false,
}
use network_programming_for.RawUdp.Checksum.{checksum}
use network_programming_for.RawUdp.Checksum.Sum.{word_sum, word_sum-le, IsBytes}
use network_programming_for.RawUdp.Checksum.Verify.{checksum_verifies}
use network_programming_for.RawUdp.Headers.{Ipv4Hdr, UdpHdr}
use network_programming_for.RawUdp.Udp.{
  max_packet, padding, pseudo_header_v4, store_checksum, compute_udp_pseudo_header_checksum_v4,
}

-- The checksum a receiver computes over what stands before and behind the stored one.
abbrev pub received : List ℕ → Option UdpHdr → List ℕ → Option ℕ
received front none back = none
received front (some u) back =
    some (checksum (front ++ u.udp_checksum % 256 ∷ u.udp_checksum / 256 ∷ back))

IsBytes-append : (xs ys : List ℕ) → IsBytes xs → IsBytes ys → IsBytes (xs ++ ys)
IsBytes-append [] ys hx hy = hy
IsBytes-append (x ∷ xs) ys hx hy = (hx.0, IsBytes-append xs ys hx.1 hy)

IsBytes-padding : (n : ℕ) → IsBytes (padding n)
IsBytes-padding n = ground arith

pub length-padding : (n : ℕ) → length (padding n) ≡ n % 2
length-padding n = ground arith

store_checksum_verifies :
    (front back : List ℕ) (u : UdpHdr)
    → length front % 2 ≡ 0
    → length (front ++ 0 ∷ 0 ∷ back) ≤ max_packet
    → IsBytes (front ++ 0 ∷ 0 ∷ back)
    → 0 < word_sum (front ++ 0 ∷ 0 ∷ back)
    → received front (store_checksum (front ++ 0 ∷ 0 ∷ back) u) back ≡ some 0
unfolding store_checksum
store_checksum_verifies front back u even short bytes pos =
    let e : ltb max_packet (length (front ++ 0 ∷ 0 ∷ back)) ≡ false = ground arith in
    let small = word_sum-le (front ++ 0 ∷ 0 ∷ back) bytes in
    rw e (ap some (checksum_verifies front back even pos (omega (arith, small))))

-- The fields of a UDP header are 16 bits wide.
abbrev pub IsUdpHdr : UdpHdr → Type 0
IsUdpHdr u = (u.src_portno < 2 ^ 16) × (u.dst_portno < 2 ^ 16) × (u.udp_length < 2 ^ 16)

payload-IsBytes :
    (payload : List ℕ) → IsBytes payload → IsBytes (0 ∷ 0 ∷ (payload ++ padding (length payload)))
payload-IsBytes payload h =
    (omega arith, (omega arith, IsBytes-append payload _ h (IsBytes-padding (length payload))))

-- For addresses below 2^32, a protocol from 1 to 255, 16-bit fields of the UDP header and a
-- payload of at most 65514 bytes, ComputeUdpPseudoHeaderChecksumV4 stays inside of its buffer, and
-- the checksum over the pseudo header, the stored checksum and the padded payload comes out as 0.
pub compute_v4_verifies :
    (iphdr : Ipv4Hdr) (udphdr : UdpHdr) (payload : List ℕ)
    → iphdr.ip_srcaddr < 2 ^ 32
    → iphdr.ip_destaddr < 2 ^ 32
    → 0 < iphdr.ip_protocol
    → iphdr.ip_protocol < 256
    → IsUdpHdr udphdr
    → IsBytes payload
    → length payload ≤ 65514
    → received
        (pseudo_header_v4 iphdr udphdr)
        (compute_udp_pseudo_header_checksum_v4 iphdr udphdr payload)
        (payload ++ padding (length payload))
      ≡ some 0
unfolding compute_udp_pseudo_header_checksum_v4 word_sum
compute_v4_verifies iphdr udphdr payload hs hd hp hq hu hb hl =
    let back = payload ++ padding (length payload) in
    let l = length-append payload (padding (length payload)) in
    let p = length-padding (length payload) in
    let b = payload-IsBytes payload hb in
    store_checksum_verifies (pseudo_header_v4 iphdr udphdr) back udphdr refl (omega (arith, l, p))
      (ground (arith, b)) (omega arith)

abbrev pub IsAddress6 : List ℕ → Type 0
IsAddress6 a = (length a ≡ 16) × IsBytes a
