-- ===== src/RawUdp/Udp.antt =====
-- The UDP checksum over the pseudo header: `ComputeUdpPseudoHeaderChecksumV4` and
-- `ComputeUdpPseudoHeaderChecksumV6` of chapter11/iphdrinc/rawudp.cpp.
pub mod Verify
use network_programming_for.Base.{
  ℕ, ◌+◌, ◌%◌, ◌==◌, ltb, if◌then◌else◌, List, [], ◌∷◌, ◌++◌, Bool, Option, none, some, length,
  htonl,
}
use network_programming_for.RawUdp.Checksum.{checksum}
use network_programming_for.RawUdp.Headers.{Ipv4Hdr, Ipv6Hdr, UdpHdr, short_bytes, long_bytes}

-- `MAX_PACKET`
abbrev pub max_packet : ℕ
max_packet = 65535

-- `pad to next 16-bit boundary`
abbrev pub padding : ℕ → List ℕ
padding payloadlen = if payloadlen % 2 == 0 then [] else 0 ∷ []

-- What stands in `buf` before the UDP checksum.
abbrev pub pseudo_header_v4 : Ipv4Hdr → UdpHdr → List ℕ
pseudo_header_v4 v4hdr udphdr =
    long_bytes v4hdr.ip_srcaddr
    ++ long_bytes v4hdr.ip_destaddr
    ++ (0 ∷ v4hdr.ip_protocol ∷ [])
    ++ short_bytes udphdr.udp_length
    ++ short_bytes udphdr.src_portno
    ++ short_bytes udphdr.dst_portno
    ++ short_bytes udphdr.udp_length

abbrev pub mid_v6 : UdpHdr → (payloadlen : ℕ) → List ℕ
mid_v6 udphdr payloadlen =
    long_bytes (htonl (payloadlen + 8))
    ++ (0 ∷ 0 ∷ 0 ∷ 17 ∷ [])
    ++ short_bytes udphdr.src_portno
    ++ short_bytes udphdr.dst_portno
    ++ short_bytes udphdr.udp_length

abbrev pub pseudo_header_v6 : Ipv6Hdr → UdpHdr → (payloadlen : ℕ) → List ℕ
pseudo_header_v6 v6hdr udphdr payloadlen =
    v6hdr.ipv6_srcaddr ++ (v6hdr.ipv6_destaddr ++ mid_v6 udphdr payloadlen)

-- The checksum of what is in `buf`, stored in the header; none where the copies write past
-- `buf[MAX_PACKET]`.
unfoldable pub store_checksum : List ℕ → UdpHdr → Option UdpHdr
store_checksum buf udphdr =
    if ltb max_packet (length buf)
    then none
    else some (record udphdr { udp_checksum = checksum buf })

unfoldable pub compute_udp_pseudo_header_checksum_v4 :
    Ipv4Hdr → UdpHdr → (payload : List ℕ) → Option UdpHdr
compute_udp_pseudo_header_checksum_v4 iphdr udphdr payload =
    store_checksum (pseudo_header_v4 iphdr udphdr ++ 0 ∷ 0 ∷ (payload ++ padding (length payload)))
      udphdr

unfoldable pub compute_udp_pseudo_header_checksum_v6 :
    Ipv6Hdr → UdpHdr → (payload : List ℕ) → Option UdpHdr
compute_udp_pseudo_header_checksum_v6 iphdr udphdr payload =
    store_checksum
      (pseudo_header_v6 iphdr udphdr (length payload)
        ++ 0 ∷ 0 ∷ (payload ++ padding (length payload)))
      udphdr
