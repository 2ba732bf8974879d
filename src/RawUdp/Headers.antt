-- ===== src/RawUdp/Headers.antt =====
-- The headers of chapter11/iphdrinc/iphdr.h and the functions of rawudp.cpp that fill them in.
-- A field holds the number a little-endian machine reads there. The buffers come zeroed.
pub mod Layout
pub mod Offsets
use network_programming_for.Base.{
  ℕ, ◌+◌, ◌*◌, ◌/◌, ◌%◌, ◌^◌, ◌==◌, if◌then◌else◌, List, [], ◌∷◌, ◌++◌, Bool, true, htons, htonl,
  u8, u16, u32,
}
use network_programming_for.RawUdp.Checksum.{checksum}

-- `SOCKADDR`: the port and the IPv4 address are in network order, both families keep the port at
-- the same place.
pub record SockAddr : Type 0 where
  pub sa_family : ℕ
  pub port : ℕ
  pub sin_addr : ℕ
  pub sin6_addr : List ℕ

pub record Ipv4Hdr : Type 0 where
  pub ip_verlen : ℕ
  pub ip_tos : ℕ
  pub ip_totallength : ℕ
  pub ip_id : ℕ
  pub ip_offset : ℕ
  pub ip_ttl : ℕ
  pub ip_protocol : ℕ
  pub ip_checksum : ℕ
  pub ip_srcaddr : ℕ
  pub ip_destaddr : ℕ

pub record Ipv6Hdr : Type 0 where
  pub ipv6_vertcflow : ℕ
  pub ipv6_payloadlen : ℕ
  pub ipv6_nexthdr : ℕ
  pub ipv6_hoplimit : ℕ
  pub ipv6_srcaddr : List ℕ
  pub ipv6_destaddr : List ℕ

pub record Ipv6FragmentHdr : Type 0 where
  pub ipv6_frag_nexthdr : ℕ
  pub ipv6_frag_reserved : ℕ
  pub ipv6_frag_offset : ℕ
  pub ipv6_frag_id : ℕ

pub record UdpHdr : Type 0 where
  pub src_portno : ℕ
  pub dst_portno : ℕ
  pub udp_length : ℕ
  pub udp_checksum : ℕ

-- The bytes of an unsigned short and of an unsigned long in memory.
abbrev pub short_bytes : ℕ → List ℕ
short_bytes n = n % 256 ∷ n / 256 ∷ []

abbrev pub long_bytes : ℕ → List ℕ
long_bytes n = n % 256 ∷ n / 256 % 256 ∷ n / 2 ^ 16 % 256 ∷ n / 2 ^ 24 ∷ []

unfoldable pub ipv4_bytes : Ipv4Hdr → List ℕ
ipv4_bytes h =
    h.ip_verlen ∷ h.ip_tos ∷ short_bytes h.ip_totallength
    ++ short_bytes h.ip_id
    ++ short_bytes h.ip_offset
    ++ h.ip_ttl ∷ h.ip_protocol ∷ short_bytes h.ip_checksum
    ++ long_bytes h.ip_srcaddr
    ++ long_bytes h.ip_destaddr

unfoldable pub ipv6_bytes : Ipv6Hdr → List ℕ
ipv6_bytes h =
    long_bytes h.ipv6_vertcflow
    ++ short_bytes h.ipv6_payloadlen
    ++ h.ipv6_nexthdr ∷ h.ipv6_hoplimit ∷ h.ipv6_srcaddr
    ++ h.ipv6_destaddr

unfoldable pub fragment_bytes : Ipv6FragmentHdr → List ℕ
fragment_bytes h =
    h.ipv6_frag_nexthdr ∷ h.ipv6_frag_reserved ∷ short_bytes h.ipv6_frag_offset
    ++ long_bytes h.ipv6_frag_id

unfoldable pub udp_bytes : UdpHdr → List ℕ
udp_bytes h =
    short_bytes h.src_portno
    ++ short_bytes h.dst_portno
    ++ short_bytes h.udp_length
    ++ short_bytes h.udp_checksum

-- `InitIpv4Header` but for the checksum.
abbrev pub unchecked_ipv4_header : SockAddr → SockAddr → (ttl proto payloadlen : ℕ) → Ipv4Hdr
unchecked_ipv4_header src dest ttl proto payloadlen = record {
  ip_verlen = 69;
  ip_tos = 0;
  ip_totallength = htons (20 + payloadlen);
  ip_id = 0;
  ip_offset = 0;
  ip_ttl = u8 ttl;
  ip_protocol = u8 proto;
  ip_checksum = 0;
  ip_srcaddr = src.sin_addr;
  ip_destaddr = dest.sin_addr;
}

unfoldable pub init_ipv4_header : SockAddr → SockAddr → (ttl proto payloadlen : ℕ) → Ipv4Hdr
init_ipv4_header src dest ttl proto payloadlen =
    let h = unchecked_ipv4_header src dest ttl proto payloadlen in
    record h { ip_checksum = checksum (ipv4_bytes h) }

unfoldable pub init_ipv6_header : SockAddr → SockAddr → (ttl proto payloadlen : ℕ) → Ipv6Hdr
init_ipv6_header src dest ttl proto payloadlen = record {
  ipv6_vertcflow = htonl (6 * 2 ^ 28);
  ipv6_payloadlen = htons (u16 payloadlen);
  ipv6_nexthdr = u8 proto;
  ipv6_hoplimit = u8 ttl;
  ipv6_srcaddr = src.sin6_addr;
  ipv6_destaddr = dest.sin6_addr;
}

-- `(((offset/8) << 3) | lastfragment)`, the flag turned round.
unfoldable pub fragment_offset : ℕ → (lastfragment : Bool) → ℕ
fragment_offset offset lastfragment =
    let total = if offset == 0 then offset else u32 (offset + 8) in
    total / 8 * 8 + (if lastfragment then 0 else 1)

unfoldable pub init_ipv6_fragment_header :
    (offset nextproto id : ℕ) → (lastfragment : Bool) → Ipv6FragmentHdr
init_ipv6_fragment_header offset nextproto id lastfragment = record {
  ipv6_frag_nexthdr = u8 nextproto;
  ipv6_frag_reserved = 0;
  ipv6_frag_offset = htons (u16 (fragment_offset offset lastfragment));
  ipv6_frag_id = htonl id;
}

-- `AF_INET` is 2 and `AF_INET6` is 23; any other family leaves the ports of the zeroed buffer.
unfoldable pub init_udp_header : SockAddr → SockAddr → (payloadlen : ℕ) → UdpHdr
init_udp_header src dest payloadlen =
    let known = if src.sa_family == 2 then true else src.sa_family == 23 in
    record {
      src_portno = if known then src.port else 0;
      dst_portno = if known then dest.port else 0;
      udp_length = htons (8 + payloadlen);
      udp_checksum = 0;
    }
