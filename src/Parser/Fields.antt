-- ===== src/Parser/Fields.antt =====
-- Headers that chapter11/iphdrinc/rawudp.cpp builds, as chapter07/SIO_RCVALL/parser.cpp prints them.
use network_programming_for.Base.{
  ℕ, ◌+◌, ◌*◌, ◌/◌, ◌%◌, ◌^◌, ◌<◌, ◌≡◌, refl, List, ◌++◌, some, htons, htonl, u8, htons-htons,
  arith, length, subst, false, true, ltb, none, ◌≤◌,
}
use network_programming_for.RawUdp.Headers.{
  SockAddr, UdpHdr, init_ipv4_header, ipv4_bytes, udp_bytes,
}
use network_programming_for.Parser.{read_short, read_long}
use network_programming_for.Parser.Reads.{read_short-append}
use network_programming_for.Parser.Tcp.{UdpInfo, decode_udp_header}
use network_programming_for.Parser.Ip.{
  IpInfo, Filter, proto_count, udp, read_ip_header, decode_ip_header, is_printed, print_ip,
  decode_payload,
}
use network_programming_for.Parser.Igmp.{Message}

-- The bytes of a number, put together again.
join_short : (n : ℕ) → n % 256 + 256 * (n / 256) ≡ n
join_short n = omega arith

join_long :
    (n : ℕ)
    → n % 256 + 2 ^ 8 * (n / 256 % 256) + 2 ^ 16 * (n / 2 ^ 16 % 256) + 2 ^ 24 * (n / 2 ^ 24) ≡ n
join_long n = omega arith

pub decode-udp_bytes :
    (front rest : List ℕ) (h : UdpHdr)
    → decode_udp_header (front ++ (udp_bytes h ++ rest)) (length front)
      ≡ some (record {
        udp_src_port = htons h.src_portno;
        udp_dest_port = htons h.dst_portno;
        udp_len = htons h.udp_length;
        udp_chksum = htons h.udp_checksum;
      })
unfolding decode_udp_header read_short udp_bytes
decode-udp_bytes front rest h =
    let ys = udp_bytes h ++ rest in
    let n = length front in
    rw
      (
        read_short-append front ys 0 n (omega arith),
        read_short-append front ys 2 (n + 2) refl,
        read_short-append front ys 4 (n + 4) refl,
        read_short-append front ys 6 (n + 6) refl,
        join_short h.src_portno,
        join_short h.dst_portno,
        join_short h.udp_length,
        join_short h.udp_checksum,
      )
      refl

pub read-init_ipv4_header :
    (src dest : SockAddr) (ttl proto payloadlen : ℕ) (rest : List ℕ)
    → 20 + payloadlen < 2 ^ 16
    → read_ip_header (ipv4_bytes (init_ipv4_header src dest ttl proto payloadlen) ++ rest)
      ≡ some (record {
        ip_version = 4;
        ip_hdr_len = 20;
        ip_tos = 0;
        ip_total_len = 20 + payloadlen;
        ip_id = 0;
        ip_flags = 0;
        ip_frag_offset = 0;
        ip_ttl = u8 ttl;
        ip_proto = u8 proto;
        ip_hdr_chksum = htons (init_ipv4_header src dest ttl proto payloadlen).ip_checksum;
        ip_src = htonl src.sin_addr;
        ip_dest = htonl dest.sin_addr;
      })
unfolding read_ip_header read_short read_long ipv4_bytes init_ipv4_header
read-init_ipv4_header src dest ttl proto payloadlen rest hp =
    let h = init_ipv4_header src dest ttl proto payloadlen in
    rw
      (
        join_short (htons (20 + payloadlen)),
        htons-htons (20 + payloadlen) hp,
        join_short h.ip_checksum,
        join_long src.sin_addr,
        join_long dest.sin_addr,
      )
      refl

abbrev pub no_filter : Filter
no_filter = record { b_filter = false; srcip = 0; srcport = 0; destip = 0; destport = 0 }

-- The fields of the IP header of a packet of `PacketizeIpv4`.
abbrev pub built_ip : SockAddr → SockAddr → (ttl payloadlen : ℕ) → IpInfo
built_ip src dest ttl payloadlen = record {
  ip_version = 4;
  ip_hdr_len = 20;
  ip_tos = 0;
  ip_total_len = 20 + payloadlen;
  ip_id = 0;
  ip_flags = 0;
  ip_frag_offset = 0;
  ip_ttl = u8 ttl;
  ip_proto = 17;
  ip_hdr_chksum = htons (init_ipv4_header src dest ttl 17 payloadlen).ip_checksum;
  ip_src = htonl src.sin_addr;
  ip_dest = htonl dest.sin_addr;
}

abbrev pub built_udp : UdpHdr → UdpInfo
built_udp h = record {
  udp_src_port = htons h.src_portno;
  udp_dest_port = htons h.dst_portno;
  udp_len = htons h.udp_length;
  udp_chksum = htons h.udp_checksum;
}

length-built :
    (src dest : SockAddr) (ttl payloadlen : ℕ)
    → length (ipv4_bytes (init_ipv4_header src dest ttl 17 payloadlen)) ≡ 20
unfolding ipv4_bytes
length-built src dest ttl payloadlen = refl

-- If no filter is set and 20 plus the payload length is below 2^16, DecodeIPHeader reads from a
-- header that InitIpv4Header has built for UDP, with a UDP header and a payload behind it, version
-- 4, a header of 20 bytes, that total length, the TTL, the addresses and the checksum it was built
-- with, and from the UDP header its four fields; it returns 20.
pub decode-udp_packet :
    (src dest : SockAddr) (ttl payloadlen : ℕ) (h : UdpHdr) (payload : List ℕ) (stale : Message)
    → 20 + payloadlen < 2 ^ 16
    → decode_ip_header no_filter
        (ipv4_bytes (init_ipv4_header src dest ttl 17 payloadlen) ++ (udp_bytes h ++ payload))
        stale
      ≡ some (udp (built_ip src dest ttl payloadlen) (built_udp h), 20)
unfolding decode_ip_header is_printed print_ip decode_payload
decode-udp_packet src dest ttl payloadlen h payload stale hp =
    let front = ipv4_bytes (init_ipv4_header src dest ttl 17 payloadlen) in
    let c =
      subst (λ n. decode_udp_header (front ++ (udp_bytes h ++ payload)) n ≡ some (built_udp h))
        (length-built src dest ttl payloadlen) (decode-udp_bytes front payload h) in
    rw (read-init_ipv4_header src dest ttl 17 payloadlen (udp_bytes h ++ payload) hp, c) refl

-- If no filter is set and the protocol of an IP header that can be read is 101 or more,
-- DecodeIPHeader reads outside of the table of protocol names.
pub decode_ip_unnamed :
    (buf : List ℕ) (ip : IpInfo) (stale : Message)
    → read_ip_header buf ≡ some ip
    → 101 ≤ ip.ip_proto
    → decode_ip_header no_filter buf stale ≡ none
unfolding decode_ip_header is_printed print_ip
decode_ip_unnamed buf ip stale e h =
    let outside : ltb ip.ip_proto proto_count ≡ false = ground arith in
    let printed : is_printed no_filter buf ip ≡ some true = ground arith in
    rw (e, printed, outside) refl
