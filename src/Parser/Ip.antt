-- ===== src/Parser/Ip.antt =====
-- `DecodeIPHeader` of chapter07/SIO_RCVALL/parser.cpp: what it prints, and what it returns.
use network_programming_for.Base.{
  ℕ, ◌+◌, ◌*◌, ◌/◌, ◌%◌, ◌^◌, ◌==◌, ltb, ◌||◌, ◌&&◌, if◌then◌else◌, List, Bool, true, false, Option,
  none, some, get_elem?,
}
use network_programming_for.Parser.{◌>>=◌, hi_word, lo_word, read_short, read_long}
use network_programming_for.Parser.Tcp.{UdpInfo, TcpInfo, decode_udp_header, decode_tcp_header}
use network_programming_for.Parser.Igmp.{IgmpInfo, Message, decode_igmp_header}

pub record IpInfo : Type 0 where
  pub ip_version : ℕ
  pub ip_hdr_len : ℕ
  pub ip_tos : ℕ
  pub ip_total_len : ℕ
  pub ip_id : ℕ
  pub ip_flags : ℕ
  pub ip_frag_offset : ℕ
  pub ip_ttl : ℕ
  pub ip_proto : ℕ
  pub ip_hdr_chksum : ℕ
  pub ip_src : ℕ
  pub ip_dest : ℕ

-- The local variables once the header has been read.
unfoldable pub read_ip_header : List ℕ → Option IpInfo
read_ip_header buf = do
  verlen ← get_elem? buf 0
  tos ← get_elem? buf 1
  total_len ← read_short buf 2
  id ← read_short buf 4
  flags ← get_elem? buf 6
  offset ← read_short buf 6
  ttl ← get_elem? buf 8
  proto ← get_elem? buf 9
  chksum ← read_short buf 10
  src ← read_long buf 12
  dest ← read_long buf 16
  some (record {
    ip_version = hi_word verlen;
    ip_hdr_len = lo_word verlen * 4;
    ip_tos = tos;
    ip_total_len = total_len;
    ip_id = id;
    ip_flags = flags / 2 ^ 5;
    ip_frag_offset = offset % 2 ^ 13;
    ip_ttl = ttl;
    ip_proto = proto;
    ip_hdr_chksum = chksum;
    ip_src = src;
    ip_dest = dest;
  })

-- `bFilter`, and the addresses and ports to look for.
pub record Filter : Type 0 where
  pub b_filter : Bool
  pub srcip : ℕ
  pub srcport : ℕ
  pub destip : ℕ
  pub destport : ℕ

-- The ports stand at the front of what follows the IP header.
unfoldable pub matches : Filter → List ℕ → IpInfo → Option Bool
matches f buf ip = do
  ip_src_port ← read_short buf ip.ip_hdr_len
  ip_dest_port ← read_short buf (ip.ip_hdr_len + 2)
  some (
      f.srcip == ip.ip_src
      || f.srcport == ip_src_port
      || f.destip == ip.ip_dest
      || f.destport == ip_dest_port)

-- `bPrint`
unfoldable pub is_printed : Filter → List ℕ → IpInfo → Option Bool
is_printed f buf ip =
    if (ip.ip_proto == 2 || ip.ip_proto == 6 || ip.ip_proto == 17) && f.b_filter
    then matches f buf ip
    else if f.b_filter
    then some false
    else some true

pub data Decoded : Type 0 where
  hidden : Decoded
  igmp : IpInfo → IgmpInfo → Decoded
  tcp : IpInfo → TcpInfo → Decoded
  udp : IpInfo → UdpInfo → Decoded
  no_decoder : IpInfo → Decoded

-- The entries of `szProto`.
abbrev pub proto_count : ℕ
proto_count = 101

unfoldable pub decode_payload : List ℕ → IpInfo → Message → Option Decoded
decode_payload buf ip stale =
    if ip.ip_proto == 2
    then (do info ← decode_igmp_header buf ip.ip_hdr_len ip.ip_total_len stale; some (igmp ip info))
    else if ip.ip_proto == 6
    then (do info ← decode_tcp_header buf ip.ip_hdr_len; some (tcp ip info))
    else if ip.ip_proto == 17
    then (do info ← decode_udp_header buf ip.ip_hdr_len; some (udp ip info))
    else some (no_decoder ip)

-- `szProto[ip_proto]` is printed before the payload is looked at.
unfoldable pub print_ip : List ℕ → IpInfo → Message → Option Decoded
print_ip buf ip stale = if ltb ip.ip_proto proto_count then decode_payload buf ip stale else none

-- What is printed, and the length of the IP header, which is returned.
unfoldable pub decode_ip_header : Filter → List ℕ → (stale : Message) → Option (Decoded × ℕ)
decode_ip_header f buf stale = do
  ip ← read_ip_header buf
  printed ← is_printed f buf ip
  decoded ← if printed then print_ip buf ip stale else some hidden
  some (decoded, ip.ip_hdr_len)
