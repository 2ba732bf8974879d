-- ===== src/RawUdp/Packets.antt =====
-- `PacketizeIpv4` and `PacketizeIpv6` of chapter11/iphdrinc/rawudp.cpp. Sizes are not negative
-- and below 2^31.
pub mod Reassembly
pub mod Room
pub mod Whole
pub mod Overflow
pub mod V4
pub mod Single
use network_programming_for.Base.{
  ℕ, zero, suc, ◌+◌, ◌-◌, ◌==◌, ltb, ◌&&◌, if◌then◌else◌, List, [], ◌∷◌, ◌++◌, Bool, true, false,
  Option, none, some, length, take, drop, replicate,
}
use network_programming_for.RawUdp.Headers.{
  SockAddr, Ipv4Hdr, UdpHdr, ipv4_bytes, ipv6_bytes, fragment_bytes, udp_bytes, init_ipv4_header,
  init_ipv6_header, init_ipv6_fragment_header, init_udp_header,
}
use network_programming_for.RawUdp.Udp.{
  compute_udp_pseudo_header_checksum_v4, compute_udp_pseudo_header_checksum_v6,
}

-- `DEFAULT_TTL`, `FRAGMENT_HEADER_PROTOCOL` and `MAX_PACKET_FRAGMENTS`, 65535 / 1496 + 1.
abbrev pub default_ttl : ℕ
default_ttl = 8

abbrev pub fragment_header_protocol : ℕ
fragment_header_protocol = 44

abbrev pub max_packet_fragments : ℕ
max_packet_fragments = 44

-- What becomes of a call: the packets in front of the empty `WSABUF`, the end of the process
-- where `HeapAlloc` fails, or an access outside of an array.
pub data Packetized : Type 0 where
  packets : List (List ℕ) → Packetized
  out_of_memory : Packetized
  fault : Packetized

-- The buffer of `PacketizeIpv4` once the headers and the payload are in it.
abbrev pub ipv4_packet : Ipv4Hdr → (payload : List ℕ) → Option UdpHdr → Packetized
ipv4_packet iphdr payload none = Packetized.fault
ipv4_packet iphdr payload (some udphdr) =
    Packetized.packets ((ipv4_bytes iphdr ++ (udp_bytes udphdr ++ payload)) ∷ [])

-- `heap_ok` says whether `HeapAlloc` returns a buffer.
unfoldable pub packetize_ipv4 :
    (src dest : SockAddr) (proto : ℕ) (payload : List ℕ) (heap_ok : Bool) → Packetized
packetize_ipv4 src dest proto payload heap_ok =
    let iphdr = init_ipv4_header src dest default_ttl proto (length payload) in
    let udphdr = init_udp_header src dest (length payload) in
    if heap_ok
    then ipv4_packet iphdr payload (compute_udp_pseudo_header_checksum_v4 iphdr udphdr payload)
    else Packetized.out_of_memory

-- The variables that the four cases at the top of the loop set.
pub record Layout : Type 0 where
  pub hdrlen : ℕ
  pub datalen : ℕ
  pub plushdrs : ℕ
  pub fragment : Bool
  pub lastfragment : Bool

abbrev pub first_fragment : (mtu : ℕ) → Layout
first_fragment mtu = record {
  hdrlen = 40 + 8 + 8;
  datalen = mtu - (40 + 8 + 8);
  plushdrs = 8 + 8;
  fragment = true;
  lastfragment = false;
}

abbrev pub next_fragment : (mtu : ℕ) → Layout
next_fragment mtu = record {
  hdrlen = 40 + 8;
  datalen = mtu - (40 + 8);
  plushdrs = 8;
  fragment = true;
  lastfragment = false;
}

abbrev pub whole : (payloadlen : ℕ) → Layout
whole payloadlen = record {
  hdrlen = 40 + 8;
  datalen = payloadlen;
  plushdrs = 8;
  fragment = false;
  lastfragment = false;
}

abbrev pub last_fragment : (payloadlen : ℕ) → Layout
last_fragment payloadlen = record {
  hdrlen = 40 + 8;
  datalen = payloadlen;
  plushdrs = 8;
  fragment = true;
  lastfragment = true;
}

unfoldable pub layout : (mtu numpackets payloadlen : ℕ) → Layout
layout mtu numpackets payloadlen =
    if ltb mtu payloadlen
    then (if numpackets == 0 then first_fragment mtu else next_fragment mtu)
    else (if numpackets == 0 then whole payloadlen else last_fragment payloadlen)

-- What the calls of `PacketizeIpv6` share: the addresses, `gProtocol`, `gMtuSize`, `fragid`, the
-- payload and, for each packet, whether `HeapAlloc` returns a buffer.
pub record Job : Type 0 where
  pub src : SockAddr
  pub dest : SockAddr
  pub proto : ℕ
  pub mtu : ℕ
  pub fragid : ℕ
  pub payload : List ℕ
  pub heap_ok : ℕ → Bool

-- The IPv6 header of a packet, and the fragmentation header where there is one.
unfoldable pub ip_headers : Job → (offset : ℕ) → Layout → List ℕ
ip_headers j offset l =
    let iphdr =
      init_ipv6_header j.src j.dest default_ttl
        (if l.fragment then fragment_header_protocol else j.proto) (l.datalen + l.plushdrs) in
    ipv6_bytes iphdr
    ++ (if l.fragment
        then fragment_bytes (init_ipv6_fragment_header offset j.proto j.fragid l.lastfragment)
        else [])

abbrev pub bytes_of : Option UdpHdr → Option (List ℕ)
bytes_of none = none
bytes_of (some udphdr) = some (udp_bytes udphdr)

-- The UDP header with its checksum, in the first packet only.
unfoldable pub udp_header : Job → (numpackets payloadlen : ℕ) → Layout → Option (List ℕ)
udp_header j numpackets payloadlen l =
    let iphdr =
      init_ipv6_header j.src j.dest default_ttl
        (if l.fragment then fragment_header_protocol else j.proto) (l.datalen + l.plushdrs) in
    if numpackets == 0
    then bytes_of (
        compute_udp_pseudo_header_checksum_v6 iphdr
          (init_udp_header j.src j.dest (length j.payload)) (take payloadlen j.payload))
    else some []

abbrev pub add_packet : List ℕ → Option (List ℕ) → List ℕ → Packetized → Packetized
add_packet headers none bytes rest = Packetized.fault
add_packet headers (some udp) bytes (Packetized.packets ps) =
    Packetized.packets ((headers ++ (udp ++ bytes)) ∷ ps)
add_packet headers (some udp) bytes Packetized.out_of_memory = Packetized.out_of_memory
add_packet headers (some udp) bytes Packetized.fault = Packetized.fault

-- The empty `WSABUF` behind the last packet.
abbrev pub mark_end : (slots : ℕ) → Packetized
mark_end zero = Packetized.fault
mark_end (suc slots) = Packetized.packets []

-- `slots` entries of `Packets` are left. An MTU below the headers makes `datalen` negative, and
-- the headers and `memcpy` write outside of the buffer.
unfoldable pub packetize_loop : Job → (slots numpackets offset payloadlen : ℕ) → Packetized
packetize_loop j zero numpackets offset payloadlen = Packetized.fault
packetize_loop j (suc slots) numpackets offset payloadlen =
    let l = layout j.mtu numpackets payloadlen in
    let left = payloadlen - l.datalen in
    let rest = packetize_loop j slots (suc numpackets) (offset + l.datalen) left in
    if j.heap_ok numpackets
    then (if ltb j.mtu payloadlen && ltb j.mtu l.hdrlen
        then Packetized.fault
        else add_packet (ip_headers j offset l) (udp_header j numpackets payloadlen l)
            (take l.datalen (drop offset j.payload)) (if ltb 0 left then rest else mark_end slots))
    else Packetized.out_of_memory

unfoldable pub packetize_ipv6 : Job → Packetized
packetize_ipv6 j = packetize_loop j max_packet_fragments 0 0 (length j.payload)
