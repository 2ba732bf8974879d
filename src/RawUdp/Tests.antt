-- ===== src/RawUdp/Tests.antt =====
-- The theorems about chapter11/iphdrinc/rawudp.cpp at concrete addresses and payloads.
use network_programming_for.Base.{
  atol, ℕ, ◌+◌, ◌*◌, ◌≡◌, refl, true, List, [], ◌∷◌, some, arith, length, get_or, replicate,
}
use network_programming_for.RawUdp.Args.{
  Options, default_options, ok, is_flag, validate_args, parse_args, set_option, set_value, and_then,
  default_size,
}
use network_programming_for.RawUdp.Checksum.{checksum}
use network_programming_for.RawUdp.Headers.{
  SockAddr, Ipv4Hdr, Ipv6Hdr, UdpHdr, init_ipv4_header, ipv4_bytes,
}
use network_programming_for.RawUdp.Headers.Layout.{init_ipv4_header_verifies}
use network_programming_for.RawUdp.Packets.{Packetized, Job, packetize_ipv4, packetize_ipv6}
use network_programming_for.RawUdp.Packets.V4.{packetize_ipv4_short}
use network_programming_for.RawUdp.Packets.Reassembly.{reassemble}
use network_programming_for.RawUdp.Packets.Whole.{reassemble-packetize_ipv6}
use network_programming_for.RawUdp.Packets.Overflow.{packetize_ipv6_overflows}

-- 10.0.0.1 and 10.0.0.2, and two IPv6 addresses.
abbrev here : SockAddr
here = record {
  sa_family = 23;
  port = 7700;
  sin_addr = 16777226;
  sin6_addr = 254 ∷ 128 ∷ 0 ∷ 0 ∷ 0 ∷ 0 ∷ 0 ∷ 0 ∷ 0 ∷ 0 ∷ 0 ∷ 0 ∷ 0 ∷ 0 ∷ 0 ∷ 1 ∷ [];
}

abbrev there : SockAddr
there = record {
  sa_family = 23;
  port = 7701;
  sin_addr = 33554442;
  sin6_addr = 254 ∷ 128 ∷ 0 ∷ 0 ∷ 0 ∷ 0 ∷ 0 ∷ 0 ∷ 0 ∷ 0 ∷ 0 ∷ 0 ∷ 0 ∷ 0 ∷ 0 ∷ 2 ∷ [];
}

abbrev text : List ℕ
text = 84 ∷ 104 ∷ 105 ∷ 115 ∷ 32 ∷ []

-- An IPv6 job whose payload needs three fragments of an MTU of 64.
abbrev job : Job
job = record {
  src = here;
  dest = there;
  proto = 17;
  mtu = 64;
  fragid = 1;
  payload = replicate 80 7;
  heap_ok = λ n. true;
}

-- One with a payload that does not fit into 43 fragments of that MTU.
abbrev long_job : Job
long_job = record job { payload = replicate 729 7 }

init_ipv4_header_verifies_example : checksum (ipv4_bytes (init_ipv4_header here there 8 17 5)) ≡ 0
init_ipv4_header_verifies_example =
    init_ipv4_header_verifies here there 8 17 5 (omega arith) (omega arith)

abbrev iphdr4 : Ipv4Hdr
iphdr4 = record {
  ip_verlen = 69;
  ip_tos = 0;
  ip_totallength = 0;
  ip_id = 0;
  ip_offset = 0;
  ip_ttl = 8;
  ip_protocol = 17;
  ip_checksum = 0;
  ip_srcaddr = 16777226;
  ip_destaddr = 33554442;
}

abbrev iphdr6 : Ipv6Hdr
iphdr6 = record {
  ipv6_vertcflow = 96;
  ipv6_payloadlen = 0;
  ipv6_nexthdr = 17;
  ipv6_hoplimit = 8;
  ipv6_srcaddr = here.sin6_addr;
  ipv6_destaddr = there.sin6_addr;
}

abbrev udphdr : UdpHdr
udphdr = record { src_portno = 7700; dst_portno = 7701; udp_length = 3328; udp_checksum = 0 }

packetize_ipv4_short_example :
    (p : List ℕ) × (packetize_ipv4 here there 17 text true ≡ Packetized.packets (p ∷ []))
    × (length p ≡ 33)
    × (256 * get_or p 2 0 + get_or p 3 0 ≡ 25)
packetize_ipv4_short_example = packetize_ipv4_short here there 17 text (omega arith)

reassemble-packetize_ipv6_example : reassemble (packetize_ipv6 job) ≡ some (replicate 80 7)
reassemble-packetize_ipv6_example =
    reassemble-packetize_ipv6 job (refl, refl, λ n. refl, omega arith) (omega arith) (omega arith)
      (omega arith)

packetize_ipv6_overflows_example : packetize_ipv6 long_job ≡ Packetized.fault
packetize_ipv6_overflows_example =
    packetize_ipv6_overflows long_job (refl, refl, λ n. refl, omega arith) (omega arith)
      (omega arith) (omega arith)

-- `-n 3 -z 10` and `-a` alone.
abbrev command_line : List (List ℕ)
command_line = (45 ∷ 110 ∷ []) ∷ (51 ∷ []) ∷ (45 ∷ 122 ∷ []) ∷ (49 ∷ 48 ∷ []) ∷ []

-- What `-n 3 -z 10` sets.
abbrev options : Options
options = record default_options { send_count = 3; send_size = 10 }

validate-command_line : validate_args command_line ≡ ok options
unfolding validate_args parse_args set_option set_value is_flag and_then default_size atol
validate-command_line = refl
