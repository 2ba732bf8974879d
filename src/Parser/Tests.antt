-- ===== src/Parser/Tests.antt =====
-- The theorems about chapter07/SIO_RCVALL/parser.cpp at concrete packets.
use network_programming_for.Base.{ℕ, ◌≡◌, refl, List, [], ◌∷◌, ◌++◌, some, arith}
use network_programming_for.RawUdp.Headers.{
  SockAddr, UdpHdr, init_ipv4_header, ipv4_bytes, udp_bytes,
}
use network_programming_for.Parser.{read_short, read_long}
use network_programming_for.Parser.Ip.{decode_ip_header, udp, read_ip_header, IpInfo}
use network_programming_for.Parser.Igmp.{leave_group, GroupRecord, decode_igmp_header, report_v3}
use network_programming_for.Parser.Igmp.Report.{report_bytes, decode-report_bytes}
use network_programming_for.Parser.Fields.{decode-udp_packet, no_filter, built_ip, built_udp}

abbrev here : SockAddr
here = record { sa_family = 2; port = 7700; sin_addr = 16777226; sin6_addr = [] }

abbrev there : SockAddr
there = record { sa_family = 2; port = 7701; sin_addr = 33554442; sin6_addr = [] }

abbrev udphdr : UdpHdr
udphdr = record { src_portno = 7700; dst_portno = 7701; udp_length = 3328; udp_checksum = 12 }

decode-udp_packet_example :
    decode_ip_header no_filter
      (ipv4_bytes (init_ipv4_header here there 8 17 5)
        ++ (udp_bytes udphdr ++ 1 ∷ 2 ∷ 3 ∷ 4 ∷ 5 ∷ []))
      leave_group
    ≡ some (udp (built_ip here there 8 5) (built_udp udphdr), 20)
decode-udp_packet_example =
    decode-udp_packet here there 8 5 udphdr (1 ∷ 2 ∷ 3 ∷ 4 ∷ 5 ∷ []) leave_group (omega arith)

-- A header of protocol 200.
abbrev odd_packet : List ℕ
odd_packet =
    69 ∷ 0 ∷ 0 ∷ 20 ∷ 0 ∷ 0 ∷ 0 ∷ 0 ∷ 8 ∷ 200 ∷ 0 ∷ 0 ∷ 10 ∷ 0 ∷ 0 ∷ 1 ∷ 10 ∷ 0 ∷ 0 ∷ 2 ∷ []

abbrev odd_header : IpInfo
odd_header = record {
  ip_version = 4;
  ip_hdr_len = 20;
  ip_tos = 0;
  ip_total_len = 20;
  ip_id = 0;
  ip_flags = 0;
  ip_frag_offset = 0;
  ip_ttl = 8;
  ip_proto = 200;
  ip_hdr_chksum = 0;
  ip_src = 167772161;
  ip_dest = 167772162;
}

read-odd_packet : read_ip_header odd_packet ≡ some odd_header
unfolding read_ip_header read_short read_long
read-odd_packet = refl

-- Two groups, the first with two sources.
abbrev records : List GroupRecord
records =
    record { rectype = 1; auxdatalen = 0; group = 3758096385; sources = 167772161 ∷ 167772162 ∷ [] }
    ∷ record { rectype = 2; auxdatalen = 0; group = 3758096386; sources = [] }
    ∷ []

decode-report_bytes_example :
    decode_igmp_header ((1 ∷ 2 ∷ []) ++ (report_bytes 5 6 records ++ 0 ∷ [])) 2 34 leave_group
    ≡ some (record { igmp_version = 3; igmp_type = 2; max_resp_time = 0; body = report_v3 records })
decode-report_bytes_example =
    decode-report_bytes (1 ∷ 2 ∷ []) (0 ∷ []) 5 6 34 records leave_group (omega arith) (omega arith)
      (omega arith)
      (
        (omega arith, omega arith, (omega arith, (omega arith, tt))),
        ((omega arith, omega arith, tt), tt),
      )
