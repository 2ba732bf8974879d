-- ===== src/Parser/Tcp.antt =====
-- `DecodeUDPHeader` and `DecodeTCPHeader` of chapter07/SIO_RCVALL/parser.cpp: what they print.
use network_programming_for.Base.{ℕ, ◌+◌, ◌*◌, ◌/◌, ◌%◌, ◌==◌, List, Bool, Option, some, get_elem?}
use network_programming_for.Parser.{◌>>=◌, hi_word, read_short, read_long}

pub record UdpInfo : Type 0 where
  pub udp_src_port : ℕ
  pub udp_dest_port : ℕ
  pub udp_len : ℕ
  pub udp_chksum : ℕ

unfoldable pub decode_udp_header : (buf : List ℕ) (iphdrlen : ℕ) → Option UdpInfo
decode_udp_header buf iphdrlen = do
  src ← read_short buf iphdrlen
  dest ← read_short buf (iphdrlen + 2)
  len ← read_short buf (iphdrlen + 4)
  chksum ← read_short buf (iphdrlen + 6)
  some (record { udp_src_port = src; udp_dest_port = dest; udp_len = len; udp_chksum = chksum })

pub record TcpInfo : Type 0 where
  pub src_port : ℕ
  pub dest_port : ℕ
  pub seq_num : ℕ
  pub ack_num : ℕ
  pub header_len : ℕ
  pub urg : Bool
  pub ack : Bool
  pub psh : Bool
  pub rst : Bool
  pub syn : Bool
  pub fin : Bool
  pub window_size : ℕ
  pub tcp_chksum : ℕ
  pub urgent_ptr : ℕ

-- Bit `mask` of the flags, `mask` being a power of 2.
abbrev pub has_flag : (flags mask : ℕ) → Bool
has_flag flags mask = flags / mask % 2 == 1

unfoldable pub decode_tcp_header : (buf : List ℕ) (iphdrlen : ℕ) → Option TcpInfo
decode_tcp_header buf iphdrlen = do
  src ← read_short buf iphdrlen
  dest ← read_short buf (iphdrlen + 2)
  seq ← read_long buf (iphdrlen + 4)
  acknum ← read_long buf (iphdrlen + 8)
  len ← get_elem? buf (iphdrlen + 12)
  word ← read_short buf (iphdrlen + 12)
  window ← read_short buf (iphdrlen + 14)
  chksum ← read_short buf (iphdrlen + 16)
  urgent ← read_short buf (iphdrlen + 18)
  let flags = word % 64
  some (record {
    src_port = src;
    dest_port = dest;
    seq_num = seq;
    ack_num = acknum;
    header_len = hi_word len * 4;
    urg = has_flag flags 32;
    ack = has_flag flags 16;
    psh = has_flag flags 8;
    rst = has_flag flags 4;
    syn = has_flag flags 2;
    fin = has_flag flags 1;
    window_size = window;
    tcp_chksum = chksum;
    urgent_ptr = urgent;
  })
