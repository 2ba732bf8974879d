-- ===== src/RawUdp/Packets/Reassembly.antt =====
-- The fragments of `PacketizeIpv6` of chapter11/iphdrinc/rawudp.cpp at the receiver.
use network_programming_for.Base.{
  ℕ, zero, suc, ◌+◌, ◌≡◌, refl, ◌≢◌, eq→==, ne→==, append_assoc, ap, sym, ◌∙◌, ◌==◌, if◌then◌else◌,
  List, [], ◌∷◌, ◌++◌, true, false, Option, none, some, length, drop, get_or, arith, length-append,
  u8,
}
use network_programming_for.RawUdp.Headers.{
  Ipv6Hdr, Ipv6FragmentHdr, ipv6_bytes, fragment_bytes, init_ipv6_header, init_ipv6_fragment_header,
}
use network_programming_for.RawUdp.Packets.{
  Packetized, Layout, Job, ip_headers, default_ttl, fragment_header_protocol,
}

-- What a packet holds behind its IPv6 header, its fragmentation header if the next header field
-- announces one, and `skip` more bytes.
unfoldable pub contents : (skip : ℕ) → List ℕ → List ℕ
contents skip packet =
    if get_or packet 6 0 == 44 then drop (40 + (8 + skip)) packet else drop (40 + skip) packet

-- The contents of the fragments behind the first.
unfoldable pub later_contents : List (List ℕ) → List ℕ
later_contents [] = []
later_contents (p ∷ ps) = contents 0 p ++ later_contents ps

-- The datagram without its UDP header, which is in the first packet.
unfoldable pub reassemble : Packetized → Option (List ℕ)
reassemble (Packetized.packets []) = some []
reassemble (Packetized.packets (p ∷ ps)) = some (contents 8 p ++ later_contents ps)
reassemble Packetized.out_of_memory = none
reassemble Packetized.fault = none

unfoldable pub later : Packetized → Option (List ℕ)
later (Packetized.packets ps) = some (later_contents ps)
later Packetized.out_of_memory = none
later Packetized.fault = none

drop-append : (n : ℕ) (xs ys : List ℕ) → length xs ≡ n → drop n (xs ++ ys) ≡ ys
drop-append zero [] ys h = refl
drop-append zero (x ∷ xs) ys h = absurd (omega arith)
drop-append (suc n) [] ys h = absurd (omega arith)
drop-append (suc n) (x ∷ xs) ys h = drop-append n xs ys (omega arith)

-- Two IPv6 addresses, memory for every packet, and a protocol that is not the fragmentation
-- header's.
abbrev pub IsJob : Job → Type 0
IsJob j =
    (length j.src.sin6_addr ≡ 16)
    × (length j.dest.sin6_addr ≡ 16)
    × ((n : ℕ) → j.heap_ok n ≡ true)
    × (u8 j.proto ≢ 44)

pub length-ipv6_bytes :
    (h : Ipv6Hdr)
    → length h.ipv6_srcaddr ≡ 16
    → length h.ipv6_destaddr ≡ 16
    → length (ipv6_bytes h) ≡ 40
unfolding ipv6_bytes
length-ipv6_bytes h s d = omega (arith, length-append h.ipv6_srcaddr h.ipv6_destaddr)

drop_headers :
    (n : ℕ) (headers udp bytes : List ℕ)
    → length headers ≡ n
    → drop (n + length udp) (headers ++ (udp ++ bytes)) ≡ bytes
drop_headers n headers udp bytes h =
    rw (sym (append_assoc headers udp bytes)) (
      drop-append (n + length udp) (headers ++ udp) bytes
        (omega (arith, length-append headers udp)))

contents_fragmented :
    (h : Ipv6Hdr) (f : Ipv6FragmentHdr)
    → length h.ipv6_srcaddr ≡ 16
    → length h.ipv6_destaddr ≡ 16
    → h.ipv6_nexthdr ≡ 44
    → (udp bytes : List ℕ)
    → contents (length udp) ((ipv6_bytes h ++ fragment_bytes f) ++ (udp ++ bytes)) ≡ bytes
unfolding contents ipv6_bytes fragment_bytes
contents_fragmented h f s d n udp bytes = rw (eq→== h.ipv6_nexthdr 44 n) (
    ap (λ k. drop k ((ipv6_bytes h ++ fragment_bytes f) ++ (udp ++ bytes))) (omega arith)
    ∙ drop_headers 48 (ipv6_bytes h ++ fragment_bytes f) udp bytes
        (omega (arith, length-append (ipv6_bytes h) (fragment_bytes f), length-ipv6_bytes h s d)))

contents_whole :
    (h : Ipv6Hdr)
    → length h.ipv6_srcaddr ≡ 16
    → length h.ipv6_destaddr ≡ 16
    → h.ipv6_nexthdr ≢ 44
    → (udp bytes : List ℕ) → contents (length udp) ((ipv6_bytes h ++ []) ++ (udp ++ bytes)) ≡ bytes
unfolding contents ipv6_bytes
contents_whole h s d n udp bytes = rw (ne→== h.ipv6_nexthdr 44 n) (
    drop_headers 40 (ipv6_bytes h ++ []) udp bytes
      (omega (arith, length-append (ipv6_bytes h) [], length-ipv6_bytes h s d)))

pub contents-fragment :
    (j : Job)
    → IsJob j
    → (offset : ℕ) (l : Layout) (udp bytes : List ℕ) → l.fragment ≡ true
    → contents (length udp) (ip_headers j offset l ++ (udp ++ bytes)) ≡ bytes
unfolding ip_headers init_ipv6_header
contents-fragment j h offset l udp bytes f = rw f (
    contents_fragmented
      (init_ipv6_header j.src j.dest default_ttl fragment_header_protocol (l.datalen + l.plushdrs))
      (init_ipv6_fragment_header offset j.proto j.fragid l.lastfragment) h.0 h.1 refl udp bytes)

pub contents-whole :
    (j : Job)
    → IsJob j
    → (offset : ℕ) (l : Layout) (udp bytes : List ℕ) → l.fragment ≡ false
    → contents (length udp) (ip_headers j offset l ++ (udp ++ bytes)) ≡ bytes
unfolding ip_headers init_ipv6_header
contents-whole j h offset l udp bytes f = rw f (
    contents_whole (init_ipv6_header j.src j.dest default_ttl j.proto (l.datalen + l.plushdrs)) h.0
      h.1 h.3 udp bytes)
