-- ===== src/RawUdp/Headers/Layout.antt =====
-- The headers of chapter11/iphdrinc/rawudp.cpp in memory.
use network_programming_for.Base.{ℕ, ◌^◌, ◌<◌, ◌≡◌, refl, [], ◌∷◌, ◌++◌, arith, u8}
use network_programming_for.RawUdp.Checksum.{checksum}
use network_programming_for.RawUdp.Checksum.Sum.{word_sum}
use network_programming_for.RawUdp.Checksum.Verify.{checksum_verifies}
use network_programming_for.RawUdp.Headers.{
  SockAddr, short_bytes, long_bytes, ipv4_bytes, unchecked_ipv4_header, init_ipv4_header,
}

-- For addresses below 2^32 and any TTL, protocol and length, the checksum over the header that
-- InitIpv4Header builds comes out as 0.
pub init_ipv4_header_verifies :
    (src dest : SockAddr) (ttl proto payloadlen : ℕ)
    → src.sin_addr < 2 ^ 32
    → dest.sin_addr < 2 ^ 32
    → checksum (ipv4_bytes (init_ipv4_header src dest ttl proto payloadlen)) ≡ 0
unfolding init_ipv4_header ipv4_bytes word_sum
init_ipv4_header_verifies src dest ttl proto payloadlen hs hd =
    let h = unchecked_ipv4_header src dest ttl proto payloadlen in
    let first =
      69 ∷ 0 ∷ short_bytes h.ip_totallength
      ++ short_bytes 0
      ++ short_bytes 0
      ++ u8 ttl ∷ u8 proto ∷ [] in
    let last = long_bytes src.sin_addr ++ long_bytes dest.sin_addr in
    checksum_verifies first last refl (omega arith) (omega arith)
