-- ===== src/RawUdp/Headers/Offsets.antt =====
-- The offset field that `InitIpv6FragmentHeader` of chapter11/iphdrinc/rawudp.cpp fills in.
use network_programming_for.Base.{
  ℕ, ◌+◌, ◌*◌, ◌/◌, ◌%◌, ◌^◌, ◌<◌, ◌≡◌, Bool, if◌then◌else◌, ◌==◌, htons, u16, arith, htons-htons,
}
use network_programming_for.RawUdp.Headers.{fragment_offset, init_ipv6_fragment_header}

-- Where a fragment belongs: its place in the payload, behind the UDP header unless it is the first.
abbrev pub place : ℕ → ℕ
place offset = if offset == 0 then 0 else offset + 8

-- The field in the order of the machine.
abbrev pub offset_field : (offset nextproto id : ℕ) → (lastfragment : Bool) → ℕ
offset_field offset nextproto id lastfragment =
    htons (init_ipv6_fragment_header offset nextproto id lastfragment).ipv6_frag_offset

fragment_offset-place :
    (offset : ℕ) (lastfragment : Bool)
    → offset + 8 < 2 ^ 16
    → fragment_offset offset lastfragment ≡ place offset / 8 * 8 + (if lastfragment then 0 else 1)
unfolding fragment_offset
fragment_offset-place offset lastfragment h = ground arith

-- For an offset with 8 more below 2^16, the offset field that InitIpv6FragmentHeader stores is, in
-- the order of the machine, the place of the fragment behind the UDP header less its remainder by
-- 8, and its last three bits are 0 for the last fragment and 1 for the others.
pub fragment_offset_lem :
    (offset nextproto id : ℕ) (lastfragment : Bool)
    → offset + 8 < 2 ^ 16
    → (offset_field offset nextproto id lastfragment / 8 * 8 + offset % 8 ≡ place offset)
      × (offset_field offset nextproto id lastfragment % 8 ≡ (if lastfragment then 0 else 1))
unfolding init_ipv6_fragment_header
fragment_offset_lem offset nextproto id lastfragment h =
    let e = fragment_offset-place offset lastfragment h in
    let small : fragment_offset offset lastfragment < 2 ^ 16 = ground (arith, e) in
    let same : u16 (fragment_offset offset lastfragment) ≡ fragment_offset offset lastfragment =
      omega arith in
    rw (same, htons-htons (fragment_offset offset lastfragment) small, e)
      (ground arith, ground arith)
