-- ===== src/Parser/Igmp.antt =====
-- `DecodeIGMPHeader` of chapter07/SIO_RCVALL/parser.cpp: what it prints.
pub mod Records
pub mod Report
use network_programming_for.Base.{
  ℕ, zero, suc, ◌+◌, ◌-◌, ◌*◌, ◌/◌, ◌%◌, ◌^◌, ◌==◌, ltb, not, ◌&&◌, if◌then◌else◌, List, [], ◌∷◌,
  Bool, Option, none, some, get_elem?, u32, signed_ltb,
}
use network_programming_for.Parser.{◌>>=◌, hi_word, lo_word, read_short, read_long}

-- `IGMP_MEMBERSHIP_QUERY` and so on.
pub data Message : Type 0 where
  membership_query : Message
  membership_report : Message
  membership_report_v2 : Message
  leave_group : Message
  membership_report_v3 : Message

-- The version and the message; a bad version leaves `message` with what was on the stack.
unfoldable pub classify :
    (version type maxresptime igmphdrlen : ℕ) → (stale : Message) → ℕ × Message
classify version type maxresptime igmphdrlen stale =
    let is_8 = igmphdrlen == 8 in
    let is_longer = signed_ltb 8 igmphdrlen in
    if version == 1 && maxresptime == 0 && is_8 && type == 1
    then (1, membership_query)
    else if version == 1 && maxresptime == 0 && is_8 && type == 2
    then (1, membership_report)
    else if version == 1 && not (maxresptime == 0) && is_8 && type == 1
    then (2, membership_query)
    else if version == 1 && is_longer && type == 1
    then (3, membership_query)
    else if version == 1 && not (maxresptime == 0) && is_8 && type == 6
    then (2, membership_report_v2)
    else if version == 1 && type == 7
    then (2, leave_group)
    else if version == 2 && is_longer && type == 2
    then (3, membership_report_v3)
    else (0, stale)

-- `count` addresses of 4 bytes from `hdr` on.
unfoldable pub read_sources : List ℕ → (count hdr : ℕ) → Option (List ℕ)
read_sources buf zero hdr = some []
read_sources buf (suc count) hdr = do
  source ← read_long buf hdr
  sources ← read_sources buf count (hdr + 4)
  some (source ∷ sources)

pub record GroupRecord : Type 0 where
  pub rectype : ℕ
  pub auxdatalen : ℕ
  pub group : ℕ
  pub sources : List ℕ

-- The group records one behind the other: `auxdatalen` is printed, and no byte is skipped for it.
unfoldable pub read_records : List ℕ → (numrecs hdr : ℕ) → Option (List GroupRecord)
read_records buf zero hdr = some []
read_records buf (suc numrecs) hdr = do
  kind ← get_elem? buf hdr
  aux ← get_elem? buf (hdr + 1)
  count ← read_short buf (hdr + 2)
  addr ← read_long buf (hdr + 4)
  found ← read_sources buf count (hdr + 8)
  rest ← read_records buf numrecs (hdr + 8 + 4 * count)
  some (record { rectype = kind; auxdatalen = aux; group = addr; sources = found } ∷ rest)

pub record QueryInfo : Type 0 where
  pub suppress : Bool
  pub robustness : ℕ
  pub interval : ℕ
  pub reserved : ℕ
  pub num_sources : ℕ
  pub sources_agree : Bool
  pub query_sources : List ℕ

-- The rest of a query of version 3, `hdr` being behind the group address. The sources are counted
-- by the length of the packet.
unfoldable pub read_query : List ℕ → (igmphdrlen hdr : ℕ) → Option QueryInfo
read_query buf igmphdrlen hdr = do
  byte ← get_elem? buf hdr
  qqi ← get_elem? buf (hdr + 1)
  numsources ← read_short buf (hdr + 2)
  let realsourcecount = (igmphdrlen - 12) / 4
  found ← read_sources buf realsourcecount (hdr + 4)
  some (record {
    suppress = not (byte / 2 ^ 3 % 2 ^ 3 == 0);
    robustness = byte % 2 ^ 3;
    interval = qqi;
    reserved = byte / 2 ^ 4;
    num_sources = numsources;
    sources_agree = realsourcecount == numsources;
    query_sources = found;
  })

pub data IgmpBody : Type 0 where
  plain : IgmpBody
  query : (group : ℕ) → IgmpBody
  query_v3 : (group : ℕ) → QueryInfo → IgmpBody
  report_v3 : List GroupRecord → IgmpBody

pub record IgmpInfo : Type 0 where
  pub igmp_version : ℕ
  pub igmp_type : ℕ
  pub max_resp_time : ℕ
  pub body : IgmpBody

-- What follows the first 4 bytes, `hdr` being behind them.
unfoldable pub read_body : List ℕ → (hdr igmphdrlen version : ℕ) → Message → Option IgmpBody
read_body buf hdr igmphdrlen version membership_query = do
  addr ← read_long buf hdr
  if version == 3
      then (do info ← read_query buf igmphdrlen (hdr + 4); some (query_v3 addr info))
      else some (query addr)
read_body buf hdr igmphdrlen version membership_report = some plain
read_body buf hdr igmphdrlen version membership_report_v2 = some plain
read_body buf hdr igmphdrlen version leave_group = some plain
read_body buf hdr igmphdrlen version membership_report_v3 =
    if version == 3
    then (do
      numrecs ← read_short buf (hdr + 2)
      records ← read_records buf numrecs (hdr + 4)
      some (report_v3 records))
    else some plain

-- The entries of `szIgmpType`, and the read of one of them.
abbrev pub igmp_type_count : ℕ
igmp_type_count = 8

unfoldable pub igmp_type_entry : ℕ → Option ℕ
igmp_type_entry type = if ltb type igmp_type_count then some type else none

-- `stale` is what the variable `message` holds before it is set.
unfoldable pub decode_igmp_header :
    (buf : List ℕ) (iphdrlen iptotallen : ℕ) (stale : Message) → Option IgmpInfo
decode_igmp_header buf iphdrlen iptotallen stale = do
  byte ← get_elem? buf iphdrlen
  maxresptime ← get_elem? buf (iphdrlen + 1)
  chksum ← read_short buf (iphdrlen + 2)
  let igmphdrlen = u32 (iptotallen + (2 ^ 32 - iphdrlen))
  let (version, message) = classify (hi_word byte) (lo_word byte) maxresptime igmphdrlen stale
  entry ← igmp_type_entry (lo_word byte)
  found ← read_body buf (iphdrlen + 4) igmphdrlen version message
  some (record {
    igmp_version = version;
    igmp_type = entry;
    max_resp_time = maxresptime;
    body = found;
  })
