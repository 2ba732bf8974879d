-- ===== src/Parser/Igmp/Report.antt =====
-- A membership report of version 3, as `DecodeIGMPHeader` of chapter07/SIO_RCVALL/parser.cpp
-- prints it.
use network_programming_for.Base.{
  ℕ, ◌+◌, ◌-◌, ◌^◌, ◌<◌, ◌≡◌, refl, ◌∙◌, List, [], ◌∷◌, ◌++◌, some, length, arith, u32, signed_ltb,
  true,
}
use network_programming_for.Parser.{read_short}
use network_programming_for.Parser.Reads.{get-append, read_short-append}
use network_programming_for.Parser.Igmp.{
  Message, report_v3, membership_report_v3, classify, read_body, decode_igmp_header,
  igmp_type_entry, GroupRecord,
}
use network_programming_for.Parser.Igmp.Records.{
  network_short, record_bytes, AreRecords, read_records-append, read-record_bytes,
  read_network_short,
}

-- Type 0x22, a checksum, no auxiliary data.
abbrev pub report_bytes : (a b : ℕ) → List GroupRecord → List ℕ
report_bytes a b rs = 34 ∷ 0 ∷ a ∷ b ∷ 0 ∷ 0 ∷ network_short (length rs) ++ record_bytes rs

classify_report :
    (igmphdrlen : ℕ) (stale : Message)
    → signed_ltb 8 igmphdrlen ≡ true
    → classify 2 2 0 igmphdrlen stale ≡ (3, membership_report_v3)
unfolding classify
classify_report igmphdrlen stale h = rw h refl

read_body-report :
    (front rest : List ℕ) (a b igmphdrlen : ℕ) (rs : List GroupRecord)
    → length rs < 2 ^ 16
    → AreRecords rs
    → read_body
        (front ++ (report_bytes a b rs ++ rest))
        (length front + 4)
        igmphdrlen
        3
        membership_report_v3
      ≡ some (report_v3 rs)
unfolding read_body
read_body-report front rest a b igmphdrlen rs n h =
    let packet = report_bytes a b rs ++ rest in
    let start = 34 ∷ 0 ∷ a ∷ b ∷ 0 ∷ 0 ∷ [] in
    let counted = start ++ network_short (length rs) in
    let count =
      read_short-append front packet 6 (length front + 4 + 2) (omega arith)
      ∙ read_short-append start (network_short (length rs) ++ (record_bytes rs ++ rest)) 0 6 refl
      ∙ read_network_short (length rs) (record_bytes rs ++ rest) n in
    let records =
      read_records-append front packet (length rs) 8 (length front + 4 + 4) (omega arith)
      ∙ read_records-append counted (record_bytes rs ++ rest) (length rs) 0 8 refl
      ∙ read-record_bytes rs rest h in
    rw (count, records) refl

-- For a packet of less than 2^16 bytes that is longer than its IP header and 8 bytes,
-- DecodeIGMPHeader reads back the group records of a membership report of version 3 that has less
-- than 2^16 of them, with less than 2^16 sources each, addresses below 2^32, and no auxiliary
-- data.
pub decode-report_bytes :
    (front rest : List ℕ) (a b iptotallen : ℕ) (rs : List GroupRecord) (stale : Message)
    → length front + 8 < iptotallen
    → iptotallen < 2 ^ 16
    → length rs < 2 ^ 16
    → AreRecords rs
    → decode_igmp_header (front ++ (report_bytes a b rs ++ rest)) (length front) iptotallen stale
      ≡ some (record { igmp_version = 3; igmp_type = 2; max_resp_time = 0; body = report_v3 rs })
unfolding decode_igmp_header igmp_type_entry read_short
decode-report_bytes front rest a b iptotallen rs stale lo hi n h =
    let packet = report_bytes a b rs ++ rest in
    let igmphdrlen = u32 (iptotallen + (2 ^ 32 - length front)) in
    let longer : signed_ltb 8 igmphdrlen ≡ true = ground arith in
    rw
      (
        get-append front packet 0 (length front) (omega arith),
        get-append front packet 1 (length front + 1) refl,
        get-append front packet 2 (length front + 2) refl,
        get-append front packet 3 (length front + 2 + 1) (omega arith),
        classify_report igmphdrlen stale longer,
        read_body-report front rest a b igmphdrlen rs n h,
      )
      refl
