-- ===== src/RawUdp/Fill.antt =====
-- `memfill` of chapter11/iphdrinc/rawudp.cpp.
pub mod Copies
use network_programming_for.Base.{
  ℕ, zero, suc, ◌-◌, ltb, if◌then◌else◌, List, [], ◌++◌, Option, none, some, length, take,
}

-- The bytes one round writes, in front of those that the other rounds write.
abbrev pub put_before : List ℕ → Option (List ℕ) → Option (List ℕ)
put_before copied none = none
put_before copied (some rest) = some (copied ++ rest)

-- The bytes written to `dest`, `datalen` being the length of the data; none where the fuel, one
-- for each test of the loop, does not reach its end.
unfoldable pub memfill : (fuel destlen : ℕ) → (data_bytes : List ℕ) → Option (List ℕ)
memfill zero destlen data_bytes = none
memfill (suc fuel) destlen data_bytes =
    let copylen = if ltb (length data_bytes) destlen then length data_bytes else destlen in
    let rest = memfill fuel (destlen - copylen) data_bytes in
    if ltb 0 destlen then put_before (take copylen data_bytes) rest else some []
