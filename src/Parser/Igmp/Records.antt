-- ===== src/Parser/Igmp/Records.antt =====
-- The group records of `DecodeIGMPHeader` of chapter07/SIO_RCVALL/parser.cpp.
use network_programming_for.Base.{
  ℕ, zero, suc, ◌+◌, ◌*◌, ◌/◌, ◌%◌, ◌^◌, ◌<◌, ◌≡◌, refl, ap, ap₂, fun_ext, ◌∙◌, List, [], ◌∷◌, ◌++◌,
  Option, some, get_elem?, length, arith, append_assoc,
}
use network_programming_for.Parser.{◌>>=◌, read_short, read_long}
use network_programming_for.Parser.Igmp.{GroupRecord, read_sources, read_records}
use network_programming_for.Parser.Reads.{get-append, read_short-append, read_long-append}

-- Numbers in the byte order of the network.
abbrev pub network_short : ℕ → List ℕ
network_short n = n / 256 ∷ n % 256 ∷ []

abbrev pub network_long : ℕ → List ℕ
network_long n = n / 2 ^ 24 ∷ n / 2 ^ 16 % 256 ∷ n / 256 % 256 ∷ n % 256 ∷ []

pub source_bytes : List ℕ → List ℕ
source_bytes [] = []
source_bytes (s ∷ ss) = network_long s ++ source_bytes ss

-- Records without auxiliary data.
pub record_bytes : List GroupRecord → List ℕ
unfolding source_bytes
record_bytes [] = []
record_bytes (r ∷ rs) =
    r.rectype ∷ r.auxdatalen ∷ network_short (length r.sources)
    ++ (network_long r.group ++ (source_bytes r.sources ++ record_bytes rs))

abbrev pub AreAddresses : List ℕ → Type 0
AreAddresses [] = Unit {0}
AreAddresses (s ∷ ss) = (s < 2 ^ 32) × AreAddresses ss

abbrev pub AreRecords : List GroupRecord → Type 0
AreRecords [] = Unit {0}
AreRecords (r ∷ rs) =
    ((length r.sources < 2 ^ 16) × (r.group < 2 ^ 32) × AreAddresses r.sources) × AreRecords rs

read_sources-append :
    (xs ys : List ℕ) (count i j : ℕ)
    → j ≡ length xs + i
    → read_sources (xs ++ ys) count j ≡ read_sources ys count i
unfolding read_sources
read_sources-append xs ys zero i j e = refl
read_sources-append xs ys (suc count) i j e =
    rw
      (
        read_long-append xs ys i j e,
        read_sources-append xs ys count (i + 4) (j + 4) (omega (arith, e)),
      )
      refl

-- One record from its parts, the last two depending on the count of sources.
abbrev put_record :
    (kind aux count addr : Option ℕ)
    → (ℕ → Option (List ℕ))
    → (ℕ → Option (List GroupRecord))
    → Option (List GroupRecord)
put_record kind aux count addr found rest = do
  k ← kind
  a ← aux
  c ← count
  g ← addr
  ss ← found c
  rs ← rest c
  some (record { rectype = k; auxdatalen = a; group = g; sources = ss } ∷ rs)

pub read_records-append :
    (xs ys : List ℕ) (count i j : ℕ)
    → j ≡ length xs + i
    → read_records (xs ++ ys) count j ≡ read_records ys count i
unfolding read_records
read_records-append xs ys zero i j e = refl
read_records-append xs ys (suc count) i j e =
    let rest =
      fun_ext
        (λ c. read_records-append xs ys count (i + 8 + 4 * c) (j + 8 + 4 * c) (omega (arith, e))) in
    let found = fun_ext (λ c. read_sources-append xs ys c (i + 8) (j + 8) (omega (arith, e))) in
    rw
      (
        get-append xs ys i j e,
        get-append xs ys (i + 1) (j + 1) (omega (arith, e)),
        read_short-append xs ys (i + 2) (j + 2) (omega (arith, e)),
        read_long-append xs ys (i + 4) (j + 4) (omega (arith, e)),
      )
      (ap₂
        (put_record (get_elem? ys i) (get_elem? ys (i + 1)) (read_short ys (i + 2))
          (read_long ys (i + 4)))
        found rest)

read_network_long :
    (n : ℕ) (rest : List ℕ) → n < 2 ^ 32 → read_long (network_long n ++ rest) 0 ≡ some n
unfolding read_long
read_network_long n rest h = ap some (omega arith)

read-source_bytes :
    (ss rest : List ℕ)
    → AreAddresses ss
    → read_sources (source_bytes ss ++ rest) (length ss) 0 ≡ some ss
unfolding read_sources source_bytes
read-source_bytes [] rest h = refl
read-source_bytes (s ∷ ss) rest h =
    rw
      (
        read_network_long s (source_bytes ss ++ rest) h.0,
        read_sources-append (network_long s) (source_bytes ss ++ rest) (length ss) 0 4 refl,
        read-source_bytes ss rest h.1,
      )
      refl

pub read_network_short :
    (n : ℕ) (rest : List ℕ) → n < 2 ^ 16 → read_short (network_short n ++ rest) 0 ≡ some n
unfolding read_short
read_network_short n rest h = ap some (omega arith)

length-source_bytes : (ss : List ℕ) → length (source_bytes ss) ≡ 4 * length ss
unfolding source_bytes
length-source_bytes [] = refl
length-source_bytes (s ∷ ss) = omega (arith, length-source_bytes ss)

pub read-record_bytes :
    (rs : List GroupRecord) (rest : List ℕ)
    → AreRecords rs
    → read_records (record_bytes rs ++ rest) (length rs) 0 ≡ some rs
unfolding read_records record_bytes
read-record_bytes [] rest h = refl
read-record_bytes (r ∷ rs) rest h =
    let n = length r.sources in
    let own = source_bytes r.sources in
    let others = record_bytes rs in
    let tail = own ++ others ++ rest in
    let start = r.rectype ∷ r.auxdatalen ∷ [] in
    let counted = start ++ network_short n in
    let header = counted ++ network_long r.group in
    let count =
      read_short-append start (network_short n ++ (network_long r.group ++ tail)) 0 2 refl
      ∙ read_network_short n (network_long r.group ++ tail) h.0.0 in
    let group =
      read_long-append counted (network_long r.group ++ tail) 0 4 refl
      ∙ read_network_long r.group tail h.0.1 in
    let found =
      read_sources-append header tail n 0 8 refl
      ∙ ap (λ t. read_sources t n 0) (append_assoc own others rest)
      ∙ read-source_bytes r.sources (others ++ rest) h.0.2 in
    let behind =
      read_records-append header tail (length rs) (4 * n) (0 + 8 + 4 * n) (omega arith)
      ∙ ap (λ t. read_records t (length rs) (4 * n)) (append_assoc own others rest)
      ∙ read_records-append own (others ++ rest) (length rs) 0 (4 * n)
          (omega (arith, length-source_bytes r.sources))
      ∙ read-record_bytes rs rest h.1 in
    rw (count, group, found, behind) refl
