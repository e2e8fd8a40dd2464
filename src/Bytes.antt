-- ===== src/Bytes.antt =====
-- server/src/buffers.c and server/src/common.c: integers as little-endian bytes.
-- `union i16_u` with `htole16` lays a number out little-endian on every host, so `le16`, `le32`
-- and `le64` are the bytes `n.c`. A `vector_type(uint8_t)` is the list of its bytes: the caller of
-- a `push_` function has grown it first, so no push moves it.
pub mod Laws
use npsql.Base.{
  ℕ, zero, suc, ◌+◌, ◌-◌, ◌*◌, ◌/◌, ◌%◌, ◌<◌, Mem, copy, of_bytes, bytes, List, [], ◌∷◌, ◌++◌, Bool,
  true, false, if◌then◌else◌,
}

abbrev pub le16 : ℕ → List ℕ
le16 n = n % 256 ∷ (n / 256) % 256 ∷ []

abbrev pub le32 : ℕ → List ℕ
le32 n = n % 256 ∷ (n / 256) % 256 ∷ (n / 65536) % 256 ∷ (n / 16777216) % 256 ∷ []

abbrev pub le64 : ℕ → List ℕ
le64 n =
    n % 256
    ∷ (n / 256) % 256
    ∷ (n / 65536) % 256
    ∷ (n / 16777216) % 256
    ∷ (n / 4294967296) % 256
    ∷ (n / 1099511627776) % 256
    ∷ (n / 281474976710656) % 256
    ∷ (n / 72057594037927936) % 256
    ∷ []

unfoldable pub push_uint16 : List ℕ → ℕ → List ℕ
push_uint16 dest number = dest ++ le16 number

unfoldable pub push_uint32 : List ℕ → ℕ → List ℕ
push_uint32 dest number = dest ++ le32 number

unfoldable pub push_uint64 : List ℕ → ℕ → List ℕ
push_uint64 dest number = dest ++ le64 number

unfoldable pub push_cpy : List ℕ → Mem → ℕ → List ℕ
push_cpy dest src size = dest ++ bytes src 0 size

unfoldable pub write_uint16 : Mem → ℕ → ℕ → Mem
write_uint16 dest start number = copy dest start (of_bytes (le16 number)) 2

unfoldable pub write_uint32 : Mem → ℕ → ℕ → Mem
write_uint32 dest start number = copy dest start (of_bytes (le32 number)) 4

unfoldable pub write_uint64 : Mem → ℕ → ℕ → Mem
write_uint64 dest start number = copy dest start (of_bytes (le64 number)) 8

unfoldable pub read_uint16 : Mem → ℕ → ℕ
read_uint16 src start = src start + 256 * src (start + 1)

unfoldable pub read_uint32 : Mem → ℕ → ℕ
read_uint32 src start =
    src start + 256 * src (start + 1) + 65536 * src (start + 2) + 16777216 * src (start + 3)

unfoldable pub read_uint64 : Mem → ℕ → ℕ
read_uint64 src start =
    src start
    + 256 * src (start + 1)
    + 65536 * src (start + 2)
    + 16777216 * src (start + 3)
    + 4294967296 * src (start + 4)
    + 1099511627776 * src (start + 5)
    + 281474976710656 * src (start + 6)
    + 72057594037927936 * src (start + 7)

-- `(uint8_t *)&value` of an `int16_t` on a host of the given byte order; `true` is little-endian.
host16 : Bool → ℕ → List ℕ
host16 true n = le16 n
host16 false n = (n / 256) % 256 ∷ n % 256 ∷ []

-- `byte_order` is the test of common.c on the host's layout of 0x0001.
byte_order : Bool → Bool
unfolding host16
byte_order host = elim (host16 host 1) [ [] ↦ false | zero ∷ _ ↦ false | suc _ ∷ _ ↦ true ]

pub htops : Bool → ℕ → Mem → ℕ → Mem
unfolding byte_order
htops host value buffer at =
    let p : Mem = of_bytes (host16 host value) in
    if byte_order host
    then copy buffer at (of_bytes (p 0 ∷ p 1 ∷ [])) 2
    else copy buffer at (of_bytes (p 1 ∷ p 0 ∷ [])) 2

-- The int16_t whose bytes in memory are `b`, as its bit pattern.
value16 : Bool → ℕ → ℕ → ℕ
value16 true b0 b1 = b0 + 256 * b1
value16 false b0 b1 = b1 + 256 * b0

pub ptohs : Bool → Mem → ℕ → ℕ
unfolding byte_order value16
ptohs host buffer at =
    if byte_order host
    then value16 host (buffer at) (buffer (at + 1))
    else value16 host (buffer (at + 1)) (buffer at)
