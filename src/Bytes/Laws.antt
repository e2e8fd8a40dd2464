-- ===== src/Bytes/Laws.antt =====
-- What is written by buffers.c and common.c is read back.
use npsql.Base.{
  ap, sym, ◌∙◌, ℕ, ◌+◌, ◌*◌, ◌<◌, ◌≤◌, ◌≡◌, ◌⊎◌, refl, Mem, copy, copy_in, copy_out, of_bytes,
  arith, Bool, true, false,
}
use npsql.Bytes.{
  le16, le32, le64, write_uint16, write_uint32, write_uint64, read_uint16, read_uint32, read_uint64,
  htops, ptohs,
}

pub read_uint16-write_uint16 :
    (m : Mem) (at n : ℕ) → n < 65536 → read_uint16 (write_uint16 m at n) at ≡ n
unfolding write_uint16 read_uint16
read_uint16-write_uint16 m at n h =
    omega (arith, w at 0 (omega arith) (omega arith), w (at + 1) 1 refl (omega arith))
  where
    w : (k j : ℕ) → k ≡ at + j → j < 2 → copy m at (of_bytes (le16 n)) 2 k ≡ of_bytes (le16 n) j
    w = copy_in m at (of_bytes (le16 n)) 2

-- A number below 2 ^ 32 that is written at an address is read back from it.
pub read_uint32-write_uint32 :
    (m : Mem) (at n : ℕ) → n < 4294967296 → read_uint32 (write_uint32 m at n) at ≡ n
unfolding write_uint32 read_uint32
read_uint32-write_uint32 m at n h = omega (
  arith,
  w at 0 (omega arith) (omega arith),
  w (at + 1) 1 refl (omega arith),
  w (at + 2) 2 refl (omega arith),
  w (at + 3) 3 refl (omega arith),
)
  where
    w : (k j : ℕ) → k ≡ at + j → j < 4 → copy m at (of_bytes (le32 n)) 4 k ≡ of_bytes (le32 n) j
    w = copy_in m at (of_bytes (le32 n)) 4

-- A write leaves a number outside of it as it was.
pub read_uint16-write_uint16_apart :
    (m : Mem) (at at' n : ℕ)
    → (at' + 2 ≤ at) ⊎ (at + 2 ≤ at')
    → read_uint16 (write_uint16 m at n) at' ≡ read_uint16 m at'
unfolding write_uint16 read_uint16
read_uint16-write_uint16_apart m at at' n h = omega (
  arith,
  copy_out m at (of_bytes (le16 n)) 2 at' (omega arith),
  copy_out m at (of_bytes (le16 n)) 2 (at' + 1) (omega arith),
)

-- A number below 2 ^ 64 that is written at an address is read back from it.
pub read_uint64-write_uint64 :
    (m : Mem) (at n : ℕ) → n < 18446744073709551616 → read_uint64 (write_uint64 m at n) at ≡ n
unfolding write_uint64 read_uint64
read_uint64-write_uint64 m at n h = omega (
  arith,
  w at 0 (omega arith) (omega arith),
  w (at + 1) 1 refl (omega arith),
  w (at + 2) 2 refl (omega arith),
  w (at + 3) 3 refl (omega arith),
  w (at + 4) 4 refl (omega arith),
  w (at + 5) 5 refl (omega arith),
  w (at + 6) 6 refl (omega arith),
  w (at + 7) 7 refl (omega arith),
)
  where
    w : (k j : ℕ) → k ≡ at + j → j < 8 → copy m at (of_bytes (le64 n)) 8 k ≡ of_bytes (le64 n) j
    w = copy_in m at (of_bytes (le64 n)) 8

-- On a host of either byte order `ptohs` reads back the sixteen bits that `htops` wrote.
pub ptohs-htops :
    (host : Bool) (m : Mem) (at n : ℕ) → n < 65536 → ptohs host (htops host n m at) at ≡ n
unfolding htops ptohs
ptohs-htops true m at n h = omega (
  arith,
  copy_in m at (of_bytes (le16 n)) 2 at 0 (omega arith) (omega arith),
  copy_in m at (of_bytes (le16 n)) 2 (at + 1) 1 refl (omega arith),
)
ptohs-htops false m at n h = omega (
  arith,
  copy_in m at (of_bytes (le16 n)) 2 at 0 (omega arith) (omega arith),
  copy_in m at (of_bytes (le16 n)) 2 (at + 1) 1 refl (omega arith),
)

-- On a little-endian host.
pub ptohs-little : (m : Mem) (at : ℕ) → ptohs true m at ≡ m at + 256 * m (at + 1)
unfolding ptohs
ptohs-little m at = refl

-- What a write leaves alone, and what a read looks at.
pub write_uint16-out :
    (m : Mem) (at n k : ℕ) → (k < at) ⊎ (at + 2 ≤ k) → write_uint16 m at n k ≡ m k
unfolding write_uint16
write_uint16-out m at n k h = copy_out m at (of_bytes (le16 n)) 2 k h

pub write_uint64-out :
    (m : Mem) (at n k : ℕ) → (k < at) ⊎ (at + 8 ≤ k) → write_uint64 m at n k ≡ m k
unfolding write_uint64
write_uint64-out m at n k h = copy_out m at (of_bytes (le64 n)) 8 k h

pub read_uint64_ext :
    (m m' : Mem) (at : ℕ)
    → ((k : ℕ) → k < 8 → m' (at + k) ≡ m (at + k))
    → read_uint64 m' at ≡ read_uint64 m at
unfolding read_uint64
read_uint64_ext m m' at same =
    let first : m' at ≡ m at = ap m' zeroth ∙ same 0 (omega arith) ∙ sym (ap m zeroth) in
    omega (
      arith,
      first,
      same 1 (omega arith),
      same 2 (omega arith),
      same 3 (omega arith),
      same 4 (omega arith),
      same 5 (omega arith),
      same 6 (omega arith),
      same 7 (omega arith),
    )
  where
    zeroth : at ≡ at + 0
    zeroth = omega arith

pub ptohs_ext :
    (host : Bool) (m m' : Mem) (at at' : ℕ)
    → m' at' ≡ m at
    → m' (at' + 1) ≡ m (at + 1)
    → ptohs host m' at' ≡ ptohs host m at
unfolding ptohs
ptohs_ext host m m' at at' e e' = rw (e, e') refl
