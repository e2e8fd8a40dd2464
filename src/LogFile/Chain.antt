-- ===== src/LogFile/Chain.antt =====
-- The records of one log page, the newest first, as the backwards links give them.
use npsql.Base.{ℕ, ◌+◌, ◌≤◌, ◌<◌, ◌≡◌, ◌∙◌, Mem, bytes, bytes_ext, List, [], ◌∷◌, length, arith}
use npsql.Bytes.{read_uint16}

-- A record is the list of its bytes. The trailer of the newest record stands at `e`; it holds the
-- position of the trailer before it, and the record lies between the two. Position 0 ends the page.
abbrev pub Chain : Mem → ℕ → List (List ℕ) → Type 0
Chain page e [] = e ≡ 0
Chain page e (r ∷ rs) =
    (e ≡ read_uint16 page e + 2 + length r)
    × (bytes page (read_uint16 page e + 2) (length r) ≡ r)
    × Chain page (read_uint16 page e) rs

pub read_uint16_ext :
    (page page' : Mem) (e : ℕ)
    → page' e ≡ page e
    → page' (e + 1) ≡ page (e + 1)
    → read_uint16 page' e ≡ read_uint16 page e
unfolding read_uint16
read_uint16_ext page page' e lo hi = omega arith

-- The chain looks at the bytes from 2 up to its last trailer only.
pub Chain-ext :
    (page page' : Mem) (e : ℕ) (rs : List (List ℕ))
    → ((k : ℕ) → 2 ≤ k → k < e + 2 → page' k ≡ page k)
    → Chain page e rs
    → Chain page' e rs
Chain-ext page page' e [] same c = c
Chain-ext page page' e (r ∷ rs) same (at_end, record_bytes, before) = rw link (
  at_end,
  bytes_ext page' page (length r) (q + 2) (q + 2)
        (λ j h. same (q + 2 + j) (omega arith) (omega arith))
      ∙ record_bytes,
  Chain-ext page page' q rs (λ k lo hi. same k lo (omega arith)) before,
)
  where
    q : ℕ
    q = read_uint16 page e

    link : read_uint16 page' e ≡ q
    link =
        read_uint16_ext page page' e (same e (omega arith) (omega arith))
          (same (e + 1) (omega arith) (omega arith))
