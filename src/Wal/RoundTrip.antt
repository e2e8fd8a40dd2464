-- ===== src/Wal/RoundTrip.antt =====
-- What `wal_write` logs is what `undo_update` puts back.
use npsql.Base.{
  ℕ, zero, suc, ◌+◌, ◌%◌, ◌^◌, ◌<◌, ◌≡◌, ◌∙◌, refl, ap, Mem, from, bytes, of_bytes, Option, List,
  [], ◌∷◌, ◌++◌, arith, length,
}
use npsql.Bytes.{
  push_uint16, push_uint32, push_uint64, push_cpy, read_uint16, read_uint32, read_uint64, le16,
  le32, le64,
}
use npsql.BufferManager.{BufferManager, invalid_lsn, pin, unpin, write_buffer}
use npsql.ExprEval.{◌>>=◌}
use npsql.Wal.{log_update, update_record, undo_update}

of_bytes-bytes : (m : Mem) (o n j : ℕ) → j < n → of_bytes (bytes m o n) j ≡ m (o + j)
of_bytes-bytes m o zero j h = absurd (omega arith)
of_bytes-bytes m o (suc n) zero h = ap m (omega arith)
of_bytes-bytes m o (suc n) (suc j) h =
    of_bytes-bytes m (o + 1) n j (omega arith) ∙ ap m (omega arith)

of_bytes-append : (xs ys : List ℕ) (j : ℕ) → of_bytes (xs ++ ys) (length xs + j) ≡ of_bytes ys j
of_bytes-append [] ys j = ap (of_bytes ys) (omega arith)
of_bytes-append (x ∷ xs) ys j =
    let e : suc (length xs) + j ≡ suc (length xs + j) = omega arith in
    ap (of_bytes (x ∷ (xs ++ ys))) e ∙ of_bytes-append xs ys j

module _ (tsx_id pnum offset : ℕ) (old : Mem) (size : ℕ) where
  -- The bytes of an update record, at an address each.
  abbrev pub Logged : Mem → ℕ → Type 0
  Logged page at =
      (k : ℕ)
      → k < 17 + size
      → page (at + k) ≡ of_bytes (update_record tsx_id pnum offset old size) k

  -- The old bytes follow a header of seventeen bytes.
  logged-old :
      (j : ℕ) → j < size → of_bytes (update_record tsx_id pnum offset old size) (17 + j) ≡ old j
  unfolding update_record push_uint16 push_uint32 push_uint64 push_cpy
  logged-old j h =
      of_bytes-append (log_update ∷ (le32 tsx_id ++ (le64 pnum ++ (le16 offset ++ le16 size))))
        (bytes old 0 size) j
      ∙ of_bytes-bytes old 0 size j h
      ∙ ap old (omega arith)

  module _ (page : Mem) (at : ℕ) (logged : Logged page at) where
    byte :
        (x k : ℕ)
        → x ≡ at + k
        → k < 17
        → page x ≡ of_bytes (update_record tsx_id pnum offset old size) k
    byte x k e h = ap page e ∙ logged k (omega arith)

    logged-type : page at ≡ log_update
    unfolding update_record push_uint16 push_uint32 push_uint64 push_cpy
    logged-type = byte at 0 (omega arith) (omega arith)

    logged-tsx_id : tsx_id < 4294967296 → read_uint32 page (at + 1) ≡ tsx_id
    unfolding update_record push_uint16 push_uint32 push_uint64 push_cpy read_uint32
    logged-tsx_id h = omega (
      arith,
      byte (at + 1) 1 refl (omega arith),
      byte (at + 1 + 1) 2 (omega arith) (omega arith),
      byte (at + 1 + 2) 3 (omega arith) (omega arith),
      byte (at + 1 + 3) 4 (omega arith) (omega arith),
    )

    logged-pnum : pnum < 18446744073709551616 → read_uint64 page (at + 5) ≡ pnum
    unfolding update_record push_uint16 push_uint32 push_uint64 push_cpy read_uint64
    logged-pnum h = omega (
      arith,
      byte (at + 5) 5 refl (omega arith),
      byte (at + 5 + 1) 6 (omega arith) (omega arith),
      byte (at + 5 + 2) 7 (omega arith) (omega arith),
      byte (at + 5 + 3) 8 (omega arith) (omega arith),
      byte (at + 5 + 4) 9 (omega arith) (omega arith),
      byte (at + 5 + 5) 10 (omega arith) (omega arith),
      byte (at + 5 + 6) 11 (omega arith) (omega arith),
      byte (at + 5 + 7) 12 (omega arith) (omega arith),
    )

    logged-offset : offset < 65536 → read_uint16 page (at + 5 + 8) ≡ offset
    unfolding update_record push_uint16 push_uint32 push_uint64 push_cpy read_uint16
    logged-offset h = omega (
      arith,
      byte (at + 5 + 8) 13 (omega arith) (omega arith),
      byte (at + 5 + 8 + 1) 14 (omega arith) (omega arith),
    )

    logged-size : size < 65536 → read_uint16 page (at + 5 + 10) ≡ size
    unfolding update_record push_uint16 push_uint32 push_uint64 push_cpy read_uint16
    logged-size h = omega (
      arith,
      byte (at + 5 + 10) 15 (omega arith) (omega arith),
      byte (at + 5 + 10 + 1) 16 (omega arith) (omega arith),
    )

    -- Where a log page holds an update record, with numbers that fit their fields and the record within
    -- sixteen bits of address, the record is read as an update of its transaction, and undoing it pins
    -- the page that was updated and writes back the very bytes that `wal_write` was given, at their
    -- offset.
    pub undo_update-update_record :
        (bm : BufferManager)
        → at + 17 < 65536
        → tsx_id < 4294967296
        → pnum < 18446744073709551616
        → offset < 65536
        → size < 65536
        → (page at ≡ log_update)
          × (read_uint32 page (at + 1) ≡ tsx_id)
          × ((entry : Mem) × ((j : ℕ) → j < size → entry j ≡ old j)
              × (undo_update bm page at tsx_id ≡ (
                  pin bm pnum >>= λ (p : Option ℕ × BufferManager).
                  p.0 >>= λ i. unpin (write_buffer p.1 i entry offset size tsx_id invalid_lsn) i)))
    unfolding undo_update
    undo_update-update_record bm low ht hp ho hs = (
      logged-type,
      logged-tsx_id ht,
      (
        from page (at + 5 + 12),
        λ j h. ap page (omega arith) ∙ logged (17 + j) (omega arith) ∙ logged-old j h,
        rw (start, logged-pnum hp, logged-offset ho, logged-size hs),
      ),
    )
      where
        start : (at + 5) % 2 ^ 16 ≡ at + 5
        start = omega arith
