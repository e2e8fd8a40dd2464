-- ===== src/LogFile/Append.antt =====
-- `append` on a page with room for the record and its trailer.
use npsql.Base.{
  ℕ, ◌+◌, ◌/◌, ◌%◌, ◌^◌, ◌≤◌, ◌<◌, ◌≡◌, ◌∙◌, refl, Mem, copy, copy_in, copy_out, bytes, bytes_ext,
  length-bytes, List, ◌∷◌, arith,
}
use npsql.Bytes.{read_uint16, write_uint16}
use npsql.Bytes.Laws.{read_uint16-write_uint16, read_uint16-write_uint16_apart}
use npsql.LogFile.{
  page_size, LogFile, get_last_record_position, set_last_record_position, append_here,
}
use npsql.LogFile.Chain.{Chain, Chain-ext, read_uint16_ext}

-- The page holds `rs`, the newest first, and the next record goes right after the newest trailer.
pub record Holds (lf : LogFile) (rs : List (List ℕ)) : Type 0 where
  pub chain : Chain lf.current_page (get_last_record_position lf.current_page) rs
  pub fits : get_last_record_position lf.current_page + 2 ≤ page_size
  pub position : lf.current_page_position ≡ get_last_record_position lf.current_page + 2

-- The page after the record, the trailer and the header are written, at `p` with `q` before it.
pub stitched : Mem → ℕ → Mem → ℕ → ℕ → Mem
stitched page p r s q = write_uint16 (write_uint16 (copy page p r s) (p + s) q) 0 (p + s)

module _ (page : Mem) (p : ℕ) (r : Mem) (s q : ℕ) (low : 2 ≤ p) (room : p + s + 2 < 65536) where
  pub stitched_record : (j : ℕ) → j < s → stitched page p r s q (p + j) ≡ r j
  unfolding stitched write_uint16
  stitched_record j h =
      copy_out _ 0 _ 2 (p + j) (omega arith)
      ∙ copy_out _ (p + s) _ 2 (p + j) (omega arith)
      ∙ copy_in page p r s (p + j) j refl h

  stitched_old : (k : ℕ) → 2 ≤ k → k < p → stitched page p r s q k ≡ page k
  unfolding stitched write_uint16
  stitched_old k h k' =
      copy_out _ 0 _ 2 k (omega arith)
      ∙ copy_out _ (p + s) _ 2 k (omega arith)
      ∙ copy_out page p r s k (omega arith)

  pub stitched_link : q < 65536 → read_uint16 (stitched page p r s q) (p + s) ≡ q
  unfolding stitched
  stitched_link h =
      read_uint16-write_uint16_apart _ 0 (p + s) (p + s) (omega arith)
      ∙ read_uint16-write_uint16 _ (p + s) q h

  pub stitched_trailer : stitched page p r s q (p + s + 1) ≡ q / 256 % 256
  unfolding stitched write_uint16
  stitched_trailer =
      copy_out _ 0 _ 2 (p + s + 1) (omega arith)
      ∙ copy_in _ (p + s) _ 2 (p + s + 1) 1 refl (omega arith)

  pub stitched_head : read_uint16 (stitched page p r s q) 0 ≡ p + s
  unfolding stitched
  stitched_head = read_uint16-write_uint16 _ 0 (p + s) (omega arith)

last_record_kept :
    (page : Mem) (p : ℕ) (r : Mem) (s : ℕ)
    → 2 ≤ p
    → get_last_record_position (copy page p r s) ≡ get_last_record_position page
unfolding get_last_record_position
last_record_kept page p r s h =
    read_uint16_ext page (copy page p r s) 0 (copy_out page p r s 0 (omega arith))
      (copy_out page p r s (0 + 1) (omega arith))

-- With room for its trailer, `append_here` is the stitched page with the position after it.
pub append_here-stitched :
    (lf : LogFile) (r : Mem) (s : ℕ)
    → 2 ≤ lf.current_page_position
    → lf.current_page_position + s + 2 < 65536
    → append_here lf r s ≡ record lf {
      current_page =
          stitched lf.current_page lf.current_page_position r s
            (get_last_record_position lf.current_page);
      current_page_position = lf.current_page_position + s + 2;
    }
unfolding append_here set_last_record_position stitched
append_here-stitched lf r s low room =
    rw (wraps, last_record_kept lf.current_page p r s low, wraps_after)
  where
    p : ℕ
    p = lf.current_page_position

    wraps : (p + s % 2 ^ 16) % 2 ^ 16 ≡ p + s
    wraps = omega arith

    wraps_after : (p + s + 2) % 2 ^ 16 ≡ p + s + 2
    wraps_after = omega arith

stitched-Chain :
    (page : Mem) (r : Mem) (s q : ℕ) (rs : List (List ℕ))
    → q + 2 + s + 2 ≤ page_size
    → Chain page q rs
    → Chain (stitched page (q + 2) r s q) (q + 2 + s) (bytes r 0 s ∷ rs)
stitched-Chain page r s q rs room c =
    rw
      (
        stitched_link page (q + 2) r s q (omega arith) (omega arith) (omega arith),
        length-bytes r 0 s,
      )
      (
        refl,
        bytes_ext new r s (q + 2) 0 (λ j h.
            stitched_record page (q + 2) r s q (omega arith) (omega arith) j h ∙ ground arith),
        Chain-ext page new q rs
            (λ k lo hi. stitched_old page (q + 2) r s q (omega arith) (omega arith) k lo hi) c,
      )
  where
    new : Mem
    new = stitched page (q + 2) r s q

-- The record goes in front of the chain, whole, and the records before it stay.
pub append_here-Holds :
    (lf : LogFile) (r : Mem) (s : ℕ) (rs : List (List ℕ))
    → Holds lf rs
    → lf.current_page_position + s + 2 ≤ page_size
    → Holds (append_here lf r s) (bytes r 0 s ∷ rs)
unfolding get_last_record_position
append_here-Holds lf r s rs h room =
    rw (append_here-stitched lf r s (omega (arith, h.position)) (omega arith)) (
      rw h.position (record {
        chain = rw head (stitched-Chain page r s q rs (omega (arith, h.position)) h.chain);
        position = rw head;
        fits = rw head (rw h.position at room);
      }))
  where
    page : Mem
    page = lf.current_page

    q : ℕ
    q = get_last_record_position page

    head : get_last_record_position (stitched page (q + 2) r s q) ≡ q + 2 + s
    head = stitched_head page (q + 2) r s q (omega arith) (omega (arith, h.position))
