-- ===== src/BufferManager/Flush.antt =====
-- `flush_buffers`: every frame that a transaction modified, and no other, is written to the file.
use npsql.Base.{
  ℕ, zero, suc, ◌+◌, ◌*◌, ◌≤◌, ◌<◌, ◌≡◌, ◌≢◌, ◌∙◌, refl, sym, ap, Bool-cases, false, inl, inr, ◌⊎◌,
  some, ◌==◌, ==_iff, ==-false, if◌then◌else◌, arith, ℕ_discrete,
}
use npsql.LogFile.{page_size}
use npsql.BufferManager.{
  BufferManager, buffer_pool_size, invalid_pnum, invalid_tsx, flush_buffer, flush_from,
  flush_buffers, write_page,
}
use npsql.BufferManager.View.{
  Coherent, flush_buffer-Flushed, Flushed-Coherent, Flushed-view, Flushed-apart,
}
use npsql.BufferManager.Evict.{Kept}
use npsql.BufferManager.Pin.{Kept-trans}

-- What writing out the frames from `i`, `n` of them, that are modified by `tsx` does to a pool.
pub record Written (bm bm' : BufferManager) (tsx i n : ℕ) : Type 0 where
  pub number : (k : ℕ) → (bm'.buffers k).page_number ≡ (bm.buffers k).page_number
  pub page : (k : ℕ) → (bm'.buffers k).page ≡ (bm.buffers k).page
  pub stays_clean :
      (k : ℕ) → (bm.buffers k).modified_by ≡ invalid_tsx → (bm'.buffers k).modified_by ≡ invalid_tsx
  pub cleaned :
      (k : ℕ)
      → i ≤ k
      → k < i + n
      → (bm.buffers k).modified_by ≡ tsx
      → (bm'.buffers k).modified_by ≡ invalid_tsx
  pub others :
      (k : ℕ)
      → (bm.buffers k).modified_by ≢ tsx
      → (bm'.buffers k).modified_by ≡ (bm.buffers k).modified_by
  pub outside :
      (k : ℕ) → (k < i) ⊎ (i + n ≤ k) → (bm'.buffers k).modified_by ≡ (bm.buffers k).modified_by
  pub kept : Kept bm bm'
  pub page_count : bm'.data_file.page_count ≡ bm.data_file.page_count
  pub apart :
      (q : ℕ)
      → ((j : ℕ)
          → j < buffer_pool_size
          → (bm.buffers j).modified_by ≡ tsx
          → (bm.buffers j).page_number ≢ q)
      → (k : ℕ) → k < page_size
      → bm'.data_file.file.content (q * page_size + k)
        ≡ bm.data_file.file.content (q * page_size + k)

abbrev step : BufferManager → ℕ → ℕ → BufferManager
step bm tsx i = if (bm.buffers i).modified_by == tsx then flush_buffer bm i else bm

pub flush_buffer-page_count :
    (bm : BufferManager) (i : ℕ)
    → (flush_buffer bm i).data_file.page_count ≡ bm.data_file.page_count
unfolding flush_buffer write_page
flush_buffer-page_count bm i = ground arith

module _ (bm : BufferManager) (tsx i : ℕ) (small : i < buffer_pool_size) (c : Coherent bm) where
  flushed_Written : (bm.buffers i).modified_by ≡ tsx → Written bm (flush_buffer bm i) tsx i 1
  flushed_Written e =
      let f = flush_buffer-Flushed bm i in
      record {
        number = f.number;
        page = f.page;
        stays_clean =
            λ k m. elim (ℕ_discrete k i) [ yes ki ↦ rw ki f.own | no ne ↦ f.others k ne ∙ m ];
        cleaned = λ k lo hi m. let ki : k ≡ i = omega arith in rw ki f.own;
        others = λ k ne. f.others k (λ ki. ne (rw ki e));
        outside = λ k o. f.others k (ground arith);
        kept = record {
          coherent = Flushed-Coherent bm (flush_buffer bm i) i small c f;
          same_view = Flushed-view bm (flush_buffer bm i) i small c f;
        };
        page_count = flush_buffer-page_count bm i;
        apart = λ q out k h. Flushed-apart bm (flush_buffer bm i) i small c f q k (out i small e) h;
      }

  left_Written : (bm.buffers i).modified_by ≢ tsx → Written bm bm tsx i 1
  left_Written ne = record {
    number = λ k. refl;
    page = λ k. refl;
    stays_clean = λ k m. m;
    cleaned = λ k lo hi m. let ki : k ≡ i = omega arith in absurd (ne (rw (← ki) m));
    others = λ k n. refl;
    outside = λ k o. refl;
    kept = record { coherent = c; same_view = λ q k v h. refl };
    page_count = refl;
    apart = λ q out k h. refl;
  }

  step-Written : Written bm (step bm tsx i) tsx i 1
  step-Written = elim (Bool-cases ((bm.buffers i).modified_by == tsx)) [
    | inl e ↦ rw e (flushed_Written ((==_iff _ tsx).0 e))
    | inr e ↦ rw e (left_Written (==-false _ tsx e))
  ]

Written-join :
    (a b c : BufferManager) (tsx i n : ℕ)
    → Written a b tsx i 1
    → Written b c tsx (i + 1) n
    → Written a c tsx i (suc n)
Written-join a b c tsx i n v w = record {
  number = λ k. w.number k ∙ v.number k;
  page = λ k. w.page k ∙ v.page k;
  stays_clean = λ k m. w.stays_clean k (v.stays_clean k m);
  cleaned = λ k lo hi m. elim (ℕ_discrete k i) [
    | yes e ↦ w.stays_clean k (v.cleaned k lo (omega arith) m)
    | no ne ↦ later k lo hi m ne
  ];
  others = λ k ne. w.others k (λ e. ne (sym (v.others k ne) ∙ e)) ∙ v.others k ne;
  outside = λ k o.
      w.outside k (elim o [ inl h ↦ inl (omega arith) | inr h ↦ inr (omega arith) ])
      ∙ v.outside k (elim o [ inl h ↦ inl h | inr h ↦ inr (omega arith) ]);
  kept = Kept-trans a b c v.kept w.kept;
  page_count = w.page_count ∙ v.page_count;
  apart = λ q out k h. w.apart q (λ j hj m. still q out j hj m) k h ∙ v.apart q out k h;
}
  where
    later :
        (k : ℕ)
        → i ≤ k
        → k < i + suc n
        → (a.buffers k).modified_by ≡ tsx
        → k ≢ i
        → (c.buffers k).modified_by ≡ invalid_tsx
    later k lo hi m ne =
        w.cleaned k (omega arith) (omega arith) (v.outside k (inr (omega arith)) ∙ m)

    still :
        (q : ℕ)
        → ((j : ℕ)
            → j < buffer_pool_size
            → (a.buffers j).modified_by ≡ tsx
            → (a.buffers j).page_number ≢ q)
        → (j : ℕ) → j < buffer_pool_size
        → (b.buffers j).modified_by ≡ tsx
        → (b.buffers j).page_number ≢ q
    still q out j hj m e = elim (ℕ_discrete (a.buffers j).modified_by tsx) [
      | yes own ↦ out j hj own (sym (v.number j) ∙ e)
      | no ne ↦ ne (sym (v.others j ne) ∙ m)
    ]

flush_from-Written :
    (n : ℕ) (bm : BufferManager) (tsx i : ℕ)
    → i + n ≤ buffer_pool_size
    → Coherent bm
    → Written bm (flush_from bm tsx i n) tsx i n
unfolding flush_from
flush_from-Written zero bm tsx i small c = record {
  number = λ k. refl;
  page = λ k. refl;
  stays_clean = λ k m. m;
  cleaned = λ k lo hi m. absurd (omega arith);
  others = λ k ne. refl;
  outside = λ k o. refl;
  kept = record { coherent = c; same_view = λ q k v h. refl };
  page_count = refl;
  apart = λ q out k h. refl;
}
flush_from-Written (suc n) bm tsx i small c =
    let first = step-Written bm tsx i (omega arith) c in
    Written-join bm (step bm tsx i) _ tsx i n first
      (flush_from-Written n (step bm tsx i) tsx (i + 1) (omega arith) first.kept.coherent)

-- On a coherent pool whose mutex is free, flush_buffers returns, for a transaction: its frames are
-- clean, the frames of the others are as they were, the bytes of every page with a valid number, read
-- through the pool, stay, and in the file only the transaction's pages change.
pub flush_buffers-Written :
    (bm : BufferManager) (tsx : ℕ)
    → Coherent bm
    → bm.locked ≡ false
    → (bm' : BufferManager) × (flush_buffers bm tsx ≡ some bm')
      × Written bm bm' tsx 0 buffer_pool_size
unfolding flush_buffers
flush_buffers-Written bm tsx c free = (
  flush_from bm tsx 0 buffer_pool_size,
  rw free refl,
  flush_from-Written buffer_pool_size bm tsx 0 (omega arith) c,
)

-- What is in the file for the frames of the transaction, and for those that were clean.
pub Written-durable :
    (bm bm' : BufferManager) (tsx i k : ℕ)
    → Written bm bm' tsx 0 buffer_pool_size
    → i < buffer_pool_size
    → (bm.buffers i).page_number ≢ invalid_pnum
    → ((bm.buffers i).modified_by ≡ tsx) ⊎ ((bm.buffers i).modified_by ≡ invalid_tsx)
    → k < page_size
    → bm'.data_file.file.content ((bm.buffers i).page_number * page_size + k)
      ≡ (bm.buffers i).page k
Written-durable bm bm' tsx i k w small valid own h =
    let clean : (bm'.buffers i).modified_by ≡ invalid_tsx = elim own [
      | inl e ↦ w.cleaned i (omega arith) small e
      | inr e ↦ w.stays_clean i e
    ] in
    ap (λ n. bm'.data_file.file.content (n * page_size + k)) (sym (w.number i))
    ∙ sym (w.kept.coherent.clean i small clean (λ e. valid (sym (w.number i) ∙ e)) k h)
    ∙ ap (λ (m : ℕ → ℕ). m k) (w.page i)
