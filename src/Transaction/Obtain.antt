-- ===== src/Transaction/Obtain.antt =====
-- `transactional_pin` and `transactional_append` while the pool has a spare frame.
use npsql.Base.{
  ℕ, ◌+◌, ◌<◌, ◌≡◌, ◌≢◌, ◌∙◌, inl, inr, refl, sym, ap, Mem, Bool-cases, true, false, none, some,
  put_at, put_at_self, put_at-ne, ℕ_discrete, arith,
}
use npsql.LogFile.{page_size}
use npsql.BufferManager.{BufferManager, buffer_pool_size, invalid_pnum, pin, pin_new}
use npsql.BufferManager.View.{view, view-holder}
use npsql.BufferManager.Obtain.{Spare, Obtained, pin-Obtained, Appended, pin_new-Appended}
use npsql.HeapTable.{Store}
use npsql.Transaction.{
  Transaction, TransactionContext, Working, get_buffer, transactional_pin, transactional_append,
  add_buffer,
}
use npsql.Transaction.Buffers.{
  Framed-append, Found, get_buffer-cases, get_buffer-append, Found-grown,
}
use npsql.Transaction.Shows.{Shows, valid_page, Attached, Ready}

Obtained-Shows :
    (bm bm' : BufferManager) (s : Store) (p i : ℕ)
    → Shows bm s
    → p < s.page_count
    → Obtained bm bm' p i
    → Shows bm' s
Obtained-Shows bm bm' s p i h hp o = record {
  coherent = o.pinned.kept.coherent;
  free = o.free;
  page_count = o.page_count ∙ h.page_count;
  fits = h.fits;
  numbers = λ j small valid. elim (o.numbers j) [
    | inl e ↦ rw e hp
    | inr e ↦ rw e (h.numbers j small (λ q. valid (e ∙ q)))
  ];
  bytes = λ q k hq hk.
      o.pinned.kept.same_view q k (valid_page q s.page_count hq h.fits) hk ∙ h.bytes q k hq hk;
}

module _ (ctx : TransactionContext) (tsx : Transaction) (p : ℕ) where
  pin-held :
      (i : ℕ) (f : Found ctx.bmgr tsx.buffers p i)
      → f.entry.is_pinned ≡ true
      → transactional_pin (ctx, tsx) p ≡ some (ctx, tsx)
  unfolding transactional_pin
  pin-held i f held = rw (f.found, held) refl

  pin-again :
      (i j : ℕ) (bm' : BufferManager) (f : Found ctx.bmgr tsx.buffers p i)
      → f.entry.is_pinned ≡ false
      → pin ctx.bmgr p ≡ some (some j, bm')
      → transactional_pin (ctx, tsx) p ≡ some (record ctx { bmgr = bm' }, tsx)
  unfolding transactional_pin
  pin-again i j bm' f let_go e = rw (f.found, let_go, e) refl

  pin-first :
      (j : ℕ) (bm' : BufferManager)
      → get_buffer ctx.bmgr tsx.buffers p ≡ some none
      → pin ctx.bmgr p ≡ some (some j, bm')
      → transactional_pin (ctx, tsx) p
        ≡ some (record ctx { bmgr = bm' }, add_buffer tsx (some j) true)
  unfolding transactional_pin
  pin-first j bm' absent e = rw (absent, e) refl

-- In a transaction at work on a store, while the pool has a spare frame: transactional_pin of a page
-- of the store returns, the transaction is at work on the same store, and it has a frame for the page.
pub transactional_pin-Attached :
    (w : Working) (s : Store) (p : ℕ)
    → Attached w s
    → Spare w.0.bmgr
    → p < s.page_count
    → (w' : Working) × (transactional_pin w p ≡ some w') × Attached w' s × Ready w' p
transactional_pin-Attached (ctx, tsx) s p a spare hp =
    let valid = valid_page p s.page_count hp a.shows.fits in
    let (j, bm', e, o) = pin-Obtained ctx.bmgr p a.shows.coherent a.shows.free spare valid in
    let shows = Obtained-Shows ctx.bmgr bm' s p j a.shows hp o in
    elim (get_buffer-cases ctx.bmgr tsx.buffers p a.framed) [
      | inl absent ↦ (
        (record ctx { bmgr = bm' }, add_buffer tsx (some j) true),
        pin-first ctx tsx p j bm' absent e,
        record {
          shows = shows;
          framed = Framed-append tsx.buffers _ j a.framed refl o.pinned.in_pool;
          named = a.named;
        },
        get_buffer-append bm' tsx.buffers p j true a.framed o.pinned.in_pool o.pinned.holds,
      )
      | inr (i, f) ↦ elim (Bool-cases f.entry.is_pinned) [
        | inl held ↦ ((ctx, tsx), pin-held ctx tsx p i f held, a, (i, f))
        | inr let_go ↦ (
          (record ctx { bmgr = bm' }, tsx),
          pin-again ctx tsx p i j bm' f let_go e,
          record { shows = shows; framed = a.framed; named = a.named },
          Found-grown ctx.bmgr bm' tsx.buffers p i o.numbers a.framed f,
        )
      ]
    ]

-- The store with a page more, and what the page holds.
abbrev pub with_new_page : Store → Mem → Store
with_new_page s m = record { pages = put_at s.pages s.page_count m; page_count = s.page_count + 1 }

Appended-Shows :
    (bm bm' : BufferManager) (s : Store) (i : ℕ)
    → Shows bm s
    → s.page_count < invalid_pnum
    → Appended bm bm' i
    → Shows bm' (with_new_page s (bm'.buffers i).page)
Appended-Shows bm bm' s i h room a = record {
  coherent = a.coherent;
  free = a.free;
  page_count = a.page_count ∙ ap (λ n. n + 1) h.page_count;
  fits = omega arith;
  numbers = λ j small valid. elim (a.numbers j) [
    | inl e ↦ rw (e, h.page_count) (omega arith)
    | inr e ↦ let old = h.numbers j small (λ q. valid (e ∙ q)) in rw e (omega arith)
  ];
  bytes = λ q k hq hk. elim (ℕ_discrete q s.page_count) [
    | yes e ↦ own q k e hk
    | no ne ↦
        a.same_view q k (valid_page q (s.page_count + 1) hq (omega arith))
          (λ e. ne (e ∙ h.page_count)) hk
        ∙ h.bytes q k (omega arith) hk
        ∙ ap (λ (m : Mem). m k) (sym (put_at-ne s.pages s.page_count (bm'.buffers i).page q ne))
  ];
}
  where
    own :
        (q k : ℕ)
        → q ≡ s.page_count
        → k < page_size
        → view bm' q k ≡ put_at s.pages s.page_count (bm'.buffers i).page q k
    own q k e hk =
        view-holder bm' a.coherent q i k a.in_pool (a.holds ∙ h.page_count ∙ sym e)
          (λ v. absurd (omega arith))
        ∙ ap (λ (m : Mem). m k) (sym (put_at_self s.pages s.page_count (bm'.buffers i).page))
        ∙ ap (λ x. put_at s.pages s.page_count (bm'.buffers i).page x k) (sym e)

append_lem :
    (ctx : TransactionContext) (tsx : Transaction) (i : ℕ) (bm' : BufferManager)
    → pin_new ctx.bmgr ≡ some (some i, bm')
    → transactional_append (ctx, tsx)
      ≡ some
          ((bm'.buffers i).page_number, (record ctx { bmgr = bm' }, add_buffer tsx (some i) true))
unfolding transactional_append
append_lem ctx tsx i bm' e = rw e refl

-- In a transaction at work on a store that has a page number left, while the pool has a spare frame:
-- transactional_append returns the number after the last page, the transaction is at work on the store
-- with that page added, whatever it holds, and it has a frame for the page.
pub transactional_append-Attached :
    (w : Working) (s : Store)
    → Attached w s
    → Spare w.0.bmgr
    → s.page_count < invalid_pnum
    → (w' : Working) × (m : Mem) × (transactional_append w ≡ some (s.page_count, w'))
      × Attached w' (with_new_page s m)
      × Ready w' s.page_count
transactional_append-Attached (ctx, tsx) s a spare room =
    let valid : ctx.bmgr.data_file.page_count ≢ invalid_pnum =
      λ e. absurd (past room (sym a.shows.page_count ∙ e)) in
    let absent =
      λ (j : ℕ) (small : j < buffer_pool_size)
          (e : (ctx.bmgr.buffers j).page_number ≡ ctx.bmgr.data_file.page_count).
        past (a.shows.numbers j small (λ q. valid (sym e ∙ q))) (e ∙ a.shows.page_count) in
    let (i, bm', e, o) =
      pin_new-Appended ctx.bmgr a.shows.coherent a.shows.free spare valid absent in
    let number = o.holds ∙ a.shows.page_count in
    (
      (record ctx { bmgr = bm' }, add_buffer tsx (some i) true),
      (bm'.buffers i).page,
      append_lem ctx tsx i bm' e
          ∙ ap (λ n. some (n, (record ctx { bmgr = bm' }, add_buffer tsx (some i) true))) number,
      record {
        shows = Appended-Shows ctx.bmgr bm' s i a.shows room o;
        framed = Framed-append tsx.buffers _ i a.framed refl o.in_pool;
        named = a.named;
      },
      get_buffer-append bm' tsx.buffers s.page_count i true a.framed o.in_pool number,
    )
  where
    past : {x y : ℕ} → x < y → x ≡ y → ⊥
    past h e = omega arith
