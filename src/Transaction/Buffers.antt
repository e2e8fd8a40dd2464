-- ===== src/Transaction/Buffers.antt =====
-- The list of a transaction's buffers, and the search for the one that holds a page.
use npsql.Base.{
  ℕ, ◌<◌, ◌≡◌, ◌∙◌, ◌⊎◌, inl, inr, refl, Bool, Bool-cases, true, false, Option, none, some, List,
  [], ◌∷◌, ◌++◌, if◌then◌else◌, ◌==◌, ==_iff, ==-false, sym, subst,
}
use npsql.ExprEval.{◌>>=◌}
use npsql.BufferManager.{BufferManager, buffer_pool_size}
use npsql.LockTable.{LockTable, slock, xlock}
use npsql.Transaction.{
  TransactionBuffer, Transaction, TransactionContext, Working, get_buffer, lock_already_taken,
  get_lock, taken,
}

-- Every entry has a frame of the pool: none was made for a page that the pool had no frame for.
abbrev pub Framed : List TransactionBuffer → Type 0
Framed [] = Unit {0}
Framed (b ∷ bs) = ((i : ℕ) × (b.buffer ≡ some i) × (i < buffer_pool_size)) × Framed bs

pub Framed-append :
    (bs : List TransactionBuffer) (b : TransactionBuffer) (i : ℕ)
    → Framed bs
    → b.buffer ≡ some i
    → i < buffer_pool_size
    → Framed (bs ++ (b ∷ []))
Framed-append [] b i framed e small = ((i, e, small), tt)
Framed-append (c ∷ bs) b i (own, framed) e small = (own, Framed-append bs b i framed e small)

-- An entry that the search gives for page `p`, and its frame.
pub record Found (bm : BufferManager) (bs : List TransactionBuffer) (p i : ℕ) : Type 0 where
  pub entry : TransactionBuffer
  pub found : get_buffer bm bs p ≡ some (some entry)
  pub frame : entry.buffer ≡ some i
  pub in_pool : i < buffer_pool_size
  pub holds : (bm.buffers i).page_number ≡ p

-- The search of a list whose first frame `j` holds the page, or does not.
module _ (bm : BufferManager) (b : TransactionBuffer) (bs : List TransactionBuffer) (p j : ℕ)
    (frame : b.buffer ≡ some j) where
  get_buffer-here :
      ((bm.buffers j).page_number == p) ≡ true → get_buffer bm (b ∷ bs) p ≡ some (some b)
  unfolding get_buffer
  get_buffer-here e = rw (frame, e) refl

  get_buffer-later :
      ((bm.buffers j).page_number == p) ≡ false → get_buffer bm (b ∷ bs) p ≡ get_buffer bm bs p
  unfolding get_buffer
  get_buffer-later e = rw (frame, e) refl

  Found-here :
      j < buffer_pool_size → ((bm.buffers j).page_number == p) ≡ true → Found bm (b ∷ bs) p j
  Found-here small e = record {
    entry = b;
    found = get_buffer-here e;
    frame = frame;
    in_pool = small;
    holds = (==_iff _ p).0 e;
  }

  Found-later :
      (i : ℕ) → ((bm.buffers j).page_number == p) ≡ false → Found bm bs p i → Found bm (b ∷ bs) p i
  Found-later i e f = record {
    entry = f.entry;
    found = get_buffer-later e ∙ f.found;
    frame = f.frame;
    in_pool = f.in_pool;
    holds = f.holds;
  }

Found-rest :
    (bm : BufferManager) (b : TransactionBuffer) (bs : List TransactionBuffer) (p j i : ℕ)
    → b.buffer ≡ some j
    → ((bm.buffers j).page_number == p) ≡ false
    → Found bm (b ∷ bs) p i
    → Found bm bs p i
Found-rest bm b bs p j i frame e f = record {
  entry = f.entry;
  found = sym (get_buffer-later bm b bs p j frame e) ∙ f.found;
  frame = f.frame;
  in_pool = f.in_pool;
  holds = f.holds;
}

pub get_buffer-cases :
    (bm : BufferManager) (bs : List TransactionBuffer) (p : ℕ)
    → Framed bs
    → (get_buffer bm bs p ≡ some none) ⊎ ((i : ℕ) × Found bm bs p i)
unfolding get_buffer
get_buffer-cases bm [] p framed = inl refl
get_buffer-cases bm (b ∷ bs) p ((j, frame, small), framed) =
    elim (Bool-cases ((bm.buffers j).page_number == p)) [
      | inl e ↦ inr (j, Found-here bm b bs p j frame small e)
      | inr e ↦ elim (get_buffer-cases bm bs p framed) [
        | inl absent ↦ inl (get_buffer-later bm b bs p j frame e ∙ absent)
        | inr (i, f) ↦ inr (i, Found-later bm b bs p j frame i e f)
      ]
    ]

-- After an entry whose frame holds the page is added, the search gives one.
pub get_buffer-append :
    (bm : BufferManager) (bs : List TransactionBuffer) (p i : ℕ) (held : Bool)
    → Framed bs
    → i < buffer_pool_size
    → (bm.buffers i).page_number ≡ p
    → (j : ℕ) × Found bm (bs ++ (record { buffer = some i; is_pinned = held } ∷ [])) p j
get_buffer-append bm [] p i held framed small e = (
  i,
  Found-here bm (record { buffer = some i; is_pinned = held }) [] p i refl small ((==_iff _ p).1 e),
)
get_buffer-append bm (b ∷ bs) p i held ((j, frame, in_pool), framed) small e =
    let rest = bs ++ (record { buffer = some i; is_pinned = held } ∷ []) in
    elim (Bool-cases ((bm.buffers j).page_number == p)) [
      | inl t ↦ (j, Found-here bm b rest p j frame in_pool t)
      | inr t ↦
          let (k, f) = get_buffer-append bm bs p i held framed small e in
          (k, Found-later bm b rest p j frame k t f)
    ]

-- The search looks at the frames' page numbers only.
pub get_buffer-same :
    (bm bm' : BufferManager) (bs : List TransactionBuffer) (p : ℕ)
    → ((k : ℕ) → (bm'.buffers k).page_number ≡ (bm.buffers k).page_number)
    → Framed bs
    → get_buffer bm' bs p ≡ get_buffer bm bs p
unfolding get_buffer
get_buffer-same bm bm' [] p number framed = refl
get_buffer-same bm bm' (b ∷ bs) p number ((j, frame, small), framed) =
    rw (frame, number j, get_buffer-same bm bm' bs p number framed) refl

pub Found-same :
    (bm bm' : BufferManager) (bs : List TransactionBuffer) (p i : ℕ)
    → ((k : ℕ) → (bm'.buffers k).page_number ≡ (bm.buffers k).page_number)
    → Framed bs
    → Found bm bs p i
    → Found bm' bs p i
Found-same bm bm' bs p i number framed f = record {
  entry = f.entry;
  found = get_buffer-same bm bm' bs p number framed ∙ f.found;
  frame = f.frame;
  in_pool = f.in_pool;
  holds = number i ∙ f.holds;
}

-- Where frames were given page `p`, and the others kept theirs, the search still gives one for `p`.
pub Found-grown :
    (bm bm' : BufferManager) (bs : List TransactionBuffer) (p i : ℕ)
    → ((k : ℕ)
        → ((bm'.buffers k).page_number ≡ p)
          ⊎ ((bm'.buffers k).page_number ≡ (bm.buffers k).page_number))
    → Framed bs
    → Found bm bs p i
    → (j : ℕ) × Found bm' bs p j
unfolding get_buffer
Found-grown bm bm' [] p i grown framed f = absurd (cc (f.found))
Found-grown bm bm' (b ∷ bs) p i grown ((j, frame, small), framed) f =
    elim (Bool-cases ((bm'.buffers j).page_number == p)) [
      | inl t ↦ (j, Found-here bm' b bs p j frame small t)
      | inr t ↦
          let (k, g) =
            Found-grown bm bm' bs p i grown framed
              (Found-rest bm b bs p j i frame (was t (grown j)) f) in
          (k, Found-later bm' b bs p j frame k t g)
    ]
  where
    was :
        ((bm'.buffers j).page_number == p) ≡ false
        → ((bm'.buffers j).page_number ≡ p)
          ⊎ ((bm'.buffers j).page_number ≡ (bm.buffers j).page_number)
        → ((bm.buffers j).page_number == p) ≡ false
    was t (inl e) = absurd (==-false _ p t e)
    was t (inr e) = rw (← e) t

-- A lock that is taken leaves the pool and the transaction's buffers.
pub record Locked (w w' : Working) : Type 0 where
  pub bmgr : w'.0.bmgr ≡ w.0.bmgr
  pub buffers : w'.1.buffers ≡ w.1.buffers
  pub id : w'.1.id ≡ w.1.id

Locked-refl : (w : Working) → Locked w w
Locked-refl w = record { bmgr = refl; buffers = refl; id = refl }

taken-Locked :
    (ctx : TransactionContext) (tsx : Transaction) (p : ℕ) (r : Bool × LockTable)
    → Locked (ctx, tsx) (taken (ctx, tsx) p r).1
taken-Locked ctx tsx p (true, lt) = record { bmgr = refl; buffers = refl; id = refl }
taken-Locked ctx tsx p (false, lt) = record { bmgr = refl; buffers = refl; id = refl }

bound-Locked :
    (w w' : Working) (p : ℕ) (o : Option (Bool × LockTable))
    → (o >>= λ r. some (taken w p r)) ≡ some (true, w')
    → Locked w w'
bound-Locked w w' p none e = absurd (cc e)
bound-Locked (ctx, tsx) w' p (some r) e =
    let same : (taken (ctx, tsx) p r).1 ≡ w' = cc in
    subst (λ (v : Working). Locked (ctx, tsx) v) same (taken-Locked ctx tsx p r)

pub get_lock-Locked :
    (w w' : Working) (p : ℕ) (shared : Bool) → get_lock w p shared ≡ some (true, w') → Locked w w'
unfolding get_lock
get_lock-Locked w w' p shared e = elim (Bool-cases (lock_already_taken w.1.locks p)) [
  | inl t ↦
      let held : ◌≡◌ {A = Option (Bool × Working)} (some (true, w)) (some (true, w')) = rw t at e in
      let same : w ≡ w' = cc in subst (λ (v : Working). Locked w v) same (Locked-refl w)
  | inr t ↦
      bound-Locked w w' p (if shared then slock w.0.locks p else xlock w.0.locks p) (rw t at e)
]
