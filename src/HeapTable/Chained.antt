-- ===== src/HeapTable/Chained.antt =====
-- A chain of allocation maps after a record is placed in it.
use npsql.Base.{
  ℕ, ◌≤◌, ◌<◌, ◌≡◌, ◌≢◌, ◌∙◌, ◌⊎◌, inl, inr, refl, ap, Mem, arith, ℕ_discrete, dec_lt, put_at_self,
  put_at-ne, List, [], ◌∷◌,
}
use npsql.Sql.{TableInfo}
use npsql.HeapTable.{Store, with_page, RecordId, read_am, am_page_type}
use npsql.HeapTable.Pages.{Grown}
use npsql.HeapTable.Heap.{Am, Map, Heap, limit}
use npsql.HeapTable.Kept.{Map-kept, Heap-kept}

-- A page that some map of a chain lists.
abbrev pub Listed : ℕ → List Am → Type 0
Listed pid [] = ⊥
Listed pid (a ∷ rest) = ((i : ℕ) × (i < a.n) × (a.entry i ≡ pid)) ⊎ Listed pid rest

-- The chain from a map on, after a record is placed in it.
pub record Chained (s : Store) (table : TableInfo) (a : Am) (rid : RecordId) (s' : Store)
    : Type 0 where
  pub head : Am
  pub others : List Am
  pub same_head : head.pid ≡ a.pid
  pub heap : Heap s' table (head ∷ others)
  pub among : Listed rid.pid (head ∷ others)
  pub below : (k : ℕ) → k < a.pid → s'.pages k ≡ s.pages k
  pub more : s.page_count ≤ s'.page_count
  pub exists : rid.pid < s'.page_count
  pub kept :
      (k : ℕ)
      → k < s.page_count
      → k ≢ rid.pid
      → (read_am (s.pages k)).page_type ≢ am_page_type
      → s'.pages k ≡ s.pages k

-- A page with room, and its next slot.
pub found-Chained :
    (s : Store) (table : TableInfo) (a : Am) (rest : List Am) (j slot : ℕ) (m : Mem)
    → Heap s table (a ∷ rest)
    → j < a.n
    → Grown table (s.pages (a.entry j)) m
    → Chained s table a (record { pid = a.entry j; slot = slot }) (with_page s (a.entry j) m)
found-Chained s table a rest j slot m (map, some_pages, heap) lt grown = record {
  head = a;
  others = rest;
  same_head = refl;
  heap = (
    Map-kept s s' table a rest rest map refl (omega arith) map.known map.full
        (other a.pid (omega (arith, map.after j lt)))
        (λ i hi. elim (ℕ_discrete i j) [
          | yes own ↦ rw (own, put_at_self s.pages (a.entry j) m) grown.ok
          | no ne ↦ rw (other (a.entry i) (apart i hi ne)) (map.pages i hi)
        ]),
    some_pages,
    Heap-kept s s' table (limit s.page_count rest) rest heap (omega arith) (omega arith)
        (λ k le hi. other k (omega (arith, map.before j lt))),
  );
  among = inl (j, lt, refl);
  below = λ k less. other k (omega (arith, map.after j lt));
  more = omega arith;
  exists = omega (arith, map.before j lt, map.known);
  kept = λ k hi ne type. other k ne;
}
  where
    s' : Store
    s' = with_page s (a.entry j) m

    other : (k : ℕ) → k ≢ a.entry j → s'.pages k ≡ s.pages k
    other k ne = put_at-ne s.pages (a.entry j) m k ne

    apart : (i : ℕ) → i < a.n → i ≢ j → a.entry i ≢ a.entry j
    apart i hi ne = elim (dec_lt i j) [
      | yes less ↦ omega (arith, map.increasing i j less lt)
      | no more ↦ omega (arith, map.increasing j i (omega arith) hi)
    ]

-- The record is placed behind a map.
pub behind :
    (s : Store) (table : TableInfo) (a b : Am) (bs : List Am) (rid : RecordId) (s' : Store)
    → Map s table a (b ∷ bs)
    → 0 < a.n
    → Chained s table b rid s'
    → Chained s table a rid s'
behind s table a b bs rid s' map some_pages c = record {
  head = a;
  others = c.head ∷ c.others;
  same_head = refl;
  heap = (
    Map-kept s s' table a (b ∷ bs) (c.head ∷ c.others) map c.same_head (omega (arith, c.same_head))
        (omega (arith, c.same_head, map.known, c.more)) map.full (c.below a.pid map.own_before)
        (λ i lt. rw (c.below (a.entry i) (map.before i lt)) (map.pages i lt)),
    some_pages,
    c.heap,
  );
  among = inr c.among;
  below = λ k lt. c.below k (omega (arith, map.own_before));
  more = c.more;
  exists = c.exists;
  kept = c.kept;
}

-- The record is placed after the chain has grown, which changes no page but that of the last map.
pub since :
    (s s1 : Store) (table : TableInfo) (a a1 : Am) (rid : RecordId) (s' : Store)
    → a1.pid ≡ a.pid
    → Map s table a []
    → s.page_count ≤ s1.page_count
    → ((k : ℕ) → k ≢ a.pid → k < s.page_count → s1.pages k ≡ s.pages k)
    → Chained s1 table a1 rid s'
    → Chained s table a rid s'
since s s1 table a a1 rid s' e map more same c = record {
  head = c.head;
  others = c.others;
  same_head = c.same_head ∙ e;
  heap = c.heap;
  among = c.among;
  below =
      λ k lt. c.below k (omega (arith, e)) ∙ same k (omega arith) (omega (arith, map.own_before));
  more = omega (arith, c.more);
  exists = c.exists;
  kept = λ k lt ne type.
      let e' : s1.pages k ≡ s.pages k =
        same k (λ own. type (rw own (ap (λ h. h.page_type) map.header))) lt in
      c.kept k (omega arith) ne (rw e' type) ∙ e';
}
