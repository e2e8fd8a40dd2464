-- ===== src/HeapTable/Link.antt =====
-- A new allocation map, linked behind the last one of the chain.
use npsql.Base.{
  ℕ, ◌+◌, ◌<◌, ◌≡◌, ◌≢◌, ◌∙◌, refl, ap, arith, put_at, put_at_self, put_at-ne, [], ◌∷◌, some,
}
use npsql.Sql.{TableInfo}
use npsql.BufferManager.{invalid_pnum}
use npsql.HeapTable.{Store, with_page, put_am, add_new_am}
use npsql.HeapTable.Maps.{Fits, read_am-put_am, entry-put_am}
use npsql.HeapTable.Heap.{Am, Map, header_of}
use npsql.HeapTable.Kept.{Map-kept}

abbrev pub new_map : Store → Am
new_map s = record { pid = s.page_count; n = 0; entry = λ i. 0 }

abbrev pub with_map : Store → Store
with_map s = record {
  pages = put_at s.pages s.page_count (put_am (header_of (new_map s) []) (s.pages s.page_count));
  page_count = s.page_count + 1;
}

abbrev pub linked_store : Store → Am → Store
linked_store s a =
    with_page (with_map s) a.pid (put_am (header_of a (new_map s ∷ [])) ((with_map s).pages a.pid))

new-Fits : (s : Store) → s.page_count < invalid_pnum → Fits (header_of (new_map s) [])
new-Fits s numbers = record {
  page_type = omega arith;
  pages_count = omega arith;
  me = omega arith;
  next = omega arith;
}

-- The first map of a table.
pub with_map-Map :
    (s : Store) (table : TableInfo)
    → s.page_count + 1 < invalid_pnum
    → Map (with_map s) table (new_map s) []
with_map-Map s table numbers = record {
  header =
      rw
        (put_at_self s.pages s.page_count
          (put_am (header_of (new_map s) []) (s.pages s.page_count)))
        (read_am-put_am _ _ (new-Fits s (omega arith)));
  entries = λ i lt. absurd (omega arith);
  after = λ i lt. absurd (omega arith);
  increasing = λ i j less lt. absurd (omega arith);
  before = λ i lt. absurd (omega arith);
  own_before = omega arith;
  known = omega arith;
  small = omega arith;
  full = tt;
  pages = λ i lt. absurd (omega arith);
}

module _ (s : Store) (table : TableInfo) (a : Am) (map : Map s table a [])
    (numbers : s.page_count + 1 < invalid_pnum) where
  pub add_new_am-linked : add_new_am s (some (header_of a [])) ≡ (s.page_count, linked_store s a)
  unfolding add_new_am
  add_new_am-linked = refl

  own : (with_map s).pages a.pid ≡ s.pages a.pid
  own = put_at-ne s.pages s.page_count _ a.pid (omega (arith, map.own_before))

  pub linked_store-other :
      (k : ℕ) → k ≢ a.pid → k ≢ s.page_count → (linked_store s a).pages k ≡ s.pages k
  linked_store-other k ne ne' =
      put_at-ne (with_map s).pages a.pid _ k ne ∙ put_at-ne s.pages s.page_count _ k ne'

  linked_store-own :
      (linked_store s a).pages a.pid ≡ put_am (header_of a (new_map s ∷ [])) (s.pages a.pid)
  linked_store-own =
      put_at_self (with_map s).pages a.pid _ ∙ ap (put_am (header_of a (new_map s ∷ []))) own

  linked-Fits : Fits (header_of a (new_map s ∷ []))
  linked-Fits = record {
    page_type = omega arith;
    pages_count = omega (arith, map.small);
    me = omega (arith, map.own_before);
    next = omega arith;
  }

  pub linked-Map : a.n ≡ 61 → Map (linked_store s a) table a (new_map s ∷ [])
  linked-Map full = record {
    header = rw linked_store-own (read_am-put_am _ _ linked-Fits);
    entries = λ i lt. rw linked_store-own (entry-put_am _ _ i ∙ map.entries i lt);
    after = map.after;
    increasing = map.increasing;
    before = map.before;
    own_before = map.own_before;
    known = omega arith;
    small = map.small;
    full = full;
    pages = λ i lt.
        rw
          (linked_store-other (a.entry i) (omega (arith, map.after i lt))
            (omega (arith, map.before i lt)))
          (map.pages i lt);
  }

  pub new-Map : Map (linked_store s a) table (new_map s) []
  new-Map =
      Map-kept (with_map s) (linked_store s a) table (new_map s) [] []
        (with_map-Map s table numbers) refl (omega arith) (omega arith) tt
        (put_at-ne (with_map s).pages a.pid _ s.page_count (omega (arith, map.own_before)))
        (λ i lt. absurd (omega arith))
