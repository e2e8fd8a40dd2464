-- ===== src/Scans.antt =====
-- server/src/scans.c: the rows of a SELECT, one at a time. A `struct scan` with its function pointers
-- is an interface over the state it works on; `next` gives `none` where C leaves it undefined (an
-- expression that overflows) or where the fuel of a loop is out.
pub mod Product
pub mod Filter
pub mod Open
pub mod Query
pub mod Tables
use npsql.Base.{
  ℕ, zero, suc, List, [], ◌∷◌, not, ◌+◌, ◌*◌, Bool, true, false, ◌&&◌, Option, none, some,
  if◌then◌else◌,
}
use npsql.Base.Int.{ℤ}
use npsql.Sql.{
  Str, strn_eq, type_unknown, type_bool, type_eq, Identifier, Expr, Union, Value, zero_value,
  Column, TableInfo,
}
use npsql.DataPage.{max_column_name}
use npsql.HeapTable.{
  Store, RecordId, HeapTable, HeapIterator, open_heap_table, open_heap_iterator, next_record,
  get_value,
}
use npsql.ExprEval.{eval, as_boolean, ◌>>=◌}

-- The current row, as `get_value` reads it.
abbrev pub Row : Type 0
Row = Identifier → Value

pub record Scan (S : Type 0) : Type 0 where
  pub next : S → Option (Bool × S)
  pub reset : S → S
  pub get_value : S → Row

-- `product_scan_get_value`: the left scan's value, or the right's where the left knows none.
abbrev pub product_value : Row → Row → Row
product_value l r name = if type_eq (l name).type type_unknown then r name else l name

-- The state of a product scan: those of its scans, and `primed`.
pub record ProductState (S T : Type 0) : Type 0 where
  pub l : S
  pub r : T
  pub primed : Bool

module _ {S T : Type 0} (left : Scan S) (right : Scan T) where
  -- `ps->r->next(ps->r) && ps->l->next(ps->l)` after the reset.
  abbrev next_left : ProductState S T → Bool × T → Option (Bool × ProductState S T)
  next_left s (false, t) = some (false, record s { r = t })
  next_left s (true, t) = do (more, l) ← left.next s.l; some (more, record s { r = t; l = l })

  abbrev after_right : ProductState S T → Bool × T → Option (Bool × ProductState S T)
  after_right s (true, t) = some (true, record s { r = t })
  after_right s (false, t) = right.next (right.reset t) >>= next_left s

  unfoldable pub product_scan_next : ProductState S T → Option (Bool × ProductState S T)
  product_scan_next s = if s.primed then right.next s.r >>= after_right s else some (false, s)

  unfoldable pub product_scan : Scan (ProductState S T)
  product_scan = record {
    next = product_scan_next;
    reset = λ s. record s { l = left.reset s.l; r = right.reset s.r };
    get_value = λ s. product_value (left.get_value s.l) (right.get_value s.r);
  }

  unfoldable pub new_product_scan : S → T → Option (ProductState S T)
  new_product_scan s t = do
    (primed, l) ← left.next s
    some (record { l = l; r = t; primed = primed })

-- The state of a project scan: `has_next`, and its scan's.
pub record ProjectState (S : Type 0) : Type 0 where
  pub has_next : Bool
  pub scan : S

-- A project scan over a scan, or over NULL: then one row comes up, whose values and whose reset are a
-- NULL pointer's; `garbage_row` stands for them.
module _ (garbage_row : Row) {S : Type 0} where
  unfoldable pub project_scan_next :
      Option (Scan S) → ProjectState S → Option (Bool × ProjectState S)
  project_scan_next none s = some (s.has_next, record s { has_next = false })
  project_scan_next (some inner) s = do
    (more, t) ← inner.next s.scan
    some (more, record s { scan = t })

  abbrev project_scan_get_value : Option (Scan S) → ProjectState S → Row
  project_scan_get_value none s = garbage_row
  project_scan_get_value (some inner) s = inner.get_value s.scan

  abbrev project_scan_reset : Option (Scan S) → ProjectState S → ProjectState S
  project_scan_reset none s = s
  project_scan_reset (some inner) s = record s { scan = inner.reset s.scan }

  unfoldable pub project_scan : Option (Scan S) → Scan (ProjectState S)
  project_scan inner = record {
    next = project_scan_next inner;
    reset = project_scan_reset inner;
    get_value = project_scan_get_value inner;
  }

abbrev pub new_project_scan : {S : Type 0} → S → ProjectState S
new_project_scan s = record { has_next = true; scan = s }

-- `v.type == TYPE_BOOL && v.as.boolean == true`
abbrev pub is_true : (Union → ℤ) → (Union → Bool) → Value → Bool
is_true garbage garbage_bool v = type_eq v.type type_bool && as_boolean garbage garbage_bool v.as_

module _ (garbage : Union → ℤ) (garbage_bool : Union → Bool) {S : Type 0} (inner : Scan S)
    (where_clause : Expr) where
  -- A turn of the loop; `rest` is what the turns after it give.
  abbrev pub select_turn : Bool → S → Option (Bool × S) → Option (Bool × S)
  select_turn false s rest = some (false, s)
  select_turn true s rest = eval garbage garbage_bool where_clause (inner.get_value s) >>= λ v.
      if is_true garbage garbage_bool v then some (true, s) else rest

  -- The loop on fuel.
  unfoldable pub select_scan_next : ℕ → S → Option (Bool × S)
  select_scan_next zero s = none
  select_scan_next (suc n) s = do
    (more, s') ← inner.next s
    select_turn more s' (select_scan_next n s')

  unfoldable pub select_scan : ℕ → Scan S
  select_scan fuel = record {
    next = select_scan_next fuel;
    reset = inner.reset;
    get_value = inner.get_value;
  }

-- MAX_TABLE_NAME
abbrev max_table_name : ℕ
max_table_name = 15

-- The table scan works on the iterator; its table and its heap stay as they are.
module _ (s : Store) (fuel : ℕ) (ti : TableInfo) (first_am : ℕ) where
  abbrev ht : HeapTable
  ht = open_heap_table ti first_am

  -- The first column of the name, or the number of the columns.
  abbrev pub ordinal_of : List Column → Str → ℕ
  ordinal_of [] name = 0
  ordinal_of (c ∷ cs) name =
      if strn_eq name c.name max_column_name then 0 else suc (ordinal_of cs name)

  -- The test of the qualifier.
  abbrev other_table : Option Str → Bool
  other_table none = false
  other_table (some qualifier) = not (strn_eq qualifier ti.table_name max_table_name)

  -- Into a value that is all zeros, as `eval` passes it.
  unfoldable pub record_row : RecordId → Row
  record_row rid name =
      if other_table name.qualifier
      then zero_value
      else get_value s ht rid (ordinal_of ti.columns name.name) zero_value

  abbrev table_scan_get_value : HeapIterator → Row
  table_scan_get_value i = record_row i.current_record

  unfoldable pub table_scan : Scan HeapIterator
  table_scan = record {
    next = next_record fuel s;
    reset = λ i. (open_heap_iterator s ht i).1;
    get_value = table_scan_get_value;
  }

  -- The iterator as `memset` leaves it.
  abbrev zero_iterator : HeapIterator
  zero_iterator = record {
    table = ht;
    current_record = record { pid = 0; slot = 0 };
    current_am_pid_index = 0;
    current_am = record { page_type = 0; pages_count = 0; me = 0; next = 0 };
    page_number = 0;
    current_page_iterator = record {
      page = record {
        header = record { page_type = 0; records_begin = 0; records_end = 0; slot_count = 0 };
        table = ti;
        current_position = 0;
        frame = λ _. 0;
      };
      current_slot = 0;
      current_record = 0;
    };
  }

  unfoldable pub new_table_scan : HeapIterator
  new_table_scan = (open_heap_iterator s ht zero_iterator).1
