-- ===== src/Tests/Rows.antt =====
-- server/src/scans.c, wal.c and nqp.c: two tables of two rows, an update record, and two connections.
use npsql.Base.{
  ap, ℕ, ◌+◌, ◌≡◌, ◌<◌, ◌⊎◌, refl, arith, Bool, true, false, Option, some, none, List, [], ◌∷◌, Mem,
  of_bytes, put_at,
}
use npsql.Base.Int.{ℤ, pos}
use npsql.Bytes.{read_uint32}
use npsql.Bytes.Laws.{ptohs-little}
use npsql.Sql.{Expr, expr_integer, expr_idenifier, infix_expr, expr_equ, Union, number, type_int}
use npsql.ExprEval.{eval, do_op, ◌>>=◌}
use npsql.Scans.{Row, Scan, ProductState, new_product_scan, product_scan, select_scan}
use npsql.Scans.Product.{Yields, done, more, Restarts, product_rows, new_product_scan-Yields}
use npsql.Scans.Filter.{Defined, kept_rows, select_scan-Yields}
use npsql.Sessions.{
  SessionManager, max_session_count, session_manager_init, take_session, handle_hello, no_reply,
  sorry, welcome, handle_connection,
}
use npsql.Sessions.Pool.{System, connect, Reach, here, next, start, handle_connection-fresh}
use npsql.LogFile.{File}
use npsql.BufferManager.{
  BufferManager, buffer_manager_initialize, invalid_lsn, pin, unpin, write_buffer,
}
use npsql.Wal.{log_update, update_record, undo_update}
use npsql.Wal.RoundTrip.{undo_update-update_record}

-- A row that gives `n` for every name.
abbrev pub const_row : ℕ → Row
const_row n _ = record { type = type_int; size = 4; as_ = number (pos n) }

-- A table in memory: the rows, those still to come, and the current one.
abbrev memory_next : List Row × Row → Option (Bool × (List Row × Row))
memory_next ([], r) = some (false, ([], r))
memory_next (x ∷ xs, r) = some (true, (xs, x))

abbrev pub two_rows : List Row
two_rows = const_row 1 ∷ const_row 2 ∷ []

abbrev pub memory_scan : Scan (List Row × Row)
memory_scan = record { next = memory_next; reset = λ s. (two_rows, s.1); get_value = λ s. s.1 }

pub memory-Yields : (xs : List Row) (r : Row) → Yields memory_scan (xs, r) xs
memory-Yields [] r = done ([], r) refl
memory-Yields (x ∷ xs) r = more (xs, x) refl (memory-Yields xs x)

pub memory-Restarts : Restarts memory_scan two_rows
memory-Restarts s = memory-Yields two_rows s.1

abbrev pub fresh : List Row × Row
fresh = (two_rows, const_row 0)

new_product_scan-Yields_example :
    (p : ProductState (List Row × Row) (List Row × Row)) × (new_product_scan memory_scan memory_scan
        fresh fresh
      ≡ some p)
    × Yields (product_scan memory_scan memory_scan) p (product_rows two_rows two_rows)
new_product_scan-Yields_example =
    new_product_scan-Yields memory_scan memory_scan two_rows memory-Restarts fresh fresh two_rows
      (memory-Yields two_rows (const_row 0)) (memory-Yields two_rows (const_row 0))

abbrev pub garbage : Union → ℤ
garbage _ = pos 0

abbrev pub garbage_bool : Union → Bool
garbage_bool _ = false

-- a = 2
abbrev pub a_is_2 : Expr
a_is_2 =
    infix_expr expr_equ (expr_idenifier (record { qualifier = none; name = 97 ∷ [] }))
      (expr_integer (pos 2))

two_rows-Defined : Defined garbage garbage_bool a_is_2 two_rows
unfolding eval do_op
two_rows-Defined = ((_, refl), ((_, refl), tt))

select_scan-Yields_example :
    Yields
      (select_scan garbage garbage_bool memory_scan a_is_2 3)
      fresh
      (kept_rows garbage garbage_bool a_is_2 two_rows)
select_scan-Yields_example =
    select_scan-Yields garbage garbage_bool memory_scan a_is_2 3 fresh two_rows
      (memory-Yields two_rows (const_row 0)) two_rows-Defined (omega arith)

-- One connection is open.
abbrev one_open : System
one_open = record {
  manager = record { open_sessions = λ i. i; next_open = 1 };
  active = put_at (λ _. false) 0 true;
}

abbrev hello : Mem
hello = of_bytes (1 ∷ 16 ∷ 0 ∷ [])

hello-good : handle_hello true hello ≡ true
unfolding handle_hello
hello-good = rw (ptohs-little hello 1)

first_connection : handle_connection true hello session_manager_init ≡ (welcome 0, one_open.manager)
unfolding handle_connection take_session
first_connection = rw hello-good

one_open-Reach : Reach start one_open
one_open-Reach = next here (connect true hello 0 one_open.manager first_connection)

handle_connection-fresh_example :
    ((handle_hello true hello ≡ false)
      × (handle_connection true hello one_open.manager ≡ (no_reply, one_open.manager)))
    ⊎ ((handle_connection true hello one_open.manager ≡ (sorry, one_open.manager))
        × ((id : ℕ) → id < max_session_count → one_open.active id ≡ true))
    ⊎ ((id : ℕ) × (m : SessionManager) × (handle_connection true hello one_open.manager
          ≡ (welcome id, m))
        × (id < max_session_count)
        × (one_open.active id ≡ false))
handle_connection-fresh_example = handle_connection-fresh true hello one_open-Reach

abbrev zeros : Mem
zeros _ = 0

abbrev some_file : File
some_file = record { size = 2048; content = λ a. a }

abbrev pool : BufferManager
pool =
    buffer_manager_initialize (record { file = some_file; page_count = 4 })
      (record {
        file = some_file;
        current_page_number = 3;
        current_page_position = 2;
        current_page = zeros;
      })
      zeros

abbrev old : Mem
old = of_bytes (41 ∷ 42 ∷ 43 ∷ [])

-- Transaction 9 is about to change three bytes of page 2 at 100.
abbrev log_page : Mem
log_page = of_bytes (update_record 9 2 100 old 3)

at_start : (k : ℕ) → k < 17 + 3 → log_page (0 + k) ≡ log_page k
at_start k h = let e : 0 + k ≡ k = omega arith in ap log_page e

undo_update-update_record_example :
    (log_page 0 ≡ log_update)
    × (read_uint32 log_page (0 + 1) ≡ 9)
    × ((entry : Mem) × ((j : ℕ) → j < 3 → entry j ≡ old j)
        × (undo_update pool log_page 0 9 ≡ (
            pin pool 2 >>= λ (p : Option ℕ × BufferManager).
            p.0 >>= λ i. unpin (write_buffer p.1 i entry 100 3 9 invalid_lsn) i)))
undo_update-update_record_example =
    undo_update-update_record 9 2 100 old 3 log_page 0 at_start pool (omega arith) (omega arith)
      (omega arith) (omega arith) (omega arith)
