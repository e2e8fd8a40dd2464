-- ===== src/Lib.antt =====
-- npsql is a small SQL database server. A query goes through the parser, the planner, a tree of plans
-- and a tree of scans; the rows are records on slotted pages, which transactions reach through a pool
-- of buffers, under page locks, with a write-ahead log. This library models the server's own logic.
--
--   Bytes          server/src/buffers.c, server/src/common.c: integers as bytes.
--   LogFile        server/src/log_file.c over server/src/file.c: pages of records linked backwards, the
--                  iterator, opening, flushing.
--   BufferManager  server/src/buffer_manager.c over server/src/data_file.c: the pool of frames. Its log
--                  is a LogFile, which it flushes before it writes a page.
--   LockTable      server/src/lock_table.c: shared and exclusive page locks.
--   Wal            server/src/wal.c: the records of a transaction, commit and rollback, over the log and
--                  the pool.
--   Transaction    server/src/transaction.c: the locks and buffers of a transaction, over LockTable,
--                  BufferManager and Wal; Transaction/Shows relates them to HeapTable's pages.
--   DataPage       server/src/data_page.c: slotted pages, on the frame that the transaction reads and
--                  updates.
--   HeapTable      server/src/heap_table.c: tables as chains of allocation maps, over a store of pages.
--   Catalog        server/src/syscat.c: the tables that say which tables there are.
--   Statements     server/src/create_table.c, insert.c: CREATE TABLE and INSERT over the catalog.
--   Engine         server/src/npsql.c: the statements of a query in order, over what they do.
--   Storage        server/src/storage.c: how columns lie in a record.
--   Sql            server/include/sql.h, types.h, value.h, storage.h: expressions, values and tables.
--   Values         server/src/value.c: a value from the bytes of a column.
--   SyntaxTree     server/src/sql.c: the blocks of the syntax tree, made and freed;
--                  SyntaxTree/Parse, the actions of server/src/parser.y.
--   Plans          server/src/plans.c: the tree of plans and its columns; Scans/Open opens it;
--                  Plans/Memory, its blocks, on the heap of SyntaxTree.
--   Planner        server/src/planner.c: the types of expressions and the columns of a result.
--   ExprEval       server/src/expr_eval.c: evaluation of expressions on a row; ExprEval/Resolve, the
--                  planner's types by rules.
--   Scans          server/src/scans.c: the scan of a table, and project, product and select scans over
--                  any scans.
--   Sessions       server/src/nqp.c: the pool of sessions; Sessions/Messages, the bytes of messages;
--                  Sessions/Query, the loop over a client's messages and the answer to a query.
--   Base, Tests    shared helpers; the theorems at concrete inputs.
--
-- What the model leaves open, besides what each file says. The pages in memory of the log and the frames
-- are functions on all addresses, so a write past the end of one is not `none`, but shows at the
-- addresses from 512 on. The heap tables work on a store of pages, which stands for a
-- pool in which every page can be pinned: the pins and unpins of heap_table.c and data_page.c are left
-- out, also those of `scan_am_for_insert`, which are not given back, so that the pool of 100 frames
-- running out during a scan is not seen there. BufferManager has that case, and Transaction the pins.
--
-- Operations have the names of the C functions and take the state as their first arguments. Memory is
-- a function from addresses to bytes; a struct is a record; a NULL pointer, a call that waits for ever
-- on a mutex, a call that a component takes as an argument and that does not return, and other undefined
-- behaviour of C are `none`, as each file says. Numbers are natural; where the
-- code's types wrap, the wrap-around is written out. Uninitialised memory is an argument.
--
-- A mutex is a flag in BufferManager and LockTable, where some paths leave it held, and is left out in
-- LogFile and Sessions, where each call gives it back. Interleavings are sequences of steps: a call under
-- a mutex is one step (LockTable/System, Sessions/Pool).
--
-- Loops over arrays recurse on a count. The others run on fuel: the one of `select_scan_next`, for which
-- fuel beyond the number of rows is enough; those of `heap_insert` and `next_record`, for which the
-- number of maps and two more, and the number of data pages, are enough; the loop over the sets of a
-- query, for which fuel beyond the number of statements is enough; the loop over a client's messages, for
-- which fuel beyond the number of queries is enough; and those of `do_rollback` and `fetch_table_info`,
-- whose fuel is an argument.
--
-- Not modelled: the generated lexer and parser (server/src/lexer.l, parser.y but for its actions),
-- the files that npsql.c opens, the memory outside the syntax tree and the plans, and the calls of
-- the operating system (threads.c, networking_linux.c, main.c). vector.h is a library: vectors are
-- lists, and in SyntaxTree and Plans/Memory what a push does to a vector's block is a parameter.
-- The catalog is an argument of the plans: what `fetch_table_info` fills in for a name. The client
-- is another program.
pub mod Base
pub mod Bytes
pub mod LogFile
pub mod BufferManager
pub mod LockTable
pub mod Sql
pub mod Values
pub mod ExprEval
pub mod Plans
pub mod Planner
pub mod SyntaxTree
pub mod Storage
pub mod DataPage
pub mod HeapTable
pub mod Catalog
pub mod Statements
pub mod Engine
pub mod Scans
pub mod Sessions
pub mod Wal
pub mod Transaction
pub mod Tests
