-- ===== src/BufferManager.antt =====
-- server/src/buffer_manager.c over server/src/data_file.c: a pool of page frames between the
-- transactions and the data file. The pool is a function from a frame's index to the frame; a
-- `struct buffer *` is the index. `data` is the content of the data file.
-- The mutex is a flag: `pin` and `pin_new` return NULL with it still held, so every operation says
-- whether it was entered (`none` is a call that waits for ever on a mutex nobody gives back).
pub mod Search
pub mod View
pub mod Evict
pub mod Pin
pub mod Write
pub mod Append
pub mod Flush
pub mod Obtain
use npsql.Base.{
  ℕ, zero, suc, ◌+◌, ◌-◌, ◌*◌, ◌%◌, ◌^◌, Mem, copy, from, Bool, true, false, Option, none, some,
  ltb, leb, ◌==◌, if◌then◌else◌, find_from, put_at,
}
use npsql.LogFile.{page_size, LogFile, flush_log, File, file_read, file_write}

abbrev pub buffer_pool_size : ℕ
buffer_pool_size = 100

abbrev pub invalid_pnum : ℕ
invalid_pnum = 2 ^ 64 - 1

abbrev pub invalid_lsn : ℕ
invalid_lsn = 2 ^ 64 - 1

abbrev pub invalid_tsx : ℕ
invalid_tsx = 2 ^ 32 - 1

-- uint16_t `x++` and `x--`
abbrev pub inc16 : ℕ → ℕ
inc16 x = (x + 1) % 2 ^ 16

abbrev pub dec16 : ℕ → ℕ
dec16 x = (x + 2 ^ 16 - 1) % 2 ^ 16

pub record DataFile : Type 0 where
  pub file : File
  pub page_count : ℕ

unfoldable pub write_page : DataFile → ℕ → Mem → DataFile
write_page df pnum page = record df { file = file_write df.file page page_size (pnum * page_size) }

unfoldable pub read_page : DataFile → ℕ → Mem → Mem
read_page df page_number page = file_read df.file page page_size (page_number * page_size)

unfoldable pub append_page : DataFile → Mem → DataFile × ℕ
append_page df p =
    (write_page (record df { page_count = df.page_count + 1 }) df.page_count p, df.page_count)

pub record Buffer : Type 0 where
  pub pins : ℕ
  pub page_number : ℕ
  pub modified_by : ℕ
  pub lsn : ℕ
  pub page : Mem

pub record BufferManager : Type 0 where
  pub data_file : DataFile
  pub log_file : LogFile
  pub available_buffers : ℕ
  pub buffers : ℕ → Buffer
  pub locked : Bool

-- `lsn` is not initialised by the code: `stale` is what malloc returned.
unfoldable pub buffer_manager_initialize : DataFile → LogFile → (ℕ → ℕ) → BufferManager
buffer_manager_initialize data_file log_file stale = record {
  data_file = data_file;
  log_file = log_file;
  available_buffers = buffer_pool_size;
  buffers = λ i. record {
    pins = 0;
    page_number = invalid_pnum;
    modified_by = invalid_tsx;
    lsn = stale i;
    page = λ _. 0;
  };
  locked = false;
}

unfoldable pub find_existing_buffer : BufferManager → ℕ → Option ℕ
find_existing_buffer bm pnum = find_from (λ b. b.page_number == pnum) bm.buffers 0 buffer_pool_size

unfoldable pub choose_unpinned_buffer : BufferManager → Option ℕ
choose_unpinned_buffer bm = find_from (λ b. b.pins == 0) bm.buffers 0 buffer_pool_size

unfoldable pub flush_buffer : BufferManager → ℕ → BufferManager
flush_buffer bm i =
    let b = bm.buffers i in
    let clean = put_at bm.buffers i (record b { modified_by = invalid_tsx }) in
    if b.modified_by == invalid_tsx then record bm { buffers = clean } else record bm {
      log_file = flush_log bm.log_file b.lsn;
      data_file = write_page bm.data_file b.page_number b.page;
      buffers = clean;
    }

unfoldable pub read_buffer : BufferManager → ℕ → ℕ → BufferManager
read_buffer bm i pnum =
    let b = bm.buffers i in
    record bm {
      buffers =
          put_at bm.buffers i
            (record b { page = read_page bm.data_file pnum b.page; page_number = pnum; pins = 0 });
    }

-- The end of `pin`: count the frame as in use and give the mutex back.
unfoldable pub take_buffer : BufferManager → ℕ → BufferManager
take_buffer bm i =
    let b = bm.buffers i in
    record bm {
      available_buffers = if b.pins == 0 then dec16 bm.available_buffers else bm.available_buffers;
      buffers = put_at bm.buffers i (record b { pins = inc16 b.pins });
      locked = false;
    }

-- The pointer that `pin` returns, NULL as `none`.
unfoldable pub pin_locked : BufferManager → ℕ → Option ℕ × BufferManager
pin_locked bm pnum = elim (find_existing_buffer bm pnum) [
  | some i ↦ (some i, take_buffer bm i)
  | none ↦ elim (choose_unpinned_buffer bm) [
    | none ↦ (none, bm)
    | some i ↦ (some i, take_buffer (read_buffer (flush_buffer bm i) i pnum) i)
  ]
]

unfoldable pub pin : BufferManager → ℕ → Option (Option ℕ × BufferManager)
pin bm pnum = if bm.locked then none else some (pin_locked (record bm { locked = true }) pnum)

unfoldable pub new_buffer : BufferManager → ℕ → BufferManager
new_buffer bm i =
    let b = bm.buffers i in
    let (df, page_number) = append_page bm.data_file b.page in
    record bm {
      data_file = df;
      buffers = put_at bm.buffers i (record b { page_number = page_number; pins = 1 });
      available_buffers = dec16 bm.available_buffers;
      locked = false;
    }

unfoldable pub pin_new_locked : BufferManager → Option ℕ × BufferManager
pin_new_locked bm = elim (choose_unpinned_buffer bm) [
  | none ↦ (none, bm)
  | some i ↦ (some i, new_buffer (flush_buffer bm i) i)
]

unfoldable pub pin_new : BufferManager → Option (Option ℕ × BufferManager)
pin_new bm = if bm.locked then none else some (pin_new_locked (record bm { locked = true }))

unfoldable pub unpin : BufferManager → ℕ → Option BufferManager
unpin bm i =
    let b = bm.buffers i in
    let pins = dec16 b.pins in
    if bm.locked
    then none
    else some (record bm {
      buffers = put_at bm.buffers i (record b { pins = pins });
      available_buffers = if pins == 0 then inc16 bm.available_buffers else bm.available_buffers;
    })

flush_from : BufferManager → ℕ → ℕ → ℕ → BufferManager
flush_from bm tsx i zero = bm
flush_from bm tsx i (suc n) =
    flush_from (if (bm.buffers i).modified_by == tsx then flush_buffer bm i else bm) tsx (i + 1) n

unfoldable pub flush_buffers : BufferManager → ℕ → Option BufferManager
unfolding flush_from
flush_buffers bm tsx = if bm.locked then none else some (flush_from bm tsx 0 buffer_pool_size)

unfoldable pub write_buffer : BufferManager → ℕ → Mem → ℕ → ℕ → ℕ → ℕ → BufferManager
write_buffer bm i update offset size tsx lsn =
    let b = bm.buffers i in
    record bm {
      buffers = put_at bm.buffers i (record b {
        modified_by = tsx;
        lsn = if b.lsn == invalid_lsn then b.lsn else lsn;
        page = copy b.page offset update size;
      });
    }
