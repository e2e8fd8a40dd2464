-- ===== src/Tests/Pool.antt =====
-- server/src/buffer_manager.c on a pool that starts empty, and on one with every frame in use.
use npsql.Base.{ℕ, ◌%◌, ◌≡◌, ◌≢◌, ◌<◌, refl, Mem, arith, some, none, true, false, find_from}
use npsql.LogFile.{File, LogFile}
use npsql.BufferManager.{
  BufferManager, buffer_pool_size, invalid_pnum, invalid_tsx, buffer_manager_initialize, pin,
  pin_locked, pin_new, unpin, take_buffer, read_buffer, flush_buffer, find_existing_buffer,
  choose_unpinned_buffer,
}
use npsql.BufferManager.View.{Coherent}
use npsql.BufferManager.Pin.{Pinned, pin-Pinned, pin-exhausted}

abbrev pub zeros : Mem
zeros _ = 0

-- Byte `a` of the data file is `a` in one byte.
abbrev pub counting : File
counting = record { size = 2048; content = λ a. a % 256 }

abbrev pub log : LogFile
log = record {
  file = counting;
  current_page_number = 3;
  current_page_position = 2;
  current_page = zeros;
}

abbrev pub new_pool : BufferManager
new_pool = buffer_manager_initialize (record { file = counting; page_count = 4 }) log zeros

pub new_pool-Coherent : Coherent new_pool
unfolding buffer_manager_initialize
new_pool-Coherent = record {
  unique = λ i j _ _ _ valid. absurd (valid refl);
  clean = λ i _ _ valid _ _. absurd (valid refl);
}

-- The pool after page 3 is read into the first frame.
abbrev pub after : BufferManager
after =
    let entered : BufferManager = record new_pool { locked = true } in
    take_buffer (read_buffer (flush_buffer entered 0) 0 3) 0

pub pin-3 : pin new_pool 3 ≡ some (some 0, after)
unfolding pin pin_locked find_existing_buffer choose_unpinned_buffer buffer_manager_initialize
    find_from
pin-3 = refl

pub three-valid : 3 ≢ invalid_pnum
three-valid e = absurd (omega arith)

pin-Pinned_example : Pinned new_pool after 3 0
pin-Pinned_example = pin-Pinned new_pool after 3 0 new_pool-Coherent three-valid pin-3

-- Every frame is pinned once, frame `i` by page `i`.
abbrev full_pool : BufferManager
full_pool = record new_pool {
  available_buffers = 0;
  buffers =
      λ i. record { pins = 1; page_number = i; modified_by = invalid_tsx; lsn = 0; page = zeros };
}

full_pool-free : full_pool.locked ≡ false
unfolding buffer_manager_initialize
full_pool-free = refl

full_pool-pinned : (i : ℕ) → i < buffer_pool_size → (full_pool.buffers i).pins ≢ 0
full_pool-pinned i h e = absurd (omega arith)

full_pool-absent : (i : ℕ) → i < buffer_pool_size → (full_pool.buffers i).page_number ≢ 100
full_pool-absent i h e = absurd (omega arith)

pin-exhausted_example :
    let stuck : BufferManager = record full_pool { locked = true } in
    (pin full_pool 100 ≡ some (none, stuck))
    × ((q : ℕ) → pin stuck q ≡ none)
    × (pin_new stuck ≡ none)
    × ((i : ℕ) → unpin stuck i ≡ none)
pin-exhausted_example = pin-exhausted full_pool 100 full_pool-free full_pool-pinned full_pool-absent
