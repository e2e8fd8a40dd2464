-- ===== src/Sessions.antt =====
-- server/src/nqp.c: the pool of sessions. `open_sessions` is a stack of the free sessions' numbers
-- that starts at `next_open`. Each call works under the manager's mutex, so it is one step; the
-- socket, the thread and the session's own fields are left out.
pub mod Pool
pub mod Messages
pub mod Query
use npsql.Bytes.{ptohs}
use npsql.Base.{
  true, false, Mem, Bool, ℕ, ◌+◌, ◌-◌, Option, none, some, Bool, ◌==◌, if◌then◌else◌, put_at,
}

abbrev pub max_session_count : ℕ
max_session_count = 10

pub record SessionManager : Type 0 where
  pub open_sessions : ℕ → ℕ
  pub next_open : ℕ

-- `open_sessions` past its end is whatever the struct held.
abbrev pub session_manager_init : SessionManager
session_manager_init = record { open_sessions = λ i. i; next_open = 0 }

-- The locked part of `handle_connection`: the session's number, or -1 as `none`.
unfoldable pub take_session : SessionManager → Option ℕ × SessionManager
take_session m =
    if m.next_open == max_session_count
    then (none, m)
    else (some (m.open_sessions m.next_open), record m { next_open = m.next_open + 1 })

abbrev nqp_hello : ℕ
nqp_hello = 1

abbrev session_id_length : ℕ
session_id_length = 16

-- The test of the three bytes that come first, on a host of the given byte order.
unfoldable pub handle_hello : Bool → Mem → Bool
handle_hello host header =
    if header 0 == nqp_hello then ptohs host header 1 == session_id_length else false

-- What the caller hears, and the session whose query loop then runs.
pub data Reply : Type 0 where
  no_reply : Reply
  sorry : Reply
  welcome : ℕ → Reply

abbrev reply_of : Option ℕ → Reply
reply_of none = sorry
reply_of (some id) = welcome id

unfoldable pub handle_connection : Bool → Mem → SessionManager → Reply × SessionManager
handle_connection host header m =
    let (free_slot, m') = take_session m in
    if handle_hello host header then (reply_of free_slot, m') else (no_reply, m)

-- A session that ends has been taken, so `next_open` is above 0.
unfoldable pub return_session : SessionManager → ℕ → SessionManager
return_session m id =
    let n = m.next_open - 1 in record { open_sessions = put_at m.open_sessions n id; next_open = n }
