-- ===== src/Entry.antt =====
-- entry: what the servers for redis, memcached and HTTP share (entry/entry.go), and the parts of Go
-- that they need and that are not modelled.
pub mod Bufio
pub mod Redis
pub mod Memcached
pub mod Http
use uq.Prelude.{ℕ, Bytes, Bool, List, ◌*◌}

abbrev pub max_key_length : ℕ
max_key_length = 512

abbrev pub max_body_length : ℕ
max_body_length = 10 * 1024 * 1024

-- `room` is how many bytes `make` can allocate at once; it panics above. `to_upper_other` and
-- `fields_other` are bytes.ToUpper and strings.Fields on a text that is not ASCII, and `atoi_error` is
-- the text of the error of strconv.Atoi on a text that it refuses.
pub record Runtime : Type 0 where
  pub room : ℕ
  pub to_upper_other : Bytes → Bytes
  pub fields_other : Bytes → List Bytes
  pub atoi_error : Bytes → Bytes

-- What becomes of a request: it is handled, it waits for ever for a lock of the queue, or it panics,
-- which ends the process.
pub data Handled (A : Type 0) : Type 0 where
  done : A → Handled A
  hangs : Handled A
  crashes : Handled A

-- How a session goes: it ends, as handled, with a wait for ever or with the process; or it is cut off,
-- because the rounds that a definition allows are used up before.
pub data Session (A : Type 0) : Type 0 where
  ends : Handled A → Session A
  cut_off : Session A

-- The session is not cut off: it has closed, the process has panicked, or it waits for ever, for which
-- there is the reason `H`.
pub data Ended {A : Type 0} (H : Type 0) : Session A → Type 0 where
  has_closed : (a : A) → Ended H (ends (done a))
  has_crashed : Ended H (ends crashes)
  waits : H → Ended H (ends hangs)
