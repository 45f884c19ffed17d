-- ===== src/Calls.antt =====
-- The calls of the operating system around sockets, files and threads, as client/client-OpenCV.cpp,
-- server/server-OpenCV.cpp and storm/assist/starter.cpp make them. What the calls answer is a list
-- that stands for the world; a thread whose list is empty waits.
use painting_cps.Prelude.{
  ℕ, ◌-◌, ℤ, pos, Bool, true, false, List, [], ◌∷◌, ◌++◌, ◌||◌, take, replicate, length,
}
use painting_cps.Exec.{Exec, done, waits, ◌>>=◌}
use painting_cps.CText.{Bytes}

-- Descriptors are `int` values; a `read` or `recv` has the size of its buffer.
pub data Call : Type 0 where
  socket_stream socket_dgram : Call
  find_host parse_address : Bytes → Call
  bind_port connect_port : ℤ → ℕ → Call
  listen_on accept_on close_fd : ℤ → Call
  write_to : ℤ → Bytes → Call
  send_to : ℤ → ℕ → Bytes → Call
  read_from : ℤ → ℕ → Call
  stat_file open_file create_file : Bytes → Call
  start_thread : ℤ → Call
  store_file : Bytes → Bytes → Call
  create_producer create_topic outq_len delete_topic delete_producer : Call
  produce : Bytes → Call
  poll : ℕ → Call
  wait_signal : Call

-- The value of a call, the bytes that it brings, and whether `global_stop` was set by the time it
-- returned.
pub record Reply : Type 0 where
  pub ret : ℤ
  pub bytes : Bytes
  pub stops : Bool

-- `trace` lists the calls that returned.
pub record Net : Type 0 where
  pub replies : List Reply
  pub trace : List Call
  pub global_stop : Bool

abbrev pub reply_with : List Reply → Call → Exec Net Reply
reply_with [] c s = waits s
reply_with (r ∷ rs) c s =
    done r
      (record { replies = rs; trace = s.trace ++ c ∷ []; global_stop = s.global_stop || r.stops })

abbrev pub call : Call → Exec Net Reply
call c s = reply_with s.replies c s

-- A call of which only the value is used.
abbrev pub value : Call → Exec Net ℤ
value c s = (do r ← call c; λ t. done r.ret t) s

abbrev pub stopped : Exec Net Bool
stopped s = done s.global_stop s

abbrev pub set_stop : Exec Net (Unit {0})
set_stop s = done tt (record s { global_stop = true })

-- A zeroed array of `n` bytes into which a call put its bytes, no more than it holds.
abbrev pub buffer_of : ℕ → Bytes → Bytes
buffer_of n bytes = let got = take n bytes in got ++ replicate (n - length got) 0

-- A call that succeeds with a value, and one that brings bytes.
abbrev pub returns : ℕ → Reply
returns n = record { ret = pos n; bytes = []; stops = false }

abbrev pub brings : ℕ → Bytes → Reply
brings n bytes = record { ret = pos n; bytes = bytes; stops = false }

-- A world without a stop, with answers left and the calls made.
abbrev pub net : List Reply → List Call → Net
net replies trace = record { replies = replies; trace = trace; global_stop = false }
