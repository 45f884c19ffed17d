-- ===== src/MsgDistributor/Frames.antt =====
-- The messages on the network: `create`, `accepted,<id>,`, `sock,<id>,<content>` and `close,<id>,`.
pub mod Laws
use painting_cps.Prelude.{
  ℕ, zero, suc, ◌+◌, ◌-◌, ◌*◌, ◌/◌, ℤ, pos, negsuc, int_max, Bool, true, false, List, [], ◌∷◌, ◌++◌,
  ltb, ◌==◌, if◌then◌else◌, length,
}
use painting_cps.Exec.{Result, ok, fault, bind, int_overflow, out_of_bounds, out_of_fuel}
use painting_cps.CText.{Bytes, codes, print_int, sprintf, slice, write_at}
use painting_cps.MsgDistributor.State.{Host, buffer_size}

-- `id / divisor != 0` looks at the size of `id` only: division truncates towards 0.
abbrev pub magnitude : ℤ → ℕ
magnitude (pos n) = n
magnitude (negsuc n) = suc n

-- `while (id / divisor != 0) { divisor *= 10; ++id_length; }` on `int`s.
unfoldable pub id_rounds : ℕ → ℕ → ℕ → ℕ → Result ℕ
id_rounds zero id divisor id_length = fault out_of_fuel
id_rounds (suc fuel) id divisor id_length =
    let rest = id_rounds fuel id (divisor * 10) (id_length + 1) in
    if id / divisor == 0
    then ok id_length
    else if ltb int_max (divisor * 10)
    then fault int_overflow
    else rest

-- Ten rounds are enough: the divisor overflows in the tenth.
unfoldable pub id_length : ℤ → Result ℕ
unfolding id_rounds
id_length id = id_rounds 10 (magnitude id) 10 1

abbrev pub create_text : Bytes
create_text = codes "create"

abbrev pub accepted_text : ℤ → Bytes
accepted_text id = codes "accepted," ++ (print_int id ++ b',' ∷ [])

abbrev pub close_text : ℤ → Bytes
close_text id = codes "close," ++ (print_int id ++ b',' ∷ [])

abbrev pub sock_text : ℤ → Bytes
sock_text id = codes "sock," ++ (print_int id ++ b',' ∷ [])

-- The header with the content behind it.
abbrev pub sock_message : ℤ → Bytes → Bytes
sock_message id content = codes "sock," ++ (print_int id ++ b',' ∷ content)

-- A command fills an array of `BUFFER_SIZE` bytes, all of which are sent.
unfoldable pub command_frame : Host → Bytes → Result Bytes
command_frame host text = sprintf (host.stack buffer_size) text

-- The array that `send` builds: the header is printed, then the content is copied behind it.
unfoldable pub sock_frame : Host → ℤ → Bytes → Result Bytes
sock_frame host sock buffer = bind (id_length sock) λ n.
    bind (sprintf (host.stack (length buffer + n + 6)) (sock_text sock))
      λ content. write_at content (6 + n) buffer

-- `content_length = ret - id_length - 6` bytes from `id_char + id_length + 1`; a negative length
-- makes `malloc` and `memcpy` fail.
unfoldable pub frame_content : Bytes → ℕ → ℕ → ℕ → Result Bytes
frame_content buffer id_char ret n =
    if ltb ret (n + 6) then fault out_of_bounds else slice buffer (id_char + n + 1) (ret - n - 6)
