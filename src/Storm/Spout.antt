-- ===== src/Storm/Spout.antt =====
-- How a picture gets to Storm's spout: `server_run` of server/server-OpenCV.cpp asks where the spout
-- is, and `server_transmit` hands each picture over.
pub mod Starter
pub mod Delivered
pub mod Asked
pub mod Alike
use painting_cps.Prelude.{
  ℕ, zero, suc, ◌==◌, ℤ, pos, negsuc, is_neg, is_pos, beq_ℤ, Bool, true, false, not, ◌||◌, [], ◌∷◌,
  ◌++◌, Option, none, some, beq_bytes, if◌then◌else◌, length, take, replicate,
}
use painting_cps.Exec.{
  Result, fault, Exec, ◌>>=◌, ◌>>◌, pure, exit, undefined, lift, out_of_bounds, out_of_fuel,
}
use painting_cps.CText.{Bytes, codes, print_int, sprintf, slice, c_string}
use painting_cps.Results.{def_msg}
use painting_cps.Kafka.{kafka_send}
use painting_cps.Calls.{
  socket_stream, socket_dgram, bind_port, connect_port, find_host, parse_address, close_fd,
  write_to, send_to, read_from, create_file, store_file, Net, call, value, buffer_of,
}

abbrev pub spout_finder_port : ℕ
spout_finder_port = 9877

abbrev pub spout_port : ℕ
spout_port = 9878

abbrev pub server_port : ℕ
server_port = 9879

-- `sizeof(buf)` and `sizeof(buf_spout)`.
abbrev pub datagram_size : ℕ
datagram_size = 1024

abbrev pub spout_size : ℕ
spout_size = 100

-- The caller goes on with an address, or returns.
pub data Finding : Type 0 where
  gave_up : Finding
  found : Bytes → Finding

-- What the answer in the buffer says; `old` is `spoutIP` so far.
unfoldable pub read_finding : Bytes → ℤ → Bytes → Exec Net Finding
unfolding def_msg c_string
read_finding old ret buf =
    if is_pos ret
    then (if beq_bytes (take 5 buf) def_msg
        then pure gave_up
        else do spout_ip ← lift (c_string buf); pure (found spout_ip))
    else pure (found old)

-- The search for the spout. A socket that could not be created and a question that could not be sent
-- are only printed; `raw` is the uninitialised `buf`.
unfoldable pub find_spout : Bytes → Bytes → Exec Net Finding
unfolding read_finding sprintf c_string
find_spout old raw = do
  fd ← value socket_dgram
  bound ← value (bind_port fd server_port)
  if is_neg bound then pure gave_up else do
    address ← value (parse_address (codes "127.0.0.1"))
    if beq_ℤ address (pos 0) then exit (pos 1) else do
      buf ← lift (sprintf raw (codes "where"))
      question ← lift (c_string buf)
      value (send_to fd spout_finder_port question)
      reply ← call (read_from fd datagram_size)
      finding ← read_finding old reply.ret (buffer_of datagram_size reply.bytes)
      value (close_fd fd)
      pure finding

-- `while (connect(…) < 0)`, with fuel for as many rounds as there are answers, and one.
unfoldable pub connect_rounds : ℕ → ℤ → Exec Net (Unit {0})
connect_rounds zero fd s = (undefined out_of_fuel) s
connect_rounds (suc fuel) fd s =
    (do
      r ← value (connect_port fd spout_port)
      let again = connect_rounds fuel fd
      if is_neg r then again else pure tt)
      s

abbrev pub connect_loop : ℤ → Exec Net (Unit {0})
connect_loop fd s = connect_rounds (suc (length s.replies)) fd s

-- The connection to the spout; none where the socket could not be created.
unfoldable pub open_spout : Bytes → Exec Net (Option ℤ)
unfolding connect_rounds
open_spout spout_ip = do
  sockfd ← value socket_stream
  if is_neg sockfd then pure none else do
    value (parse_address spout_ip)
    spout ← value (find_host spout_ip)
    if beq_ℤ spout (pos 0) then exit (pos 0) else do connect_loop sockfd; pure (some sockfd)

-- The size is sent in an array of 100 bytes, and the spout's answer read; false after an error.
unfoldable pub announce_size : ℤ → ℤ → Exec Net Bool
unfolding sprintf print_int
announce_size sockfd file_size = do
  buf_spout ← lift (sprintf (replicate spout_size 0) (print_int file_size))
  sent ← value (write_to sockfd buf_spout)
  if is_neg sent
      then pure false
      else do reply ← call (read_from sockfd spout_size); pure (not (is_neg reply.ret))

-- `file_size` bytes of the array `img`, where a negative size is a huge one.
unfoldable pub picture_bytes : Bytes → ℤ → Result Bytes
unfolding slice
picture_bytes img (pos n) = slice img 0 n
picture_bytes img (negsuc n) = fault out_of_bounds

-- The picture itself, and the spout's answer, whatever it is.
unfoldable pub write_image : ℤ → Bytes → ℤ → Exec Net Bool
unfolding picture_bytes
write_image sockfd img file_size = do
  bytes ← lift (picture_bytes img file_size)
  ret ← value (write_to sockfd bytes)
  if is_neg ret
      then pure false
      else do call (read_from sockfd spout_size); value (close_fd sockfd); pure true

-- The whole hand-over; false where `server_transmit` returns.
unfoldable pub hand_over : Bytes → Bytes → ℤ → Exec Net Bool
unfolding open_spout announce_size write_image
hand_over spout_ip img file_size = do
  opened ← open_spout spout_ip
  elim opened [
    | none ↦ pure false
    | some sockfd ↦ do
      announced ← announce_size sockfd file_size
      if announced then write_image sockfd img file_size else pure false
  ]

-- Where a round of `server_transmit` goes on: to the queue of names, behind its loop, or nowhere.
pub data Kept : Type 0 where
  kept leaves returns_early : Kept

abbrev kept_if : Bool → Kept
kept_if b = if b then kept else returns_early

-- A received picture is written to a file, or passed on to Storm by Kafka or to the spout. `run` is the
-- flag of the producer.
unfoldable pub keep_picture : Bool → Bool → Bool → Bytes → Bytes → Bytes → ℤ → Exec Net Kept
unfolding hand_over picture_bytes kafka_send
keep_picture storm kafka run spout_ip file_name img file_size =
    if not storm
    then (do
      fp ← value (create_file file_name)
      if beq_ℤ fp (pos 0) then pure leaves else do
        bytes ← lift (picture_bytes img file_size)
        value (store_file file_name bytes)
        pure kept)
    else if kafka
    then (do bytes ← lift (picture_bytes img file_size); kafka_send run bytes; pure kept)
    else (do handed ← hand_over spout_ip img file_size; pure (kept_if handed))
