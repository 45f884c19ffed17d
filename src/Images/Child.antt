-- ===== src/Images/Child.antt =====
-- `transmit_child` of client/client-OpenCV.cpp as a whole: `size_per_time` copies of one file, in each
-- of the three modes. The time measurements and the lock around a copy are left out.
pub mod Sent
pub mod Stored
use painting_cps.Prelude.{
  ℕ, zero, suc, ℤ, pos, negsuc, is_neg, beq_ℤ, List, [], ◌∷◌, ◌++◌, Option, none, some,
  if◌then◌else◌, length, take, replicate,
}
use painting_cps.Exec.{Result, ok, bind, Exec, done, ◌>>=◌, ◌>>◌, pure, exit, lift}
use painting_cps.CText.{Bytes, overlay, slice, sprintf}
use painting_cps.Calls.{stat_file, open_file, write_to, read_from, Net, call, value}
use painting_cps.Client.Display.{plus_one}
use painting_cps.Images.Info.{file_info, fake_name}
use painting_cps.Images.Blocks.{fread_blocks}
use painting_cps.Images.Tcp.{tcp_block, send_tcp}
use painting_cps.Images.Orbit.{recv_length, fill}
use painting_cps.Images.Packager.{send_image}
use painting_cps.MsgDistributor.State.{Host, Method}
use painting_cps.MsgDistributor.Frames.{id_length}
use painting_cps.MsgDistributor.Transfer.{send, recv}

-- `sizeof(response)`, and the array `fake_name`.
abbrev pub response_length : ℕ
response_length = 10

-- The name that is announced, and `fake_id` afterwards: a file that is sent several times gets a name
-- of its own each time, made in an array of 100 bytes.
unfoldable pub announced_name : ℤ → Bytes → (ℕ → Bytes) → ℕ → Result (Bytes × ℕ)
unfolding fake_name sprintf
announced_name size_per_time file_name stack fake_id =
    if beq_ℤ size_per_time (pos 1)
    then ok (file_name, fake_id)
    else bind (sprintf (stack 100) (fake_name fake_id))
        (λ _. bind (plus_one fake_id) (λ next. ok (fake_name fake_id, next)))

-- `while (sockfd / divisor > 0)`, whose result is not used.
unfoldable pub socket_digits : ℤ → Result ℕ
unfolding id_length
socket_digits (pos n) = id_length (pos n)
socket_digits (negsuc n) = ok 1

-- The rounds of `for (int i = 0; i < size_per_time; ++i)`.
abbrev pub rounds_of : ℤ → ℕ
rounds_of (pos n) = n
rounds_of (negsuc n) = 0

module _ (stack : ℕ → Bytes) (size_per_time : ℤ) (file_name : Bytes) where
  -- The blocks of the file over a socket; a failed `send` ends the loop.
  unfoldable pub send_blocks : ℤ → List Bytes → Exec Net (Unit {0})
  send_blocks sockfd [] = pure tt
  send_blocks sockfd (b ∷ blocks) = do
    n ← value (write_to sockfd b)
    if is_neg n then pure tt else send_blocks sockfd blocks

  -- From the announcement on.
  unfoldable pub send_copy : ℤ → Bytes → Exec Net (Unit {0})
  unfolding send_blocks send_tcp
  send_copy sockfd info = do
    n ← value (write_to sockfd info)
    if is_neg n then exit (pos 1) else do
      r ← value (read_from sockfd response_length)
      if is_neg r then exit (pos 1) else do
        fp ← call (open_file file_name)
        if beq_ℤ fp.ret (pos 0) then exit (pos 0) else do
          send_blocks sockfd (send_tcp fp.bytes)
          value (read_from sockfd response_length)
          pure tt

  -- One copy over a socket, and `fake_id` afterwards. The value of `stat` is the file's size, or
  -- negative.
  unfoldable pub tcp_copy : ℤ → ℕ → Exec Net ℕ
  unfolding send_copy announced_name file_info
  tcp_copy sockfd fake_id = do
    file_stat ← value (stat_file file_name)
    elim file_stat [
      | negsuc _ ↦ exit (pos 1)
      | pos size ↦ do
        (name, next) ← lift (announced_name size_per_time file_name stack fake_id)
        info ← lift (file_info (replicate tcp_block 0) name size)
        send_copy sockfd info
        pure next
    ]

  unfoldable pub tcp_copies : ℕ → ℤ → ℕ → Exec Net ℕ
  unfolding tcp_copy
  tcp_copies zero sockfd fake_id = pure fake_id
  tcp_copies (suc n) sockfd fake_id = do next ← tcp_copy sockfd fake_id; tcp_copies n sockfd next

  -- The thread in the socket mode.
  unfoldable pub transmit_child : ℤ → ℕ → Exec Net ℕ
  unfolding tcp_copies
  transmit_child sockfd fake_id = tcp_copies (rounds_of size_per_time) sockfd fake_id

-- The mode over MsgDistributor. `file_stat` is the size that `stat` gives, `fp` the content of the file
-- that `fopen` opens; `others` is what other threads do while `recv` waits.
module _ (host : Host) (size_per_time : ℤ) (file_name : Bytes) (others : Method (Unit {0})) where
  unfoldable pub send_orbit_blocks : ℤ → List Bytes → Method (Unit {0})
  unfolding send
  send_orbit_blocks sockfd [] = pure tt
  send_orbit_blocks sockfd (b ∷ blocks) = do
    n ← send host sockfd (fill b)
    if is_neg n then pure tt else send_orbit_blocks sockfd blocks

  -- The announcement is the start of an array of 4096 bytes, of which 100 are sent.
  unfoldable pub orbit_copy : ℤ → Option ℕ → Option Bytes → ℕ → Method ℕ
  unfolding send_orbit_blocks announced_name file_info slice send recv socket_digits
  orbit_copy sockfd none fp fake_id = do lift (socket_digits sockfd); exit (pos 1)
  orbit_copy sockfd (some size) fp fake_id = do
    lift (socket_digits sockfd)
    (name, next) ← lift (announced_name size_per_time file_name host.stack fake_id)
    buffer_send ← lift (file_info (host.stack recv_length) name size)
    info ← lift (slice buffer_send 0 100)
    n ← send host sockfd info
    if is_neg n then exit (pos 1) else elim fp [
      | none ↦ exit (pos 0)
      | some file ↦ do
        recv host sockfd response_length others
        send_orbit_blocks sockfd (fread_blocks (suc (length file)) recv_length file)
        pure next
    ]

  -- Each copy with what `stat` and `fopen` give.
  unfoldable pub orbit_copies : ℤ → List (Option ℕ × Option Bytes) → ℕ → Method ℕ
  unfolding orbit_copy
  orbit_copies sockfd [] fake_id = pure fake_id
  orbit_copies sockfd ((file_stat, fp) ∷ rest) fake_id = do
    next ← orbit_copy sockfd file_stat fp fake_id
    orbit_copies sockfd rest next

-- The mode with MFPackager: the file is read into an array of its size and sent as one message. The
-- state is the list of messages.
module _ (stack : ℕ → Bytes) (mfsend : Bytes → ℤ) where
  unfoldable pub mf_copy : Option ℕ → Option Bytes → Exec (List Bytes) (Unit {0})
  unfolding overlay send_image
  mf_copy none fp = exit (pos 1)
  mf_copy (some size) none = exit (pos 0)
  mf_copy (some size) (some file) = do
    img ← lift (overlay (stack size) (take size file))
    (message, n) ← lift (send_image stack mfsend img)
    λ sent. (if is_neg n then exit (pos 1) else pure tt) (sent ++ message ∷ [])

  unfoldable pub mf_copies : List (Option ℕ × Option Bytes) → Exec (List Bytes) (Unit {0})
  unfolding mf_copy
  mf_copies [] = pure tt
  mf_copies ((file_stat, fp) ∷ rest) = do mf_copy file_stat fp; mf_copies rest
