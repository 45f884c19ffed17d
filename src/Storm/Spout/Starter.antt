-- ===== src/Storm/Spout/Starter.antt =====
-- The test program storm/assist/starter.cpp, which plays the server for one picture.
use painting_cps.Prelude.{
  ℕ, ℤ, pos, negsuc, minus_one, is_neg, beq_ℤ, [], none, some, if◌then◌else◌, take,
}
use painting_cps.Exec.{Exec, ◌>>=◌, ◌>>◌, pure, exit, lift}
use painting_cps.CText.{Bytes, codes, overlay}
use painting_cps.Calls.{
  socket_dgram, bind_port, stat_file, open_file, close_fd, write_to, read_from, Net, call, value,
}
use painting_cps.Storm.Spout.{
  server_port, datagram_size, gave_up, found, find_spout, open_spout, announce_size,
}

abbrev pub image_name : Bytes
image_name =
    codes "/home/hadoop/worksapce/opencv-CPS/storm/src/jvm/storm/winlab/cps/MET_IMG/IMG_1.jpg"

-- The answer of the bolt is only printed.
unfoldable pub wait_result : Exec Net ℤ
wait_result = do
  fd ← value socket_dgram
  bound ← value (bind_port fd server_port)
  if is_neg bound
      then pure (pos 0)
      else do call (read_from fd datagram_size); value (close_fd fd); pure (pos 0)

-- The file is opened and read into an array of the size that `stat` gave; `stack n` is what a fresh
-- array of `n` bytes holds. The whole array is written.
unfoldable pub send_file : (ℕ → Bytes) → ℤ → ℕ → Exec Net ℤ
unfolding overlay wait_result
send_file stack sockfd size = do
  fp ← call (open_file image_name)
  if beq_ℤ fp.ret (pos 0) then pure minus_one else do
    img ← lift (overlay (stack size) (take size fp.bytes))
    ret ← value (write_to sockfd img)
    if is_neg ret then pure minus_one else do value (close_fd sockfd); wait_result

-- From the connection on. The value of `stat` is the file's size, or negative.
unfoldable pub transmit_file : (ℕ → Bytes) → ℤ → Exec Net ℤ
unfolding announce_size send_file
transmit_file stack sockfd = do
  size ← value (stat_file image_name)
  elim size [
    | negsuc _ ↦ exit (pos 1)
    | pos n ↦ do
      announced ← announce_size sockfd (pos n)
      if announced then send_file stack sockfd n else pure minus_one
  ]

-- `main`: the value that it returns.
unfoldable pub starter : (ℕ → Bytes) → Exec Net ℤ
unfolding find_spout open_spout transmit_file
starter stack = do
  finding ← find_spout [] (stack datagram_size)
  elim finding [
    | gave_up ↦ pure (pos 0)
    | found spout_ip ↦ do
      opened ← open_spout spout_ip
      elim opened [ none ↦ pure minus_one | some sockfd ↦ transmit_file stack sockfd ]
  ]
