-- ===== src/Client/Connect.antt =====
-- The connections of `result_thread` and `display_thread` to the server, and its answer to a login.
pub mod Logins
use painting_cps.Prelude.{
  ℕ, ◌+◌, ◌≤◌, ◌<◌, ◌≡◌, ◌≢◌, ◌↔◌, refl, ◌∙◌, ap, ℤ, pos, is_neg, beq_ℤ, Bool, true, false, List,
  [], ◌∷◌, ◌++◌, arith, beq_bytes, if◌then◌else◌, length, length-append, take, drop, append_assoc,
  Bool-cases, inl, inr,
}
use painting_cps.Exec.{
  Outcome, Exec, done, exits, ◌>>=◌, ◌>>◌, pure, exit, lift, ok, undefined, null_pointer,
}
use painting_cps.CText.{Bytes, codes, sprintf, overlay}
use painting_cps.CText.Tokens.{IsPlain}
use painting_cps.CText.Copies.{sprintf-fits, overlay-fits}
use painting_cps.Calls.{
  Call, socket_stream, find_host, connect_port, write_to, read_from, Reply, Net, call, value,
  set_stop,
}
use painting_cps.MsgDistributor.State.{Host, Method}
use painting_cps.MsgDistributor.Connections.{connect}
use painting_cps.MsgDistributor.Transfer.{send, recv}
use painting_cps.Login.{
  Users, Served, transmit, result, unknown, failed, header, log_in, command, answer, server_thread,
  server_thread-header,
}

abbrev pub failed_text : Bytes
failed_text = codes "failed" ++ 0 ∷ []

-- What the server writes for a login; a connection with an unknown command is closed only.
unfoldable pub login_answer : Served → Bytes
login_answer (transmit user) = codes "ok" ++ 0 ∷ []
login_answer (result user) = codes "ok" ++ 0 ∷ []
login_answer unknown = []
login_answer failed = failed_text

-- `strcmp(response, "failed") == 0`.
abbrev pub is_failed : Bytes → Bool
is_failed response = beq_bytes (take 7 response) failed_text

-- The port of the server and `sizeof(response)`.
abbrev pub port_no : ℕ
port_no = 20001

abbrev pub response_size : ℕ
response_size = 10

-- `global_stop` is set before the process ends, when the server is not there.
abbrev unavailable : Exec Net ℤ
unavailable = set_stop >> exit (pos 0)

abbrev pub server_name : Bool → Bytes
server_name sb = if sb then codes "sb" else codes "127.0.0.1"

module _ (sb debug : Bool) (user : Bytes) (raw response : Bytes) where
  -- From the connected socket on: the header is written and the answer read.
  unfoldable pub log_in_tcp : Bytes → ℤ → Exec Net ℤ
  unfolding sprintf
  log_in_tcp text sockfd = do
    n ← value (write_to sockfd text)
    if is_neg n then exit (pos 1) else do
      reply ← call (read_from sockfd response_size)
      if is_neg reply.ret then exit (pos 1) else do
        got ← lift (overlay response (take response_size reply.bytes))
        if is_failed got then exit (pos 1) else pure sockfd

  -- The socket mode. The host's name is printed in debug mode before it is tested for null.
  unfoldable pub connect_tcp : Bytes → Exec Net ℤ
  unfolding log_in_tcp
  connect_tcp thread_type = do
    text ← lift (sprintf raw (header thread_type user))
    sockfd ← value socket_stream
    if is_neg sockfd then exit (pos 1) else do
      server ← value (find_host (server_name sb))
      if beq_ℤ server (pos 0) then (if debug then undefined null_pointer else exit (pos 0)) else do
        r ← value (connect_port sockfd port_no)
        if is_neg r then unavailable else log_in_tcp text sockfd

  -- In `result_thread` and in `display_thread`.
  unfoldable pub result_connect : Exec Net ℤ
  unfolding connect_tcp
  result_connect = connect_tcp (codes "result")

  unfoldable pub transmit_connect : Exec Net ℤ
  unfolding connect_tcp
  transmit_connect = connect_tcp (codes "transmit")

-- The mode over MsgDistributor; `first` and `second` are what other threads do while `connect` and
-- `recv` wait. The id is put into `id_set` where the call succeeds.
module _ (host : Host) (user : Bytes) (raw response : Bytes)
    (first second : Method (Unit {0})) where
  unfoldable pub log_in_orbit : Bytes → ℤ → Method ℤ
  unfolding send recv overlay
  log_in_orbit text sockfd = do
    n ← send host sockfd text
    if is_neg n then exit (pos 1) else do
      (ret, bytes) ← recv host sockfd response_size second
      if is_neg ret then exit (pos 1) else do
        got ← lift (overlay response bytes)
        if is_failed got then exit (pos 1) else pure sockfd

  -- `result_thread` goes on with whatever `connect` returned.
  unfoldable pub result_connect_orbit : Method ℤ
  unfolding log_in_orbit connect sprintf
  result_connect_orbit = do
    text ← lift (sprintf raw (header (codes "result") user))
    sockfd ← connect host first
    log_in_orbit text sockfd

  -- `display_thread` ends the process where `connect` failed.
  unfoldable pub transmit_connect_orbit : Method ℤ
  unfolding log_in_orbit connect sprintf
  transmit_connect_orbit = do
    text ← lift (sprintf raw (header (codes "transmit") user))
    sockfd ← connect host first
    if is_neg sockfd then exit (pos 0) else log_in_orbit text sockfd
