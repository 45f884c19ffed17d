-- ===== src/Server.antt =====
-- `server_run` and `server_main` of server/server-OpenCV.cpp: from the settings to the loops that
-- accept connections. A new thread is a call with its argument.
pub mod Threads
pub mod Fuel
use painting_cps.Prelude.{
  ℕ, zero, suc, ℤ, pos, minus_one, is_neg, beq_ℤ, Bool, false, not, ◌&&◌, List, [], ◌∷◌, ◌==◌,
  if◌then◌else◌, length,
}
use painting_cps.Prelude.Assoc.{insert}
use painting_cps.Prelude.{bytes_eq}
use painting_cps.Exec.{Exec, done, ◌>>=◌, ◌>>◌, pure, exit, undefined, out_of_fuel}
use painting_cps.CText.{Bytes, codes}
use painting_cps.Calls.{
  socket_stream, bind_port, listen_on, accept_on, close_fd, start_thread, wait_signal, Net, value,
  stopped,
}
use painting_cps.Client.Connect.{port_no}
use painting_cps.Kafka.{new_producer}
use painting_cps.Login.{Users, Served, transmit, result, unknown}
use painting_cps.MsgDistributor.State.{Host, Method}
use painting_cps.MsgDistributor.Connections.{accept}
use painting_cps.Options.Server.{Settings}
use painting_cps.Storm.Spout.{gave_up, found, find_spout, datagram_size}

-- The loop of the socket mode, with fuel for as many rounds as there are answers, and one.
unfoldable pub accept_rounds : ℕ → ℤ → Exec Net (Unit {0})
accept_rounds zero sockfd = undefined out_of_fuel
accept_rounds (suc fuel) sockfd =
    let again = accept_rounds fuel sockfd in
    do
      stop ← stopped
      if stop then pure tt else do
        newsockfd ← value (accept_on sockfd)
        if is_neg newsockfd then again else do
          created ← value (start_thread newsockfd)
          if beq_ℤ created minus_one then pure tt else again

abbrev pub accept_loop : ℤ → Exec Net (Unit {0})
accept_loop sockfd s = accept_rounds (suc (length s.replies)) sockfd s

-- The socket mode of `server_main`.
unfoldable pub serve_sockets : Exec Net (Unit {0})
unfolding accept_rounds
serve_sockets = do
  sockfd ← value socket_stream
  if is_neg sockfd then exit (pos 1) else do
    bound ← value (bind_port sockfd port_no)
    if is_neg bound then exit (pos 1) else do
      listening ← value (listen_on sockfd)
      if not (beq_ℤ listening (pos 0))
          then exit (pos 1)
          else do accept_loop sockfd; value (close_fd sockfd); pure tt

-- The loop of the mode over MsgDistributor, until `global_stop` is set: what other threads do while
-- `accept` waits, and whether the thread could be created. The result lists the threads' arguments.
unfoldable pub serve_orbit : Host → List (Method (Unit {0}) × Bool) → Method (List ℤ)
unfolding accept
serve_orbit host [] = pure []
serve_orbit host ((others, created) ∷ rounds) =
    let again = serve_orbit host rounds in
    do
      newsockfd ← accept host others
      if is_neg newsockfd
          then again
          else if created
          then (do sockets ← again; pure (newsockfd ∷ sockets))
          else pure []

-- `mfThread`: the user "mf" counts as logged in twice, and the type chooses the function.
unfoldable pub mf_thread : Users → ℕ → Users × Served
unfolding insert
mf_thread users type = (
  insert (codes "mf") 2 users,
  if type == 0 then result (codes "mf") else if type == 1 then transmit (codes "mf") else unknown,
)

-- The mode with MFPackager: two threads with the types 0 and 1. Errors are printed only.
unfoldable pub serve_packager : Exec Net (Unit {0})
serve_packager = do
  value (start_thread (pos 0))
  value (start_thread (pos 1))
  value wait_signal
  pure tt

-- What `server_run` comes to: it returns early, it has served sockets or started the two threads, or
-- it goes on in the loop over MsgDistributor.
pub data Serving : Type 0 where
  not_ready served over_distributor : Serving

unfoldable pub server_main : Settings → Exec Net Serving
unfolding serve_sockets serve_packager
server_main s =
    if s.tcp
    then (do serve_sockets; pure served)
    else if s.orbit
    then pure over_distributor
    else if s.mf
    then (do serve_packager; pure served)
    else pure served

-- Behind the database; the thread of `mflisten_thread` has the argument 0.
unfoldable pub start_serving : Settings → Exec Net Serving
unfolding server_main
start_serving s =
    if s.orbit
    then (do
      created ← value (start_thread (pos 0))
      if beq_ℤ created minus_one then exit (pos 1) else server_main s)
    else server_main s

-- The globals that `server_run` sets, and what it comes to.
pub record ServerRun : Type 0 where
  pub spout_ip : Bytes
  pub database : Bool
  pub serving : Serving

-- With Storm and without Kafka the spout is looked for; `raw` is the array `buf`. Without Storm
-- `init_matchImg` loads the database.
unfoldable pub server_run : Settings → Bytes → Exec Net ServerRun
unfolding new_producer find_spout start_serving
server_run s raw = do
  if s.kafka then new_producer else pure tt
  finding ← (if s.storm && not s.kafka then find_spout [] raw else pure (found []))
  elim finding [
    | gave_up ↦ pure (record { spout_ip = []; database = false; serving = not_ready })
    | found spout_ip ↦ do
      serving ← start_serving s
      pure (record { spout_ip = spout_ip; database = not s.storm; serving = serving })
  ]
