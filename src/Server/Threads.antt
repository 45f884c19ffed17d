-- ===== src/Server/Threads.antt =====
-- The threads that the server starts for connections over sockets.
use painting_cps.Prelude.{
  ℕ, zero, suc, ◌+◌, ◌<◌, ◌≡◌, refl, ◌∙◌, ap, ℤ, pos, negsuc, true, false, List, [], ◌∷◌, ◌++◌,
  arith, length, append_assoc, append-nil,
}
use painting_cps.Exec.{done}
use painting_cps.CText.{Bytes}
use painting_cps.Calls.{
  Call, socket_stream, bind_port, listen_on, accept_on, close_fd, start_thread, Reply, Net, net,
  returns,
}
use painting_cps.Client.Connect.{port_no}
use painting_cps.Options.Server.{Settings}
use painting_cps.Server.{
  accept_rounds, serve_sockets, server_main, start_serving, server_run, served,
}

-- What `accept` brings: an error, or a connection, whose thread is created.
pub data Incoming : Type 0 where
  error : Incoming
  caller : ℕ → Incoming

abbrev pub fails : Reply
fails = record { ret = negsuc 0; bytes = []; stops = false }

-- The signal that ends the program interrupts the last `accept`.
abbrev pub interrupted : Reply
interrupted = record { ret = negsuc 0; bytes = []; stops = true }

abbrev pub incoming_replies : List Incoming → List Reply → List Reply
incoming_replies [] rest = interrupted ∷ rest
incoming_replies (error ∷ ins) rest = fails ∷ incoming_replies ins rest
incoming_replies (caller c ∷ ins) rest = returns c ∷ returns 0 ∷ incoming_replies ins rest

abbrev pub incoming_calls : ℤ → List Incoming → List Call
incoming_calls fd [] = accept_on fd ∷ []
incoming_calls fd (error ∷ ins) = accept_on fd ∷ incoming_calls fd ins
incoming_calls fd (caller c ∷ ins) = accept_on fd ∷ start_thread (pos c) ∷ incoming_calls fd ins

-- The connections, and the arguments of the threads that a run starts.
abbrev pub callers : List Incoming → List ℤ
callers [] = []
callers (error ∷ ins) = callers ins
callers (caller c ∷ ins) = pos c ∷ callers ins

abbrev pub threads : List Call → List ℤ
threads [] = []
threads (start_thread n ∷ calls) = n ∷ threads calls
threads (c ∷ calls) = threads calls

abbrev pub stopped_net : List Reply → List Call → Net
stopped_net replies trace = record { replies = replies; trace = trace; global_stop = true }

length-incoming_replies :
    (ins : List Incoming) (rest : List Reply) → length ins < length (incoming_replies ins rest)
length-incoming_replies [] rest = omega arith
length-incoming_replies (error ∷ ins) rest = omega (arith, length-incoming_replies ins rest)
length-incoming_replies (caller c ∷ ins) rest = omega (arith, length-incoming_replies ins rest)

accept_rounds-incoming :
    (ins : List Incoming) (fuel : ℕ) (fd : ℤ) (rest : List Reply) (trace : List Call)
    → length ins + 1 < fuel
    → accept_rounds fuel fd (net (incoming_replies ins rest) trace)
      ≡ done tt (stopped_net rest (trace ++ incoming_calls fd ins))
unfolding accept_rounds
accept_rounds-incoming ins zero fd rest trace h = absurd (omega (arith, h))
accept_rounds-incoming ins (suc zero) fd rest trace h = absurd (omega (arith, h))
accept_rounds-incoming [] (suc (suc fuel)) fd rest trace h = refl
accept_rounds-incoming (error ∷ ins) (suc (suc fuel)) fd rest trace h =
    accept_rounds-incoming ins (suc fuel) fd rest (trace ++ accept_on fd ∷ []) (omega (arith, h))
    ∙ ap (λ (t : List Call). done tt (stopped_net rest t)) (simp append_assoc)
accept_rounds-incoming (caller c ∷ ins) (suc (suc fuel)) fd rest trace h =
    accept_rounds-incoming ins (suc fuel) fd rest
      ((trace ++ accept_on fd ∷ []) ++ start_thread (pos c) ∷ []) (omega (arith, h))
    ∙ ap (λ (t : List Call). done tt (stopped_net rest t)) (simp append_assoc)

threads-incoming_calls :
    (fd : ℤ) (ins : List Incoming) (rest : List Call)
    → threads (incoming_calls fd ins ++ rest) ≡ callers ins ++ threads rest
threads-incoming_calls fd [] rest = refl
threads-incoming_calls fd (error ∷ ins) rest = threads-incoming_calls fd ins rest
threads-incoming_calls fd (caller c ∷ ins) rest =
    ap (λ (t : List ℤ). pos c ∷ t) (threads-incoming_calls fd ins rest)

-- The answers to the calls of a server whose socket is set up.
abbrev pub serving_replies : ℕ → List Incoming → List Reply
serving_replies fd ins = returns fd ∷ returns 0 ∷ returns 0 ∷ incoming_replies ins (returns 0 ∷ [])

abbrev pub serving_calls : ℕ → List Incoming → List Call
serving_calls fd ins =
    socket_stream
    ∷ bind_port (pos fd) port_no
    ∷ listen_on (pos fd)
    ∷ (incoming_calls (pos fd) ins ++ close_fd (pos fd) ∷ [])

serve_sockets-incoming :
    (fd : ℕ) (ins : List Incoming)
    → serve_sockets (net (serving_replies fd ins) [])
      ≡ done tt (stopped_net [] (serving_calls fd ins))
unfolding serve_sockets
serve_sockets-incoming fd ins =
    let replies = incoming_replies ins (returns 0 ∷ []) in
    let start = socket_stream ∷ bind_port (pos fd) port_no ∷ listen_on (pos fd) ∷ [] in
    rw
      (accept_rounds-incoming ins (suc (length replies)) (pos fd) (returns 0 ∷ []) start
        (omega (arith, length-incoming_replies ins (returns 0 ∷ []))))
      (ap (λ (t : List Call). done tt (stopped_net [] t)) (simp append_assoc))

-- A server with sockets and without Storm and Kafka, whose socket is set up, loads the database and
-- starts one thread for each connection that `accept` brings, in their order, and none for an error;
-- when it is stopped it closes its socket and returns.
pub server_run-threads :
    (s : Settings) (raw : Bytes) (fd : ℕ) (ins : List Incoming)
    → s.tcp ≡ true
    → s.orbit ≡ false
    → s.storm ≡ false
    → s.kafka ≡ false
    → (server_run s raw (net (serving_replies fd ins) [])
        ≡ done
            (record { spout_ip = []; database = true; serving = served })
            (stopped_net [] (serving_calls fd ins)))
      × (threads (serving_calls fd ins) ≡ callers ins)
unfolding server_run start_serving server_main
server_run-threads s raw fd ins tcp orbit storm kafka = (
  rw (kafka, storm, orbit, tcp, serve_sockets-incoming fd ins) (rw storm refl),
  threads-incoming_calls (pos fd) ins (close_fd (pos fd) ∷ []) ∙ append-nil (callers ins),
)
