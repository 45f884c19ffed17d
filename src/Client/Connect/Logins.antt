-- ===== src/Client/Connect/Logins.antt =====
-- A client that logs in and the server that answers it, over sockets.
use painting_cps.Prelude.{
  ℕ, ◌+◌, ◌<◌, ◌≡◌, ◌≢◌, ◌↔◌, refl, ◌∙◌, ℤ, pos, Bool, true, false, List, [], ◌∷◌, ◌++◌, arith,
  length, drop,
}
use painting_cps.Exec.{Outcome, done, exits, ok}
use painting_cps.CText.{Bytes, codes}
use painting_cps.CText.Tokens.{IsPlain}
use painting_cps.CText.Copies.{sprintf-fits, overlay-fits}
use painting_cps.Calls.{
  Call, socket_stream, find_host, connect_port, write_to, read_from, Reply, returns, brings, Net,
}
use painting_cps.Login.{
  Users, Served, transmit, result, unknown, failed, header, log_in, command, answer, server_thread,
  server_thread-header,
}
use painting_cps.Client.Connect.{
  failed_text, login_answer, response_size, port_no, server_name, log_in_tcp, connect_tcp,
}

-- What the calls of a login answer when the server is there and answers as `served`.
abbrev pub login_replies : ℕ → ℕ → ℕ → ℕ → Served → List Reply
login_replies sockfd server n m served =
    returns sockfd ∷ returns server ∷ returns 0 ∷ returns n ∷ brings m (login_answer served) ∷ []

-- The calls that it makes.
abbrev pub login_trace : Bool → ℕ → Bytes → List Call
login_trace sb sockfd text =
    socket_stream
    ∷ find_host (server_name sb)
    ∷ connect_port (pos sockfd) port_no
    ∷ write_to (pos sockfd) text
    ∷ read_from (pos sockfd) response_size
    ∷ []

-- The client goes on with its socket, or ends with 1 after a refusal.
abbrev pub logged : Served → ℕ → Net → Outcome Net ℤ
logged (transmit user) sockfd t = done (pos sockfd) t
logged (result user) sockfd t = done (pos sockfd) t
logged unknown sockfd t = done (pos sockfd) t
logged failed sockfd t = exits (pos 1) t

command-ne-failed : (thread_type user : Bytes) → command thread_type user ≢ failed
unfolding command
command-ne-failed thread_type user e = ground (arith, e)

module _ (sb debug : Bool) (user raw response : Bytes)
    (sized : length response ≡ response_size) where
  -- The answer is read as it was meant.
  log_in_tcp-answer :
      (text : Bytes) (sockfd n m : ℕ) (served : Served) (trace : List Call)
      → served ≢ unknown
      → log_in_tcp sb debug user raw response text (pos sockfd) (record {
        replies = returns n ∷ brings m (login_answer served) ∷ [];
        trace = trace;
        global_stop = false;
      })
        ≡ logged served sockfd (record {
          replies = [];
          trace =
              (trace ++ write_to (pos sockfd) text ∷ [])
              ++ read_from (pos sockfd) response_size ∷ [];
          global_stop = false;
        })
  unfolding log_in_tcp login_answer
  log_in_tcp-answer text sockfd n m (transmit u) trace some_answer =
      rw (overlay-fits response (codes "ok" ++ 0 ∷ []) (omega (arith, sized))) refl
  log_in_tcp-answer text sockfd n m (result u) trace some_answer =
      rw (overlay-fits response (codes "ok" ++ 0 ∷ []) (omega (arith, sized))) refl
  log_in_tcp-answer text sockfd n m unknown trace some_answer = absurd (some_answer refl)
  log_in_tcp-answer text sockfd n m failed trace some_answer =
      rw (overlay-fits response failed_text (omega (arith, sized))) refl

  -- For a command that the server knows and a user, neither of them empty or with a comma or NUL and
  -- short enough for the header's array, a client whose calls succeed writes a header that the
  -- server reads back; on the server's answer it ends with 1 if the user had two connections
  -- already, and otherwise goes on with its socket.
  pub connect_tcp-server_thread :
      (users : Users) (thread_type : Bytes) (sockfd server n m : ℕ)
      → thread_type ≢ []
      → IsPlain b',' thread_type
      → user ≢ []
      → IsPlain b',' user
      → command thread_type user ≢ unknown
      → length (header thread_type user) < length raw
      → 0 < server
      → let served = (answer (log_in users user) thread_type user).1 in
        (text : Bytes) × (server_thread users text ≡ ok ((log_in users user).0, served))
        × (connect_tcp sb debug user raw response thread_type (record {
          replies = login_replies sockfd server n m served;
          trace = [];
          global_stop = false;
        })
            ≡ logged served sockfd
                (record { replies = []; trace = login_trace sb sockfd text; global_stop = false }))
        × ((served ≡ failed) ↔ ((log_in users user).1 ≡ false))
  unfolding connect_tcp
  connect_tcp-server_thread users thread_type sockfd server n m nt pt nu pu known fits up =
      let result = answer (log_in users user) thread_type user in
      let served = result.1 in
      let text = header thread_type user in
      let tail = drop (length text + 1) raw in
      let start =
        socket_stream ∷ find_host (server_name sb) ∷ connect_port (pos sockfd) port_no ∷ [] in
      let answers = answer_cases (log_in users user) thread_type known in
      (
        text ++ 0 ∷ tail,
        server_thread-header users thread_type user tail nt pt nu pu ∙ answers.0,
        rw (sprintf-fits raw text fits) (
            ground
              (arith, up, log_in_tcp-answer (text ++ 0 ∷ tail) sockfd n m served start answers.1)),
        answers.2,
      )
    where
      answer_cases :
          (after : Users × Bool) (thread_type : Bytes)
          → command thread_type user ≢ unknown
          → (ok (answer after thread_type user) ≡ ok (after.0, (answer after thread_type user).1))
            × ((answer after thread_type user).1 ≢ unknown)
            × (((answer after thread_type user).1 ≡ failed) ↔ (after.1 ≡ false))
      answer_cases (users, true) thread_type known =
          (refl, known, (λ e. absurd (command-ne-failed thread_type user e), λ e. cc))
      answer_cases (users, false) thread_type known = (refl, λ e. cc, (λ e. refl, λ e. refl))
