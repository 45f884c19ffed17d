-- ===== src/Storm/Relay.antt =====
-- The Storm branch of `server_result` in server/server-OpenCV.cpp: an answer comes as a datagram, and
-- the client gets the image's information with it. `get_info` stands for the text file of an image.
use painting_cps.Prelude.{
  ℕ, ℤ, pos, beq_ℤ, int_eq, List, [], ◌∷◌, ◌++◌, Option, none, some, if◌then◌else◌, take, replicate,
}
use painting_cps.Exec.{Result, ok, bind, Exec, ◌>>=◌, ◌>>◌, pure, undefined, lift, empty_queue}
use painting_cps.CText.{Bytes, sprintf, overlay, strtok, c_string}
use painting_cps.CText.Stoi.{stoi}
use painting_cps.Results.{def_msg, token}
use painting_cps.Metrics.{Metrics, finish_request}

-- The object's part that a round changes: the queue of names, the messages that were sent, and the
-- counters.
pub record Answering : Type 0 where
  pub img_queue : List Bytes
  pub sent : List Bytes
  pub metrics : Metrics

abbrev pub result_size : ℕ
result_size = 1024

-- `bzero(buf, …)` and `recv`, which cuts a datagram to the array's size.
unfoldable pub result_buffer : Bytes → Result Bytes
result_buffer datagram = overlay (replicate result_size 0) (take result_size datagram)

-- `sizeof(sendInfo)` in `server_result`.
abbrev pub relay_size : ℕ
relay_size = 1024

-- What the client gets for the buffer; `stack n` is what an array of `n` bytes holds before it is
-- written.
unfoldable pub relay_message : (ℤ → Bytes) → (ℕ → Bytes) → Bytes → Result Bytes
relay_message get_info stack buf = bind (c_string buf) (λ numbers.
    bind (strtok b',' 0 buf) (λ found. bind (token found) (λ index_string.
      bind (stoi index_string.text) (λ matched_index.
        if beq_ℤ matched_index (pos 0)
        then ok def_msg
        else sprintf (stack relay_size) (get_info matched_index ++ b',' ∷ numbers)))))

abbrev send_message : Bytes → Exec Answering (Unit {0})
send_message message s = pure tt (record s { sent = s.sent ++ message ∷ [] })

abbrev end_round : Exec Answering (Unit {0})
end_round s = (lift (finish_request s.metrics) >>= λ m t. pure tt (record t { metrics = m })) s

-- A round behind the test for an empty queue, for the datagram that arrives, or none if `recv` fails.
unfoldable pub relay_round : (ℤ → Bytes) → (ℕ → Bytes) → Option Bytes → Exec Answering (Unit {0})
relay_round get_info stack arrival s = elim s.img_queue [
  | [] ↦ undefined empty_queue s
  | file_name ∷ rest ↦
      (elim arrival as (λ _. Exec Answering (Unit {0})) [
        | none ↦ end_round
        | some datagram ↦ do
          buf ← lift (result_buffer datagram)
          message ← lift (relay_message get_info stack buf)
          send_message message
          end_round
      ])
        (record s { img_queue = rest })
]
