-- ===== src/Kafka/Drained.antt =====
-- The end of a producer.
use painting_cps.Prelude.{
  ℕ, zero, suc, ◌+◌, ◌<◌, ◌≡◌, refl, ◌∙◌, ap, true, List, [], ◌∷◌, ◌++◌, arith, length,
  append_assoc,
}
use painting_cps.Exec.{done}
use painting_cps.Calls.{Call, outq_len, poll, delete_topic, delete_producer, Reply, net, returns}
use painting_cps.Kafka.{drain, delete_kafka}

-- The lengths of a queue that is not empty yet, less one, each with the length that is printed and the
-- value of a `poll`.
abbrev pub queue_replies : List (ℕ × ℕ × ℕ) → List Reply → List Reply
queue_replies [] rest = rest
queue_replies ((n, printed, polled) ∷ ns) rest =
    returns (suc n) ∷ returns printed ∷ returns polled ∷ queue_replies ns rest

abbrev pub queue_calls : List (ℕ × ℕ × ℕ) → List Call → List Call
queue_calls [] rest = rest
queue_calls (x ∷ ns) rest = outq_len ∷ outq_len ∷ poll 1000 ∷ queue_calls ns rest

length-queue_replies :
    (ns : List (ℕ × ℕ × ℕ)) (rest : List Reply)
    → length (queue_replies ns rest) ≡ length ns + length ns + length ns + length rest
length-queue_replies [] rest = omega arith
length-queue_replies ((n, printed, polled) ∷ ns) rest = omega (arith, length-queue_replies ns rest)

drain-queue :
    (ns : List (ℕ × ℕ × ℕ)) (fuel : ℕ) (rest : List Reply) (trace : List Call)
    → length ns < fuel
    → drain fuel true (net (queue_replies ns (returns 0 ∷ rest)) trace)
      ≡ done tt (net rest (trace ++ queue_calls ns (outq_len ∷ [])))
unfolding drain
drain-queue ns zero rest trace h = absurd (omega (arith, h))
drain-queue [] (suc fuel) rest trace h = refl
drain-queue ((n, printed, polled) ∷ ns) (suc fuel) rest trace h =
    drain-queue ns fuel rest (((trace ++ outq_len ∷ []) ++ outq_len ∷ []) ++ poll 1000 ∷ [])
      (omega (arith, h))
    ∙ ap (λ (t : List Call). done tt (net rest t)) (simp append_assoc)

-- The destructor polls once for every length of the queue that is not 0, however many there are and
-- whatever is printed of them, and when the queue is empty it deletes the topic and then the producer
-- and returns.
pub delete_kafka-queue :
    (ns : List (ℕ × ℕ × ℕ)) (a b : ℕ)
    → delete_kafka (net (queue_replies ns (returns 0 ∷ returns a ∷ returns b ∷ [])) [])
      ≡ done tt (net [] (queue_calls ns (outq_len ∷ []) ++ delete_topic ∷ delete_producer ∷ []))
unfolding delete_kafka
delete_kafka-queue ns a b =
    let rest = returns a ∷ returns b ∷ [] in
    let replies = queue_replies ns (returns 0 ∷ rest) in
    rw
      (drain-queue ns (suc (length replies)) rest []
        (omega (arith, length-queue_replies ns (returns 0 ∷ rest))))
      (ap (λ (t : List Call). done tt (net [] t))
        (append_assoc (queue_calls ns (outq_len ∷ [])) (delete_topic ∷ []) (delete_producer ∷ [])))
