-- ===== src/Kafka.antt =====
-- The class `KafkaProducer` of server/KafkaProducer.cpp. librdkafka is behind the calls; `run` is the
-- flag of server/kafka.h, which the handler of SIGTERM clears.
pub mod Drained
use painting_cps.Prelude.{
  ℕ, zero, suc, ℤ, pos, beq_ℤ, is_pos, Bool, true, false, ◌&&◌, List, if◌then◌else◌, length,
}
use painting_cps.Exec.{Exec, ◌>>=◌, ◌>>◌, pure, exit, undefined, out_of_fuel}
use painting_cps.CText.{Bytes}
use painting_cps.Calls.{
  create_producer, create_topic, outq_len, delete_topic, delete_producer, produce, poll, Net, call,
  value,
}

-- The constructor: without a producer or a topic, which are null pointers then, the process ends.
unfoldable pub new_producer : Exec Net (Unit {0})
new_producer = do
  producer ← value create_producer
  if beq_ℤ producer (pos 0)
      then exit (pos 1)
      else do topic ← value create_topic; if beq_ℤ topic (pos 0) then exit (pos 1) else pure tt

-- `send` and `sendString`, for the bytes of the message. An error of `produce` is printed only.
unfoldable pub kafka_send : Bool → Bytes → Exec Net (Unit {0})
kafka_send run message =
    if run then (do value (produce message); value (poll 0); pure tt) else pure tt

-- `while (run and producer->outq_len() > 0)`, for a flag that stays as it is. The length is asked for
-- again to print it.
unfoldable pub drain : ℕ → Bool → Exec Net (Unit {0})
drain zero run = undefined out_of_fuel
drain (suc fuel) run =
    let again = drain fuel run in
    if run
    then (do
      waiting ← value outq_len
      if is_pos waiting then (do value outq_len; value (poll 1000); again) else pure tt)
    else pure tt

-- The destructor sets the flag; the signal handler does not come in between.
unfoldable pub delete_kafka : Exec Net (Unit {0})
unfolding drain
delete_kafka s =
    (do drain (suc (length s.replies)) true; value delete_topic; value delete_producer; pure tt) s
