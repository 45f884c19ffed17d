-- ===== src/Examples/Servers.antt =====
-- The server's start and end.
use painting_cps.Prelude.{◌≡◌, refl, true, List, [], ◌∷◌, ◌++◌}
use painting_cps.Exec.{done}
use painting_cps.Calls.{outq_len, delete_topic, delete_producer, net, returns}
use painting_cps.Kafka.{delete_kafka}
use painting_cps.Kafka.Drained.{queue_replies, queue_calls, delete_kafka-queue}
use painting_cps.Options.Server.{defaults}
use painting_cps.Server.{server_run, served}
use painting_cps.Server.Threads.{
  Incoming, caller, error, serving_replies, serving_calls, stopped_net, threads, callers,
  server_run-threads,
}

abbrev incoming : List Incoming
incoming = caller 5 ∷ error ∷ caller 6 ∷ []

server_run-threads_example :
    (server_run defaults [] (net (serving_replies 3 incoming) [])
      ≡ done
          (record { spout_ip = []; database = true; serving = served })
          (stopped_net [] (serving_calls 3 incoming)))
    × (threads (serving_calls 3 incoming) ≡ callers incoming)
server_run-threads_example = server_run-threads defaults [] 3 incoming refl refl refl refl

delete_kafka-queue_example :
    delete_kafka
      (net (queue_replies ((2, 2, 1) ∷ (0, 1, 0) ∷ []) (returns 0 ∷ returns 0 ∷ returns 0 ∷ [])) [])
    ≡ done tt (
        net [] (
          queue_calls ((2, 2, 1) ∷ (0, 1, 0) ∷ []) (outq_len ∷ [])
          ++ delete_topic ∷ delete_producer ∷ []))
delete_kafka-queue_example = delete_kafka-queue ((2, 2, 1) ∷ (0, 1, 0) ∷ []) 0 0
