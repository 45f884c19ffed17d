-- ===== src/Examples/Runs.antt =====
-- A message arrives on the open connection 3 and is received.
use painting_cps.Prelude.{
  ◌^◌, ◌≤◌, ◌<◌, ◌≡◌, refl, pos, int_eq, List, [], ◌∷◌, ◌++◌, some, arith, length,
}
use painting_cps.Prelude.Assoc.{find, insert}
use painting_cps.Exec.{done}
use painting_cps.CText.{Bytes}
use painting_cps.MsgDistributor.State.{MsgDistributor}
use painting_cps.MsgDistributor.Transfer.{recv, recv_request}
use painting_cps.MsgDistributor.Frames.{sock_message}
use painting_cps.MsgDistributor.Frames.Laws.{length-sock_message, length-print_nat-le}
use painting_cps.MsgDistributor.Protocol.{listen-sock_message}
use painting_cps.MsgDistributor.Effects.{deliver-known, recv_response-message}
use painting_cps.MsgDistributor.Channels.{hears, brings, receives}
use painting_cps.MsgDistributor.Channels.Order.{History, arrived, Taken}
use painting_cps.MsgDistributor.Refinement.{perform, view, Simulates}
use painting_cps.MsgDistributor.Refinement.Actions.{perform-refines}
use painting_cps.MsgDistributor.Refinement.Runs.{Runs, rests, acts, received_in_order}
use painting_cps.Examples.Sockets.{host, open_three, open_three-Inv, hello}

fits : (3 < 10 ^ 9) × (length (sock_message (pos 3) hello) ≤ 50000)
fits = (omega arith, omega (arith, length-sock_message 3 hello, length-print_nat-le 3))

perform-refines_example :
    Simulates
      (view open_three)
      (hears (brings 3 hello))
      (perform host host (hears (brings 3 hello)) open_three)
perform-refines_example =
    perform-refines host host open_three (hears (brings 3 hello)) open_three-Inv refl fits

abbrev delivered : MsgDistributor
delivered = record open_three { queue_map = (pos 3, hello ∷ []) ∷ []; sems = 1 ∷ [] }

abbrev received : MsgDistributor
received = record delivered { queue_map = (pos 3, []) ∷ []; sems = 0 ∷ [] }

abbrev history : History
history = (hears (brings 3 hello), (pos 0, [])) ∷ (receives (pos 3) 5, (pos 1, hello)) ∷ []

delivers : perform host host (hears (brings 3 hello)) open_three ≡ done (pos 0, []) delivered
unfolding find insert
delivers =
    rw (listen-sock_message host open_three 3 hello (ground arith) fits.0 fits.1)
      (rw (deliver-known host open_three (pos 3) hello 0 0 [] refl refl refl) refl)

takes : perform host host (receives (pos 3) 5) delivered ≡ done (pos 1, hello) received
unfolding find insert recv recv_request
takes = recv_response-message host delivered (pos 3) 5 0 0 hello [] refl refl refl refl refl

Runs-history : Runs host host open_three history received
Runs-history =
    acts open_three delivered received (hears (brings 3 hello)) (pos 0, []) _ fits delivers
      (acts delivered received received (receives (pos 3) 5) (pos 1, hello) [] tt takes
        (rests received))

received_in_order_example :
    (taken : List Bytes) × (left : List Bytes) × (find (pos 3) received.queue_map ≡ some left)
    × Taken (pos 3) history taken
    × (taken ++ left ≡ [] ++ arrived (pos 3) history)
unfolding find
received_in_order_example =
    received_in_order host host open_three received history (pos 3) [] open_three-Inv refl refl
      Runs-history tt
