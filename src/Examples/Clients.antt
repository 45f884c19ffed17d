-- ===== src/Examples/Clients.antt =====
-- The threads of the client.
use painting_cps.Prelude.{
  ◌≡◌, ◌↔◌, refl, ℤ, pos, int_eq, true, false, List, [], ◌∷◌, ◌++◌, arith, replicate,
}
use painting_cps.Prelude.Assoc.{find}
use painting_cps.Exec.{ok, fault, done, out_of_bounds}
use painting_cps.CText.{Bytes, codes}
use painting_cps.Results.{Shown, show_result}
use painting_cps.Login.{Users, log_in, answer, command, server_thread, failed, header}
use painting_cps.MsgDistributor.State.{MsgDistributor}
use painting_cps.MsgDistributor.Invariant.{Inv}
use painting_cps.Client.Display.{
  Frame, start_display, camera_rounds, after, AllGood, camera_rounds_lem,
}
use painting_cps.Client.TestLoop.{test_rounds, start_testing, test_rounds-overflow}
use painting_cps.Client.Receiver.{Receiver, result_loop, repeated, pop_times, result_loop-repeated}
use painting_cps.Client.Stop.{client_stop, ids, listen_all, without, listen_all-client_stop}
use painting_cps.Client.Connect.{connect_tcp}
use painting_cps.Client.Connect.Logins.{
  login_replies, login_trace, logged, connect_tcp-server_thread,
}
use painting_cps.Examples.Sockets.{host, open_three, open_three-Inv}

abbrev nothing_shown : Shown Bytes
nothing_shown = record {
  draw_result = 0;
  result_title = [];
  result_artist = [];
  result_date = [];
  match_index = [];
  coord = [];
}

abbrev good_frame : Frame Bytes
good_frame = record {
  has_data = true;
  created = true;
  escape = false;
  stop = false;
  shown = nothing_shown;
}

abbrev frames : List (Frame Bytes)
frames = replicate 40 good_frame

frames-AllGood : AllGood frames
frames-AllGood = ground arith

camera_rounds_lem_example :
    camera_rounds (codes "ann") frames start_display
    ≡ ok (after (codes "ann") 1 5 frames start_display)
camera_rounds_lem_example =
    camera_rounds_lem (codes "ann") (omega arith) frames start_display frames-AllGood (omega arith)
      (omega arith)

test_rounds-overflow_example :
    test_rounds ((replicate 100 0, true) ∷ []) (start_testing 0) ≡ fault out_of_bounds
test_rounds-overflow_example = test_rounds-overflow 0 (replicate 100 0) true [] refl

abbrev receiver : Receiver Bytes
receiver = record {
  counter = pos 2;
  time_queue = 10 ∷ 20 ∷ [];
  shown = nothing_shown;
  global_stop = false;
}

abbrev text : Bytes → Bytes
text s = s

abbrev nones : List Bytes
nones = (codes "none" ++ 0 ∷ []) ∷ []

result_loop-repeated_example :
    (t : Receiver Bytes) × (result_loop text (pos 2) true (repeated 2 nones) receiver ≡ done tt t)
    × (t.shown ≡ nothing_shown)
    × (t.time_queue ≡ pop_times true 1 (10 ∷ 20 ∷ []))
    × (t.counter ≡ pos 2)
unfolding show_result
result_loop-repeated_example =
    result_loop-repeated text 1 true nones receiver nothing_shown refl refl refl

listen_all-client_stop_example :
    (contents : List Bytes) × (e : MsgDistributor) × (client_stop true (ids (3 ∷ 5 ∷ []))
      ≡ ok contents)
    × (listen_all host contents open_three ≡ done tt e)
    × Inv e
    × ((j : ℤ) → find j e.queue_map ≡ without (3 ∷ 5 ∷ []) j (find j open_three.queue_map))
listen_all-client_stop_example =
    listen_all-client_stop host open_three (3 ∷ 5 ∷ []) open_three-Inv refl (ground arith)

-- A second connection of a user.
abbrev users : Users
users = (codes "ann", 1) ∷ []

connect_tcp-server_thread_example :
    let served = (answer (log_in users (codes "ann")) (codes "transmit") (codes "ann")).1 in
    (sent : Bytes) × (server_thread users sent ≡ ok ((log_in users (codes "ann")).0, served))
    × (connect_tcp false false
          (codes "ann")
          (replicate 100 1)
          (replicate 10 1)
          (codes "transmit")
          (record { replies = login_replies 4 7 100 3 served; trace = []; global_stop = false })
        ≡ logged served 4
            (record { replies = []; trace = login_trace false 4 sent; global_stop = false }))
    × ((served ≡ failed) ↔ ((log_in users (codes "ann")).1 ≡ false))
unfolding command header
connect_tcp-server_thread_example =
    connect_tcp-server_thread false false (codes "ann") (replicate 100 1) (replicate 10 1) refl
      users (codes "transmit") 4 7 100 3 (ground arith) (ground arith) (ground arith) (ground arith)
      (ground arith) (omega arith) (omega arith)
