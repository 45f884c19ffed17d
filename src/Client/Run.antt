-- ===== src/Client/Run.antt =====
-- `client_run`: the threads that the client starts, in their order.
use painting_cps.Prelude.{List, [], ◌∷◌, ◌++◌, if◌then◌else◌}
use painting_cps.Options.Client.{Settings}

pub data ClientThread : Type 0 where
  result_thread display_thread mflisten_thread test_thread : ClientThread

unfoldable pub client_run : Settings → List ClientThread
client_run s =
    result_thread
    ∷ display_thread
    ∷ ((if s.orbit then mflisten_thread ∷ [] else []) ++ (if s.test then test_thread ∷ [] else []))
