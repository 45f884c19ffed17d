-- ===== src/Examples/Users.antt =====
-- Logins and command lines.
use painting_cps.Prelude.{
  ◌≡◌, ◌≢◌, refl, ◌⊎◌, List, [], ◌∷◌, ◌++◌, true, false, not, ◌||◌, none, some, arith, min,
  minus_one, pos, if◌then◌else◌,
}
use painting_cps.Prelude.Assoc.{find}
use painting_cps.Exec.{ok}
use painting_cps.CText.{Bytes, codes, strtol, strtol_sign, scan_digits, to_int}
use painting_cps.Login.{
  Users, unknown, failed, header, server_thread, command, log_ins, tries, log_ins-two,
  server_thread-lock_out,
}
use painting_cps.Options.Server

abbrev ann : Bytes
ann = codes "ann"

abbrev bob : Bytes
bob = codes "bob"

log_ins-two_example :
    log_ins [] (ann ∷ bob ∷ ann ∷ ann ∷ []) ann ≡ min (tries (ann ∷ bob ∷ ann ∷ ann ∷ []) ann) 2
log_ins-two_example = log_ins-two (ann ∷ bob ∷ ann ∷ ann ∷ []) ann

server_thread-lock_out_example :
    (one two : Users) × (server_thread [] (header (codes "stop") ann ++ 0 ∷ []) ≡ ok (one, unknown))
    × (server_thread one (header (codes "stop") ann ++ 0 ∷ []) ≡ ok (two, unknown))
    × (server_thread two (header (codes "transmit") ann ++ 0 ∷ []) ≡ ok (two, failed))
unfolding command find
server_thread-lock_out_example =
    server_thread-lock_out [] (codes "stop") (codes "transmit") ann [] refl (ground arith)
      (ground arith) (ground arith) (ground arith) (ground arith) (ground arith) refl

abbrev server_settings : Server.Settings
server_settings = record Server.defaults {
  orbit = true;
  tcp = false;
  src_guid = pos 102;
  dst_guid = pos 101;
}

abbrev server_args : List Server.Parsed
server_args =
    Server.option 4 none
    ∷ Server.option 6 (some (codes "102"))
    ∷ Server.option 7 (some (codes "101"))
    ∷ []

start-runs_example :
    (server_settings.tcp ≡ not (server_settings.orbit || server_settings.mf))
    × (Server.msg_distributor (pos 102) (pos 101) ≡ (
        if server_settings.orbit
        then Server.msg_distributor server_settings.src_guid server_settings.dst_guid
        else if server_settings.mf
        then Server.mf_packager server_settings.src_guid server_settings.dst_guid
        else Server.sockets))
    × ((server_settings.tcp ≡ true)
        ⊎ ((server_settings.src_guid ≢ minus_one) × (server_settings.dst_guid ≢ minus_one)))
unfolding Server.start Server.parse Server.select Server.network Server.begin to_int strtol
    strtol_sign scan_digits
start-runs_example =
    Server.start-runs server_args server_settings (Server.msg_distributor (pos 102) (pos 101)) refl
