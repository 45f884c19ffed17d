-- ===== src/MsgDistributor/Refinement/Actions.antt =====
-- Every action on the object is a step of the channels, whatever the peer and the clients do.
use painting_cps.Prelude.{◌≡◌, false, int_eq}
use painting_cps.MsgDistributor.State.{Host, MsgDistributor}
use painting_cps.MsgDistributor.Methods.{unopened}
use painting_cps.MsgDistributor.Invariant.{Inv}
use painting_cps.MsgDistributor.Channels.{
  Action, hears, connects, accepts, receives, closes, creates, answers, brings, hangs_up,
}
use painting_cps.MsgDistributor.Refinement.{perform, view, Ready, Simulates}
use painting_cps.MsgDistributor.Refinement.Messages.{
  creates-refines, answers-refines, brings-refines, hangs_up-refines,
}
use painting_cps.MsgDistributor.Refinement.Calls.{
  connects-refines, accepts-refines, receives-refines, closes-refines,
}

-- For an initialised object under the invariant and every action within its bounds, the method
-- that carries it out either returns, keeps the invariant, leaves the object initialised and makes
-- one step of the abstract channels, or waits with the channels unchanged where these have nothing
-- to offer, or it is accept and ends the process with 1, or it is a receive that asks for more bytes
-- than the first message has and reads beyond it; it never faults in another way.
pub perform-refines :
    (sender host : Host) (d : MsgDistributor) (a : Action)
    → Inv d
    → unopened d ≡ false
    → Ready d a
    → Simulates (view d) a (perform sender host a d)
perform-refines sender host d (hears creates) v opened ready = creates-refines sender host v opened
perform-refines sender host d (hears (answers id)) v opened ready =
    answers-refines sender host v opened id ready
perform-refines sender host d (hears (brings id content)) v opened (small, fits) =
    brings-refines sender host v opened id content small fits
perform-refines sender host d (hears (hangs_up id)) v opened ready =
    hangs_up-refines sender host v opened id ready
perform-refines sender host d connects v opened ready = connects-refines sender host v opened
perform-refines sender host d accepts v opened (free, (last, e, room)) =
    accepts-refines sender host v opened free last e room
perform-refines sender host d (receives id size) v opened ready =
    receives-refines sender host v opened id size
perform-refines sender host d (closes id) v opened ready =
    closes-refines sender host v opened id ready
