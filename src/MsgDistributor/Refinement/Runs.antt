-- ===== src/MsgDistributor/Refinement/Runs.antt =====
-- Runs of the object, and the order in which one connection's messages come out.
use painting_cps.Prelude.{◌≡◌, subst, ℤ, int_eq, List, [], ◌∷◌, ◌++◌, false, some}
use painting_cps.Prelude.Assoc.{find}
use painting_cps.Exec.{done}
use painting_cps.CText.{Bytes}
use painting_cps.MsgDistributor.State.{Host, MsgDistributor}
use painting_cps.MsgDistributor.Methods.{unopened}
use painting_cps.MsgDistributor.Invariant.{Inv}
use painting_cps.MsgDistributor.Channels.{Action}
use painting_cps.MsgDistributor.Channels.Order.{
  History, Steps, arrived, Untouched, Taken, Taken-arrived,
}
use painting_cps.MsgDistributor.Refinement.{perform, view, Ready, Simulates}
use painting_cps.MsgDistributor.Refinement.Actions.{perform-refines}

-- Actions that return one after another, with what they return; `sender` is the peer's host.
pub data Runs (sender host : Host) : MsgDistributor → History → MsgDistributor → Type 0 where
  rests : (d : MsgDistributor) → Runs sender host d [] d
  acts :
      (d e f : MsgDistributor) (a : Action) (r : ℤ × Bytes) (h : History)
      → Ready d a
      → perform sender host a d ≡ done r e
      → Runs sender host e h f
      → Runs sender host d ((a, r) ∷ h) f

module _ (sender host : Host) where
  pub Runs-refines :
      {d f : MsgDistributor} {h : History}
      → Inv d
      → unopened d ≡ false
      → Runs sender host d h f
      → Inv f × Steps (view d) h (view f)
  Runs-refines v opened (rests d) = (v, Steps.rests (view d))
  Runs-refines v opened (acts d e f a r h ready ran rest) =
      let (w, still, step) =
        subst (Simulates (view d) a) ran (perform-refines sender host d a v opened ready) in
      let (final, steps) = Runs-refines w still rest in
      (final, Steps.acts (view d) (view e) (view f) a r h step steps)

  -- Over every run of actions that return, from an initialised object under the invariant, in
  -- which a connection is neither closed nor opened anew, the messages that its receivers got and
  -- then those still queued are those that were queued at first and then those that arrived, in
  -- this order.
  pub received_in_order :
      (d f : MsgDistributor) (h : History) (id : ℤ) (q : List Bytes)
      → Inv d
      → unopened d ≡ false
      → find id d.queue_map ≡ some q
      → Runs sender host d h f
      → Untouched id h
      → (taken : List Bytes) × (left : List Bytes) × (find id f.queue_map ≡ some left)
        × Taken id h taken
        × (taken ++ left ≡ q ++ arrived id h)
  received_in_order d f h id q v opened e runs u =
      Taken-arrived id q (Runs-refines v opened runs).1 e u
