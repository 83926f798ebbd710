-- ===== src/Engine/Dispatch/Continued.antt =====
-- execution/engine/src: a command that advances a token, and how the token goes on.
use bpmnos_engine.Prelude.{ℕ, ◌≡◌, false}
use bpmnos_engine.Engine.World.{Call, World}
use bpmnos_engine.Engine.Expressions.{Expressions}
use bpmnos_engine.Engine.Advance.Entered.{is_empty}
use bpmnos_engine.Engine.Dispatch.{Model, call}
use bpmnos_engine.Engine.Continuation.{Continues, Ends}

module _ (model : Model) (x : Expressions) (global depth : ℕ) where
  abbrev Goes : ℕ → Call → World → Type 0
  Goes t c w = Ends (Continues model.node_of t) (call model x global depth c w)

  -- The commands that advance a token, a command that departs from a node being for one that flows leave.
  pub data Advances (w : World) : ℕ → Call → Type 0 where
    to_ready : (t : ℕ) → Advances w t (Call.advance_to_ready t)
    to_entered : (t : ℕ) → Advances w t (Call.advance_to_entered t)
    to_busy : (t : ℕ) → Advances w t (Call.advance_to_busy t)
    to_completed : (t : ℕ) → Advances w t (Call.advance_to_completed t)
    from_completed : (t : ℕ) → Advances w t (Call.advance_from_completed t)
    to_departing :
        (t : ℕ)
        → is_empty (model.node_of (w.token t).node).outgoing ≡ false
        → Advances w t (Call.advance_to_departing t)
    to_departed : (t flow : ℕ) → Advances w t (Call.advance_to_departed t flow)
    to_arrived : (t : ℕ) → Advances w t (Call.advance_to_arrived t)
    to_failed : (t : ℕ) → Advances w t (Call.advance_to_failed t)
    to_termination : (t : ℕ) → Advances w t (Call.terminate t)
