-- ===== src/Engine/Shutdown/Followed.antt =====
-- execution/engine/src: what follows when the tokens of a scope are done.
use bpmnos_engine.Prelude.{ℕ, ◌≡◌, none, some, List, [], ◌∷◌, ◌++◌}
use bpmnos_engine.Engine.World.{Node, Call, Command, World}
use bpmnos_engine.Engine.Expressions.{Expressions}
use bpmnos_engine.Engine.Continuation.{Continues}

-- A command for a state machine is in the list.
pub data Commanded (call : Call) (m : ℕ) (w : World) : Type 0 where
  listed :
      (before after : List Command)
      → w.commands
        ≡ before ++ (record { call = call; state_machine_ptr = some m; token_ptr = none }) ∷ after
      → Commanded call m w

module _ (node_of : ℕ → Node) where
  -- What follows the end of a scope: its parent token, or the token that waits for a compensation, goes on, or the event
  -- subprocess is deleted.
  pub data Followed (m : ℕ) (v : World) : Type 0 where
    continued : (t : ℕ) → Continues node_of t v → Followed m v
    deleted :
        (context : ℕ)
        → Commanded (Call.delete_non_interrupting_event_sub_process context m) m v
        → Followed m v

  -- The command for the waiting token is the last one.
  abbrev IsLast : ℕ → World → Type 0
  IsLast t v =
      (before : List Command) × (c : Command) × (v.commands ≡ before ++ c ∷ [])
      × (c.token_ptr ≡ some t)
