-- ===== src/Engine/Commands/Settled.antt =====
-- execution/engine/src/Engine.cpp: the processing of commands ends, and when it has ended nothing is left to be done.
use bpmnos_engine.Prelude.{ℕ, ◌≡◌, Bool, List, [], All}
use bpmnos_engine.Engine.World.{Node, World}
use bpmnos_engine.Engine.Commands.Attempts.{AllWait}

module _ (node_of : ℕ → Node) (target : ℕ → ℕ) (is_predecessor : ℕ → ℕ → Bool) where
  -- The command list is empty, and every inclusive gateway at which tokens wait has to wait.
  pub record Settled (machines : List ℕ) (w : World) : Type 0 where
    pub empty : w.commands ≡ []
    pub waiting :
        All
          (λ m. AllWait node_of target is_predecessor w m (w.tokens_awaiting_gateway_activation m))
          machines
