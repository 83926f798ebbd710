-- ===== src/Engine/Performer/Ascent.antt =====
-- execution/engine/src/Token.cpp: `getSequentialPerformerToken` ends.
use bpmnos_engine.Prelude.{ℕ, ◌<◌, ◌≡◌, ◌⊎◌, Bool, true, false, some}
use bpmnos_engine.Engine.World.{Node, flow_node, World}
use bpmnos_engine.Engine.Performer.{parent_of}

module _ (node_of : ℕ → Node) where
  abbrev pub at_flow_node : World → ℕ → Bool
  at_flow_node w t = (node_of (w.token t).node).represents flow_node

  -- Every token at a flow node is in the scope of a token allocated before it.
  abbrev pub IsNested : World → Type 0
  IsNested w = (t : ℕ) → at_flow_node w t ≡ true → (p : ℕ) × (parent_of w t ≡ some p) × (p < t)

  abbrev pub IsPerformer : World → ℕ → ℕ → Type 0
  IsPerformer w performer q = (at_flow_node w q ≡ false) ⊎ ((w.token q).node ≡ performer)
