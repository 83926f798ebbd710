-- ===== src/Engine/Events/Entry.antt =====
-- execution/engine/src/Engine.cpp: what the decision on an entry brings about in a sequential ad-hoc subprocess.
use bpmnos_engine.Prelude.{ℕ, ◌≡◌, none, some, All, ok}
use bpmnos_engine.Engine.World.{World, Node}
use bpmnos_engine.Engine.Performer.{get_sequential_performer_token}
use bpmnos_engine.Engine.Performer.Exclusion.{Undecidable}
use bpmnos_engine.Engine.Events.{decide}

-- What the entry of an activity promises: the performer was idle and performs the activity, and the entry of no other
-- activity waiting at the performer can be decided.
pub record Entered (node_of : ℕ → Node) (t : ℕ) (w v : World) : Type 0 where
  pub performer : ℕ
  pub found : get_sequential_performer_token node_of t (decide t w) ≡ ok performer
  pub idle : ((decide t w).token performer).performing ≡ none
  pub performing : (v.token performer).performing ≡ some t
  pub others : All (Undecidable v) (v.token performer).pending_sequential_entries
