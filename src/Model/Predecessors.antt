-- ===== src/Model/Predecessors.antt =====
-- model/bpmnos/src/Model.cpp: the predecessors of a converging inclusive gateway. The nodes and sequence flows, which the
-- bpmn++ library reads, are given by the incoming sequence flows of each node and the source of each sequence flow.
pub mod Visits
pub mod Reached
use bpmnos_engine.Prelude.{
  ℕ, zero, suc, Bool, true, false, ◌||◌, List, [], ◌∷◌, ◌==◌, Result, ok, throw,
  undefined_behaviour,
}
use bpmnos_engine.Engine.World.{put}

-- The set of the predecessors found, and the nodes pending, the last one first.
pub record Search : Type 0 where
  pub nodes : ℕ → Bool
  pub pending : List ℕ

-- `nodes.insert(source).second`, and what follows: nothing, if the first argument tells so.
abbrev pub insert_unless : Bool → ℕ → Search → Search
insert_unless true n s = s
insert_unless false n s = record { nodes = put s.nodes n true; pending = n ∷ s.pending }

module _ (incoming : ℕ → List ℕ) (source : ℕ → ℕ) (gateway : ℕ) where
  unfoldable pub visit_flow : ℕ → Search → Search
  visit_flow flow s =
      insert_unless (source flow == gateway || s.nodes (source flow)) (source flow) s

  unfoldable pub visit_flows : List ℕ → Search → Search
  unfolding visit_flow
  visit_flows [] s = s
  visit_flows (flow ∷ flows) s = visit_flows flows (visit_flow flow s)

  -- The loop over the pending nodes.
  unfoldable pub search_from : ℕ → (ℕ → Bool) → List ℕ → Result (ℕ → Bool)
  unfolding visit_flows
  search_from fuel nodes [] = ok nodes
  search_from zero nodes (current ∷ pending) = throw undefined_behaviour
  search_from (suc fuel) nodes (current ∷ pending) =
      let s = visit_flows (incoming current) (record { nodes = nodes; pending = pending }) in
      search_from fuel s.nodes s.pending

  unfoldable pub predecessors : ℕ → Result (ℕ → Bool)
  unfolding search_from
  predecessors fuel = search_from fuel (λ n. false) (gateway ∷ [])
