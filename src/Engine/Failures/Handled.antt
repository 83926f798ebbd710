-- ===== src/Engine/Failures/Handled.antt =====
-- execution/engine/src/StateMachine.cpp: what becomes of a failure.
use bpmnos_engine.Prelude.{ℕ, ◌≡◌, ◌⊎◌, Option, none, some, List, [], ◌∷◌, ◌++◌, if◌then◌else◌, ok}
use bpmnos_engine.Engine.World.{Node, flow_node, Content, Call, Command, World}
use bpmnos_engine.Engine.Catchers.{Definition}
use bpmnos_engine.Engine.Catchers.Selection.{find_first, or_else, named, unnamed}
use bpmnos_engine.Engine.Withdrawal.{withdraw_compensation_tokens}
use bpmnos_engine.Engine.Expressions.{Expressions}
use bpmnos_engine.Engine.Failures.{
  front, error_at_token, error_at_start, upper_token, main_of, is_compensation,
}
use bpmnos_engine.Engine.Continuation.{Continues}

-- The catcher among candidates: the first that names the content or, where there is none, the first that catches everything.
abbrev pub catcher : (ℕ → Definition) → Option Content → List ℕ → Option ℕ
catcher definition_of content candidates =
    or_else (find_first (named definition_of content) candidates)
      (find_first (unnamed definition_of content) candidates)

abbrev pub failure_of : World → ℕ → Command
failure_of w t = record {
  call = Call.advance_to_failed t;
  state_machine_ptr = some (w.token t).owner;
  token_ptr = some t;
}

abbrev pub deletion_of : World → ℕ → Command
deletion_of w t = record {
  call = Call.delete_instance t;
  state_machine_ptr = some (w.token t).owner;
  token_ptr = some t;
}

module _ (node_of : ℕ → Node) (x : Expressions) (source : ℕ → ℕ) (depth : ℕ) where
  -- The token at a boundary event, and the event subprocess, that catch what a token has failed with.
  abbrev pub at_boundary : ℕ → World → Option ℕ
  at_boundary t w =
      if (node_of (w.token t).node).represents flow_node
      then catcher (error_at_token node_of x w) (w.token t).content
          (w.tokens_awaiting_boundary_event t)
      else none

  abbrev pub within_scope : ℕ → ℕ → World → Option ℕ
  within_scope m t w =
      catcher (error_at_start node_of x w) (w.token t).content
        (w.machine m).pending_event_sub_processes

  -- What becomes of the failure of a token that is no instance of a multi-instance activity, the world being the one after
  -- the compensations have been withdrawn.
  pub data Outcome (m t : ℕ) (w v : World) : Type 0 where
    caught_at_boundary :
        (c : ℕ) → at_boundary t w ≡ some c → Continues node_of c v → Outcome m t w v
    caught_within_scope :
        (e c : ℕ)
        → at_boundary t w ≡ none
        → within_scope m t w ≡ some e
        → front (w.machine e).tokens ≡ ok c
        → Continues node_of c v
        → Outcome m t w v
    handed_on :
        (parent upper : ℕ)
        → at_boundary t w ≡ none
        → within_scope m t w ≡ none
        → (w.machine m).parent_token ≡ some parent
        → upper_token node_of x m parent w ≡ ok upper
        → (v.token upper).content ≡ (w.token t).content
        → v.commands ≡ w.commands ++ failure_of v upper ∷ []
        → Outcome m t w v
    deleted :
        at_boundary t w ≡ none
        → within_scope m t w ≡ none
        → (w.machine m).parent_token ≡ none
        → v.commands ≡ w.commands ++ deletion_of w t ∷ []
        → Outcome m t w v

  -- What `handleFailure` promises.
  abbrev pub Handled : ℕ → ℕ → World → World → Type 0
  Handled m t w v =
      ((main : ℕ) × (main_of node_of x t w ≡ some main) × Continues node_of main v)
      ⊎ ((u : World) × ((if is_compensation node_of x (node_of (w.token t).node)
              then withdraw_compensation_tokens node_of depth m w
              else ok w)
            ≡ ok u)
          × Outcome m t u v)
