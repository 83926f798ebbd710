-- ===== src/Engine/MultiInstance/Links.antt =====
-- execution/engine/src/StateMachine.cpp: the tokens of the instances of a multi-instance activity, one after the other.
use bpmnos_engine.Prelude.{
  ℕ, suc, ◌≤◌, ◌<◌, ◌≡◌, ◌≢◌, refl, ap, ◌∙◌, arith, Bool, true, false, Option, none, some, List, [],
  ◌∷◌, ◌++◌, if◌then◌else◌, length, All,
}
use bpmnos_engine.Prelude.Int.{ℤ}
use bpmnos_engine.Engine.World.{
  LoopCharacteristics, standard, multi_instance_sequential, multi_instance_parallel, Node,
  scope_node, World, put_self, put_other,
}
use bpmnos_engine.Engine.Gateways.{copy_of, add_token}
use bpmnos_engine.Engine.Expressions.{Expressions, add_to_objective}
use bpmnos_engine.Engine.MultiInstance.{
  create_child, list_or_empty, with_index, add_instance_token, begin_instance,
}
use bpmnos_engine.Engine.Continuation.{Ends, ended, Ends-map}
use bpmnos_engine.Engine.MultiInstance.Unchanged.{
  Same, Same-refl, add_to_objective-Same, make_ready-Same,
}

-- What the token of one instance adds.
pub record AddedOne (main : ℕ) (w u : World) : Type 0 where
  pub listed :
      list_or_empty (u.tokens_at_activity_instance main)
      ≡ list_or_empty (w.tokens_at_activity_instance main) ++ w.next ∷ []
  pub known : u.token_at_multi_instance_activity w.next ≡ some main
  pub others :
      (p : ℕ)
      → p ≢ w.next
      → u.token_at_multi_instance_activity p ≡ w.token_at_multi_instance_activity p
  pub awaiting :
      u.token_awaiting_multi_instance_completion ≡ w.token_awaiting_multi_instance_completion
  pub later : w.next < u.next

-- Each instance is awaited by the next one.
abbrev pub IsChain : (ℕ → Option ℕ) → Option ℕ → List ℕ → Type 0
IsChain successor previous [] = Unit
IsChain successor none (p ∷ ps) = IsChain successor (some p) ps
IsChain successor (some q) (p ∷ ps) = (successor q ≡ some p) × IsChain successor (some p) ps

abbrev pub IfSequential : LoopCharacteristics → Type 0 → Type 0
IfSequential multi_instance_sequential P = P
IfSequential _ P = Unit

abbrev pub IsOld : Option ℕ → ℕ → Type 0
IsOld none n = Unit
IsOld (some p) n = p < n

abbrev pub IsNot : Option ℕ → ℕ → Type 0
IsNot none q = Unit
IsNot (some p) q = q ≢ p

pub record Added (main : ℕ) (kind : LoopCharacteristics) (previous : Option ℕ) (rounds : ℕ)
    (w v : World) : Type 0 where
  pub new : List ℕ
  pub size : length new ≡ rounds
  pub listed :
      list_or_empty (v.tokens_at_activity_instance main)
      ≡ list_or_empty (w.tokens_at_activity_instance main) ++ new
  pub known : All (λ p. v.token_at_multi_instance_activity p ≡ some main) new
  pub chain : IfSequential kind (IsChain v.token_awaiting_multi_instance_completion previous new)
  pub others :
      (p : ℕ)
      → p < w.next
      → v.token_at_multi_instance_activity p ≡ w.token_at_multi_instance_activity p
  pub waiting :
      (q : ℕ)
      → q < w.next
      → IsNot previous q
      → v.token_awaiting_multi_instance_completion q ≡ w.token_awaiting_multi_instance_completion q

-- The beginning of an instance, which awaits the previous one if the activity is sequential.
pub record Begun (kind : LoopCharacteristics) (previous : Option ℕ) (t : ℕ) (w v : World)
    : Type 0 where
  pub at_activity : v.tokens_at_activity_instance ≡ w.tokens_at_activity_instance
  pub at_instance : v.token_at_multi_instance_activity ≡ w.token_at_multi_instance_activity
  pub linked :
      IfSequential kind (IsChain v.token_awaiting_multi_instance_completion previous (t ∷ []))
  pub others :
      (q : ℕ)
      → IsNot previous q
      → v.token_awaiting_multi_instance_completion q ≡ w.token_awaiting_multi_instance_completion q
  pub later : w.next ≤ v.next

pub Same-Begun :
    (kind : LoopCharacteristics) (previous : Option ℕ) (t : ℕ) (w v : World)
    → IfSequential kind (IsChain v.token_awaiting_multi_instance_completion previous (t ∷ []))
    → Same w v
    → Begun kind previous t w v
Same-Begun kind previous t w v l s = record {
  at_activity = s.at_activity;
  at_instance = s.at_instance;
  linked = l;
  others = λ q n. ap (λ (f : ℕ → Option ℕ). f q) s.awaiting;
  later = s.later;
}

-- The chain goes on through the token of the instance.
pub link :
    (kind : LoopCharacteristics) (previous : Option ℕ) (t bound : ℕ) (new : List ℕ) (z v : World)
    → IsOld previous t
    → t < bound
    → IfSequential kind (IsChain z.token_awaiting_multi_instance_completion previous (t ∷ []))
    → IfSequential kind (IsChain v.token_awaiting_multi_instance_completion (some t) new)
    → ((q : ℕ)
        → q < bound
        → q ≢ t
        → v.token_awaiting_multi_instance_completion q
          ≡ z.token_awaiting_multi_instance_completion q)
    → IfSequential kind (IsChain v.token_awaiting_multi_instance_completion previous (t ∷ new))
link multi_instance_sequential none t bound new z v o b l c w = c
link multi_instance_sequential (some p) t bound new z v o b (l, tt) c w =
    (w p (omega (arith, o, b)) (λ e. absurd (omega (arith, o, e))) ∙ l, c)
link multi_instance_parallel previous t bound new z v o b l c w = tt
link standard previous t bound new z v o b l c w = tt

module _ (node_of : ℕ → Node) (x : Expressions) where
  pub add_instance_token-AddedOne :
      (m main counter : ℕ) (w : World)
      → AddedOne main w (add_instance_token node_of x m main counter w)
  unfolding add_instance_token create_child
  add_instance_token-AddedOne m main counter w =
      let t = w.next in
      let token =
        copy_of (w.token main)
          (with_index (x.loop_index_attribute (w.token main).node) counter (w.token main).status) in
      let is_scope = (node_of (w.token main).node).represents scope_node in
      let v =
        create_child t (if is_scope then some (w.token main).node else none)
          (some (x.instance_identity m main counter w)) (add_token m token w) in
      let z = if is_scope then add_to_objective (x.scope_value (suc t) v) v else v in
      let s : Same v z = counted is_scope (x.scope_value (suc t) v) v in
      let list : List ℕ = list_or_empty (z.tokens_at_activity_instance main) ++ t ∷ [] in
      record {
        listed =
            ap list_or_empty (put_self z.tokens_at_activity_instance main (some list))
            ∙ ap (λ (f : ℕ → Option (List ℕ)). list_or_empty (f main) ++ t ∷ []) s.at_activity;
        known = put_self z.token_at_multi_instance_activity t (some main);
        others = λ p n.
            put_other z.token_at_multi_instance_activity t p (some main) n
            ∙ ap (λ (f : ℕ → Option ℕ). f p) s.at_instance;
        awaiting = s.awaiting;
        later = omega (arith, s.later);
      }
    where
      counted :
          (b : Bool) (change : ℤ) (v : World) → Same v (if b then add_to_objective change v else v)
      counted true change v = add_to_objective-Same change v
      counted false change v = Same-refl v

  pub begin_instance-Begun :
      (kind : LoopCharacteristics) (previous : Option ℕ) (t : ℕ) (w : World)
      → Ends (Begun kind previous t w) (begin_instance node_of x kind previous t w)
  unfolding begin_instance
  begin_instance-Begun multi_instance_parallel previous t w =
      Ends-map _ _ (make_ready-Same node_of x t w)
        (λ v s. Same-Begun multi_instance_parallel previous t w v tt s)
  begin_instance-Begun multi_instance_sequential none t w =
      Ends-map _ _ (make_ready-Same node_of x t w)
        (λ v s. Same-Begun multi_instance_sequential none t w v tt s)
  begin_instance-Begun standard none t w =
      Ends-map _ _ (make_ready-Same node_of x t w) (λ v s. Same-Begun standard none t w v tt s)
  begin_instance-Begun multi_instance_sequential (some p) t w = ended _ (record {
    at_activity = refl;
    at_instance = refl;
    linked = (put_self w.token_awaiting_multi_instance_completion p (some t), tt);
    others = λ q n. put_other w.token_awaiting_multi_instance_completion p q (some t) n;
    later = omega arith;
  })
  begin_instance-Begun standard (some p) t w = ended _ (record {
    at_activity = refl;
    at_instance = refl;
    linked = tt;
    others = λ q n. put_other w.token_awaiting_multi_instance_completion p q (some t) n;
    later = omega arith;
  })
