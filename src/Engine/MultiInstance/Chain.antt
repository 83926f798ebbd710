-- ===== src/Engine/MultiInstance/Chain.antt =====
-- execution/engine/src/StateMachine.cpp: the tokens that are created for the instances of a multi-instance activity.
use mathlib.Core.Path.{subst}
use bpmnos_engine.Prelude.{
  ℕ, zero, suc, ◌<◌, ◌≡◌, refl, sym, ap, ◌∙◌, arith, false, not, ◌&&◌, Option, none, some, List, [],
  ◌∷◌, ◌++◌, length, append_nil, append_assoc, All, ok, ◌>>=◌, >>=-eq-ok,
}
use bpmnos_engine.Values.Number.{has_value}
use bpmnos_engine.Engine.World.{
  created_state, waiting_state, LoopCharacteristics, standard, multi_instance_sequential,
  multi_instance_parallel, Node, scope_node, World,
}
use bpmnos_engine.Engine.Tokens.{update, updated}
use bpmnos_engine.Engine.Expressions.{Expressions}
use bpmnos_engine.Engine.MultiInstance.{
  list_or_empty, add_instance_token, begin_instance, add_instances, create_instances,
  create_multi_instance_activity_tokens,
}
use bpmnos_engine.Engine.Continuation.{
  Ends, ended, thrown, Ends-if, Ends->>=, Ends-if_some, Ends-map, Ends-ok,
}
use bpmnos_engine.Engine.MultiInstance.Unchanged.{update-Same}
use bpmnos_engine.Engine.MultiInstance.Links.{
  add_instance_token-AddedOne, IsChain, IfSequential, IsOld, Added, begin_instance-Begun, link,
}

module _ (node_of : ℕ → Node) where
  module _ (x : Expressions) where
    add_instances-Added :
        (m main : ℕ) (kind : LoopCharacteristics) (previous : Option ℕ) (rounds counter : ℕ)
        (w : World)
        → IsOld previous w.next
        → Ends
            (Added main kind previous rounds w)
            (add_instances node_of x m main kind previous rounds counter w)
    unfolding add_instances
    add_instances-Added m main kind previous zero counter w old = ended _ (record {
      new = [];
      size = refl;
      listed = sym (append_nil (list_or_empty (w.tokens_at_activity_instance main)));
      known = tt;
      chain = nothing kind previous;
      others = λ p h. refl;
      waiting = λ q h n. refl;
    })
      where
        empty_chain :
            (previous : Option ℕ) → IsChain w.token_awaiting_multi_instance_completion previous []
        empty_chain none = tt
        empty_chain (some p) = tt

        nothing :
            (kind : LoopCharacteristics) (previous : Option ℕ)
            → IfSequential kind (IsChain w.token_awaiting_multi_instance_completion previous [])
        nothing multi_instance_sequential previous = empty_chain previous
        nothing multi_instance_parallel previous = tt
        nothing standard previous = tt
    add_instances-Added m main kind previous (suc rounds) counter w old =
        let n = w.next in
        let u = add_instance_token node_of x m main counter w in
        let o = add_instance_token-AddedOne node_of x m main counter w in
        Ends->>= _ (update node_of n created_state u >>= begin_instance node_of x kind previous n)
          (λ z r.
            let (y, updated, begun) =
              >>=-eq-ok (update node_of n created_state u)
                (begin_instance node_of x kind previous n) r in
            let s = Ends-ok _ (update-Same node_of n created_state u) updated in
            let b = Ends-ok _ (begin_instance-Begun node_of x kind previous n y) begun in
            let bound : n < z.next = omega (arith, o.later, s.later, b.later) in
            Ends-map _ _ (add_instances-Added m main kind (some n) rounds (suc counter) z bound)
              (λ v a. record {
                new = n ∷ a.new;
                size = ap suc a.size;
                listed =
                    a.listed
                    ∙ ap (λ (f : ℕ → Option (List ℕ)). list_or_empty (f main) ++ a.new)
                        (b.at_activity ∙ s.at_activity)
                    ∙ ap (λ ps. ps ++ a.new) o.listed
                    ∙ append_assoc (list_or_empty (w.tokens_at_activity_instance main)) (n ∷ [])
                        a.new;
                known = (
                  a.others n bound
                      ∙ ap (λ (f : ℕ → Option ℕ). f n) (b.at_instance ∙ s.at_instance)
                      ∙ o.known,
                  a.known,
                );
                chain =
                    link kind previous n z.next a.new z v old bound (b.linked) a.chain
                      (λ q h e. a.waiting q h e);
                others = λ p h.
                    a.others p (omega (arith, h, bound))
                    ∙ ap (λ (f : ℕ → Option ℕ). f p) (b.at_instance ∙ s.at_instance)
                    ∙ o.others p (λ e. absurd (omega (arith, e, h)));
                waiting = λ q h e.
                    a.waiting q (omega (arith, h, bound)) (λ f. absurd (omega (arith, f, h)))
                    ∙ b.others q e
                    ∙ ap (λ (f : ℕ → Option ℕ). f q) (s.awaiting ∙ o.awaiting);
              }))

    -- What the creation of the tokens of a multi-instance activity promises.
    pub record Created (main : ℕ) (w v : World) : Type 0 where
      pub cardinality : ℕ
      pub stated : x.loop_cardinality main w ≡ some cardinality
      pub kind : LoopCharacteristics
      pub characteristics : (node_of (w.token main).node).loop_characteristics ≡ some kind
      pub instances : List ℕ
      pub size : length instances ≡ cardinality
      pub listed : list_or_empty (v.tokens_at_activity_instance main) ≡ instances
      pub known : All (λ p. v.token_at_multi_instance_activity p ≡ some main) instances
      pub chain :
          IfSequential kind (IsChain v.token_awaiting_multi_instance_completion none instances)

    none_listed : (o : Option (List ℕ)) → has_value o ≡ false → list_or_empty o ≡ []
    none_listed none h = refl
    none_listed (some ps) h = cc

    instances-Created :
        (m t : ℕ) (w : World) (kind : LoopCharacteristics) (cardinality : ℕ)
        → x.loop_cardinality t w ≡ some cardinality
        → (node_of (w.token t).node).loop_characteristics ≡ some kind
        → Ends (Created t w) (create_instances node_of x m t kind cardinality w)
    unfolding create_instances
    instances-Created m t w kind zero c k = thrown _
    instances-Created m t w kind (suc rounds) c k =
        Ends-if _ (has_value (w.tokens_at_activity_instance t)) (λ e. thrown _)
          (λ fresh.
            Ends-if _ (has_value (w.completion_status_at_activity_instance t)) (λ e. thrown _)
              (λ e.
                Ends-if _
                  ((node_of (w.token t).node).represents scope_node
                    && not (has_value (w.token t).owned))
                  (λ e. thrown _)
                  (λ e. Ends->>= _ (add_instances node_of x m t kind none (suc rounds) 1 w) (λ u r.
                    let a = Ends-ok _ (add_instances-Added m t kind none (suc rounds) 1 w tt) r in
                    Ends-map _ _ (update-Same node_of t waiting_state u) (λ z s. record {
                      cardinality = suc rounds;
                      stated = c;
                      kind = kind;
                      characteristics = k;
                      instances = a.new;
                      size = a.size;
                      listed =
                          ap (λ (f : ℕ → Option (List ℕ)). list_or_empty (f t)) s.at_activity
                          ∙ a.listed
                          ∙ ap (λ ps. ps ++ a.new)
                              (none_listed (w.tokens_at_activity_instance t) fresh);
                      known =
                          subst (λ (f : ℕ → Option ℕ). All (λ p. f p ≡ some t) a.new)
                            (sym s.at_instance) a.known;
                      chain =
                          subst (λ (f : ℕ → Option ℕ). IfSequential kind (IsChain f none a.new))
                            (sym s.awaiting) a.chain;
                    })))))

    -- The tokens of the instances of a multi-instance activity are as many as its cardinality says; the main token knows them
    -- and each of them knows the main token. If the activity is sequential, every instance but the last is known to be the
    -- one whose completion the next instance awaits.
    pub create_multi_instance_activity_tokens-Created :
        (m t : ℕ) (w v : World)
        → create_multi_instance_activity_tokens node_of x m t w ≡ ok v
        → Created t w v
    unfolding create_multi_instance_activity_tokens
    create_multi_instance_activity_tokens-Created m t w v h = Ends-ok _ created h
      where
        created : Ends (Created t w) (create_multi_instance_activity_tokens node_of x m t w)
        created =
            Ends-if_some _ (x.loop_cardinality t w) (λ e. thrown _)
              (λ cardinality c.
                Ends-if _
                  (x.loop_index_given (w.token t).node
                    && not (has_value (x.loop_index_attribute (w.token t).node)))
                  (λ e. thrown _)
                  (λ e.
                    Ends-if_some _ (node_of (w.token t).node).loop_characteristics (λ e. thrown _)
                      (λ kind k. instances-Created m t w kind cardinality c k)))
