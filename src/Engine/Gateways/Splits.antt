-- ===== src/Engine/Gateways/Splits.antt =====
-- execution/engine/src/StateMachine.cpp: the token copies that leave a diverging gateway.
use mathlib.Core.Path.{subst}
use bpmnos_engine.Prelude.{
  ℕ, suc, ◌<◌, ◌≡◌, refl, sym, ap, ◌∙◌, inl, inr, arith, Bool, true, false, not, ◌&&◌, Option, none,
  some, List, [], ◌∷◌, ◌++◌, if◌then◌else◌, append_nil, append_assoc, All, All-map, Bool-cases,
  Result, ok, throw, ◌>>=◌, >>=-eq-ok, ok-injective,
}
use bpmnos_engine.Utility.Erase.{erase_ptr}
use bpmnos_engine.Engine.World.{
  Token, StateMachine, Node, parallel_gateway_node, event_based_gateway_node,
  inclusive_gateway_node, Call, Command, World, put_self, put_other, destroy, enqueue_for_token,
}
use bpmnos_engine.Engine.Gateways.{
  is_flow, add_if, set_tokens, erase_token, add_token, copy_of, make_copies, advance_copies,
  create_token_copies, satisfied_flows, or_default, split_token, handle_diverging_gateway,
}

-- The addresses of the copies, one for each flow.
abbrev pub copies_from : ℕ → List ℕ → List ℕ
copies_from n [] = []
copies_from n (flow ∷ flows) = n ∷ copies_from (suc n) flows

-- The commands by which the copies depart, each along its flow.
abbrev pub departure : ℕ → ℕ → ℕ → Command
departure own n flow = record {
  call = Call.advance_to_departed n flow;
  state_machine_ptr = some own;
  token_ptr = some n;
}

abbrev pub departures : ℕ → ℕ → List ℕ → List Command
departures own n [] = []
departures own n (flow ∷ flows) = departure own n flow ∷ departures own (suc n) flows

abbrev pub IsCopy : Token → World → ℕ → Type 0
IsCopy token w p = (w.token p ≡ copy_of token token.status) × (w.alive p ≡ true)

record Copied (m : ℕ) (token : Token) (flows : List ℕ) (w v : World) : Type 0 where
  tokens : (v.machine m).tokens ≡ (w.machine m).tokens ++ copies_from w.next flows
  commands : v.commands ≡ w.commands
  same : (p : ℕ) → p < w.next → (v.token p ≡ w.token p) × (v.alive p ≡ w.alive p)
  copies : All (IsCopy token v) (copies_from w.next flows)

make_copies-addresses :
    (m : ℕ) (token : Token) (flows : List ℕ) (w : World)
    → (make_copies m token flows w).0 ≡ copies_from w.next flows
unfolding make_copies
make_copies-addresses m token [] w = refl
make_copies-addresses m token (flow ∷ flows) w =
    ap (◌∷◌ w.next)
      (make_copies-addresses m token flows (add_token m (copy_of token token.status) w))

make_copies-Copied :
    (m : ℕ) (token : Token) (flows : List ℕ) (w : World)
    → Copied m token flows w (make_copies m token flows w).1
unfolding make_copies
make_copies-Copied m token [] w = record {
  tokens = sym (append_nil (w.machine m).tokens);
  commands = refl;
  same = λ p h. (refl, refl);
  copies = tt;
}
make_copies-Copied m token (flow ∷ flows) w =
    let copy = copy_of token token.status in
    let u = add_token m copy w in
    let c = make_copies-Copied m token flows u in
    let v = (make_copies m token flows u).1 in
    let (first, living) = c.same w.next (omega arith) in
    record {
      tokens =
          c.tokens
          ∙ ap (λ (x : StateMachine). x.tokens ++ copies_from (suc w.next) flows)
              (put_self w.machine m
                (record (w.machine m) { tokens = (w.machine m).tokens ++ w.next ∷ [] }))
          ∙ append_assoc (w.machine m).tokens (w.next ∷ []) (copies_from (suc w.next) flows);
      commands = c.commands;
      same = λ p h.
          let (a, b) = c.same p (omega (arith, h)) in
          (
            a ∙ put_other w.token w.next p copy (λ e. omega (arith, e, h)),
            b ∙ put_other w.alive w.next p true (λ e. omega (arith, e, h)),
          );
      copies =
          ((first ∙ put_self w.token w.next copy, living ∙ put_self w.alive w.next true), c.copies);
    }

advance_copies-eq :
    (own n : ℕ) (flows : List ℕ) (w : World)
    → All (λ p. (w.token p).owner ≡ own) (copies_from n flows)
    → advance_copies (copies_from n flows) flows w
      ≡ record w { commands = w.commands ++ departures own n flows }
unfolding advance_copies
advance_copies-eq own n [] w h =
    ap (λ (cs : List Command). record w { commands = cs }) (sym (append_nil w.commands))
advance_copies-eq own n (flow ∷ flows) w (e, h) =
    advance_copies-eq own (suc n) flows (enqueue_for_token w (Call.advance_to_departed n flow) n) h
    ∙ ap (λ (cs : List Command). record w { commands = cs })
        (append_assoc w.commands (departure (w.token n).owner n flow ∷ [])
            (departures own (suc n) flows)
          ∙ ap (λ o. w.commands ++ departure o n flow ∷ departures own (suc n) flows) e)

-- What replacing a token by copies along the flows promises.
pub record Split (m t : ℕ) (flows : List ℕ) (w v : World) : Type 0 where
  pub commands : v.commands ≡ w.commands ++ departures (w.token t).owner w.next flows
  pub tokens :
      erase_ptr ((w.machine m).tokens ++ copies_from w.next flows) t ≡ ok (v.machine m).tokens
  pub copies : All (IsCopy (w.token t) v) (copies_from w.next flows)
  pub ended : v.alive t ≡ false

abbrev pub is_true : Option Bool → Bool
is_true (some true) = true
is_true _ = false

-- Which flows those are: all of a parallel gateway; of an inclusive one those whose conditions are satisfied, or else the
-- default flow.
abbrev pub is_satisfied : (ℕ → Option Bool) → Option ℕ → ℕ → Bool
is_satisfied satisfied default_flow flow =
    not (is_flow default_flow flow) && is_true (satisfied flow)

abbrev pub filter {ℓ} : {A : Type ℓ} → (A → Bool) → List A → List A
filter test [] = []
filter test (a ∷ list) = if test a then a ∷ filter test list else filter test list

module _ (satisfied : ℕ → Option Bool) (default_flow : Option ℕ) where
  abbrev pub IsFiltered : List ℕ → Result (List ℕ) → Type 0
  IsFiltered flows (ok chosen) = chosen ≡ filter (is_satisfied satisfied default_flow) flows
  IsFiltered flows (throw e) = Unit

  satisfied-step :
      (flow : ℕ) (flows : List ℕ) (rest : Result (List ℕ)) (b : Bool) (c : Option Bool)
      → is_flow default_flow flow ≡ b
      → satisfied flow ≡ c
      → IsFiltered flows rest
      → IsFiltered (flow ∷ flows) (if b then rest else add_if c flow rest)
  satisfied-step flow flows (throw x) true c e s h = tt
  satisfied-step flow flows (ok others) true c e s h = rw e h
  satisfied-step flow flows rest false none e s h = tt
  satisfied-step flow flows (throw x) false (some b) e s h = tt
  satisfied-step flow flows (ok others) false (some true) e s h = rw (e, s) (ap (◌∷◌ flow) h)
  satisfied-step flow flows (ok others) false (some false) e s h = rw (e, s) h

  satisfied_flows-IsFiltered :
      (flows : List ℕ) → IsFiltered flows (satisfied_flows satisfied default_flow flows)
  unfolding satisfied_flows
  satisfied_flows-IsFiltered [] = refl
  satisfied_flows-IsFiltered (flow ∷ flows) =
      satisfied-step flow flows (satisfied_flows satisfied default_flow flows)
        (is_flow default_flow flow) (satisfied flow) refl refl (satisfied_flows-IsFiltered flows)

-- The flows that are taken out of a gateway that is not event-based.
abbrev pub taken : (ℕ → Option Bool) → Node → Result (List ℕ)
taken satisfied node =
    if node.represents parallel_gateway_node
    then ok node.outgoing
    else or_default node.default_flow
        (filter (is_satisfied satisfied node.default_flow) node.outgoing)

-- The token that is erased is none of the copies.
copies-spared :
    (token : Token) (t : ℕ) (u : World) (flows : List ℕ) (n : ℕ)
    → t < n
    → All (IsCopy token u) (copies_from n flows)
    → All (IsCopy token (destroy u t)) (copies_from n flows)
copies-spared token t u [] n h a = tt
copies-spared token t u (flow ∷ flows) n h ((same, living), rest) = (
  (same, put_other u.alive t n false (λ e. omega (arith, e, h)) ∙ living),
  copies-spared token t u flows (suc n) (omega (arith, h)) rest,
)

split_token-Split :
    (m t : ℕ) (flows : List ℕ) (w v : World)
    → t < w.next
    → split_token m t flows w ≡ ok v
    → Split m t flows w v
unfolding split_token create_token_copies erase_token
split_token-Split m t flows w v older h =
    let token = w.token t in
    let u = (make_copies m token flows w).1 in
    let c = make_copies-Copied m token flows w in
    let x = record u { commands = u.commands ++ departures token.owner w.next flows } in
    let owners : All (λ p. (u.token p).owner ≡ token.owner) (copies_from w.next flows) =
      All-map (IsCopy token u) _ (copies_from w.next flows) (λ p k. ap (λ (y : Token). y.owner) k.0)
        c.copies in
    let same : advance_copies (make_copies m token flows w).0 flows u ≡ x =
      ap (λ ps. advance_copies ps flows u) (make_copies-addresses m token flows w)
      ∙ advance_copies-eq token.owner w.next flows u owners in
    let run : (erase_ptr (x.machine m).tokens t >>= λ ts. ok (destroy (set_tokens x m ts) t))
        ≡ ok v =
      ap (erase_token m t) (sym same) ∙ h in
    let (ts, erased, done) =
      >>=-eq-ok (erase_ptr (x.machine m).tokens t) (λ ts. ok (destroy (set_tokens x m ts) t)) run in
    let eq : destroy (set_tokens x m ts) t ≡ v = ok-injective done in
    rw (← eq) (record {
      commands = ap (λ cs. cs ++ departures token.owner w.next flows) c.commands;
      tokens =
          ap (λ ps. erase_ptr ps t) (sym c.tokens)
          ∙ erased
          ∙ ap (λ (y : StateMachine). ok y.tokens)
              (sym (put_self u.machine m (record (u.machine m) { tokens = ts })));
      copies = copies-spared token t u flows w.next older c.copies;
      ended = put_self u.alive t false;
    })

module _ (node_of : ℕ → Node) (satisfied : World → ℕ → ℕ → Option Bool) where
  -- A token at a diverging gateway that is not event-based is replaced by copies of itself, one for each of the flows
  -- taken and in their order, each with a command by which it departs along its flow. All flows of a parallel gateway are
  -- taken; of an inclusive gateway those other than the default flow whose conditions are satisfied, and the default flow
  -- if there are none. The token has been allocated.
  pub handle_diverging_gateway-Split :
      (m t : ℕ) (w v : World)
      → t < w.next
      → (node_of (w.token t).node).represents event_based_gateway_node ≡ false
      → handle_diverging_gateway node_of satisfied m t w ≡ ok v
      → (flows : List ℕ) × (taken (satisfied w t) (node_of (w.token t).node) ≡ ok flows)
        × Split m t flows w v
  unfolding handle_diverging_gateway
  handle_diverging_gateway-Split m t w v older event h =
      let node = node_of (w.token t).node in
      elim (Bool-cases (node.represents parallel_gateway_node)) [
        | inl p ↦
            (node.outgoing, rw p refl, split_token-Split m t node.outgoing w v older (parallel p))
        | inr p ↦ elim (Bool-cases (node.represents inclusive_gateway_node)) [
          | inr i ↦ absurd (ground arith)
          | inl i ↦
              let (flows, found, rest) =
                >>=-eq-ok (satisfied_flows (satisfied w t) node.default_flow node.outgoing)
                  (λ flows.
                    or_default node.default_flow flows >>= λ chosen. split_token m t chosen w)
                  (inclusive p i) in
              let (chosen, selected, run) =
                >>=-eq-ok (or_default node.default_flow flows) (λ chosen. split_token m t chosen w)
                  rest in
              let same : flows
                  ≡ filter (is_satisfied (satisfied w t) node.default_flow) node.outgoing =
                subst (IsFiltered (satisfied w t) node.default_flow node.outgoing) found
                  (satisfied_flows-IsFiltered (satisfied w t) node.default_flow node.outgoing) in
              (
                chosen,
                rw p (ap (or_default node.default_flow) (sym same) ∙ selected),
                split_token-Split m t chosen w v older run,
              )
        ]
      ]
    where
      parallel :
          (node_of (w.token t).node).represents parallel_gateway_node ≡ true
          → split_token m t (node_of (w.token t).node).outgoing w ≡ ok v
      parallel p = ground arith

      inclusive :
          (node_of (w.token t).node).represents parallel_gateway_node ≡ false
          → (node_of (w.token t).node).represents inclusive_gateway_node ≡ true
          → (satisfied_flows
                (satisfied w t)
                (node_of (w.token t).node).default_flow
                (node_of (w.token t).node).outgoing
              >>= λ flows. or_default (node_of (w.token t).node).default_flow flows >>= λ chosen.
                  split_token m t chosen w)
            ≡ ok v
      inclusive p i = ground arith
