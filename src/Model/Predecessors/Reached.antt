-- ===== src/Model/Predecessors/Reached.antt =====
-- model/bpmnos/src/Model.cpp: the search for the predecessors of a gateway ends, and finds exactly these.
use mathlib.Core.List.{Memᴰ}
use mathlib.Core.Path.{subst}
use bpmnos_engine.Prelude.{
  ℕ, zero, suc, ◌+◌, ◌≤◌, ◌<◌, ◌≡◌, ◌≢◌, ◌↔◌, refl, sym, ap, ◌∙◌, ◌⊎◌, inl, inr, Bool, true, false,
  ◌||◌, List, [], ◌∷◌, ◌==◌, ==_iff, arith, Bool-cases, length, ok,
}
use bpmnos_engine.Model.Predecessors.{Search, visit_flow, visit_flows, search_from, predecessors}
use bpmnos_engine.Model.Predecessors.Visits.{
  mem, contradictory, or_right, or_false, mem_here, unvisited, unvisited_bound, Grown, Grown-refl,
  Grown-trans, insert_unless-Grown, inserted, inserted_inv,
}

module _ (incoming : ℕ → List ℕ) (source : ℕ → ℕ) (gateway : ℕ) where
  -- The gateway, by one of its incoming sequence flows, can be reached from the node without being visited before.
  pub data Precedes : ℕ → Type 0 where
    direct :
        (flow : ℕ) → Memᴰ flow (incoming gateway) → source flow ≢ gateway → Precedes (source flow)
    further :
        (flow n : ℕ)
        → Precedes n
        → Memᴰ flow (incoming n)
        → source flow ≢ gateway
        → Precedes (source flow)

  visit_flow-Grown :
      (bound flow : ℕ) (s : Search)
      → source flow < bound
      → Grown bound s (visit_flow incoming source gateway flow s)
  unfolding visit_flow
  visit_flow-Grown bound flow s h =
      insert_unless-Grown bound (source flow) (source flow == gateway || s.nodes (source flow)) s h
        (λ e. (or_false (source flow == gateway) (s.nodes (source flow)) e).1)

  visit_flow-found :
      (flow : ℕ) (s : Search)
      → source flow ≢ gateway
      → (visit_flow incoming source gateway flow s).nodes (source flow) ≡ true
  unfolding visit_flow
  visit_flow-found flow s h =
      inserted (source flow == gateway || s.nodes (source flow)) (source flow) s (
        or_right (source flow == gateway) (s.nodes (source flow))
          (elim (Bool-cases (source flow == gateway)) [
            | inl e ↦ absurd (h ((==_iff (source flow) gateway).0 e))
            | inr e ↦ e
          ]))

  visit_flows-Grown :
      (bound : ℕ) (flows : List ℕ) (s : Search)
      → ((f : ℕ) → source f < bound)
      → Grown bound s (visit_flows incoming source gateway flows s)
  unfolding visit_flows
  visit_flows-Grown bound [] s h = Grown-refl bound s
  visit_flows-Grown bound (f ∷ flows) s h =
      Grown-trans bound s (visit_flow incoming source gateway f s)
        (visit_flows incoming source gateway flows (visit_flow incoming source gateway f s))
        (visit_flow-Grown bound f s (h f))
        (visit_flows-Grown bound flows (visit_flow incoming source gateway f s) h)

  visit_flows-found :
      (bound flow : ℕ) (flows : List ℕ) (s : Search)
      → ((f : ℕ) → source f < bound)
      → Memᴰ flow flows
      → source flow ≢ gateway
      → (visit_flows incoming source gateway flows s).nodes (source flow) ≡ true
  unfolding visit_flows
  visit_flows-found bound flow [] s h m other = elim m [ ]
  visit_flows-found bound flow (f ∷ flows) s h (Memᴰ.head e) other =
      (visit_flows-Grown bound flows (visit_flow incoming source gateway f s) h).mono (source flow)
        (subst (λ k. (visit_flow incoming source gateway f s).nodes (source k) ≡ true) (sym e)
          (visit_flow-found f s (λ g. other (ap source e ∙ g))))
  visit_flows-found bound flow (f ∷ flows) s h (Memᴰ.tail m) other =
      visit_flows-found bound flow flows (visit_flow incoming source gateway f s) h m other

  -- Visiting finds nothing but sources of the flows.
  visit_flows_sound :
      (flows : List ℕ) (s : Search)
      → ((n : ℕ) → s.nodes n ≡ true → Precedes n)
      → ((f : ℕ) → Memᴰ f flows → source f ≢ gateway → Precedes (source f))
      → (n : ℕ) → (visit_flows incoming source gateway flows s).nodes n ≡ true
      → Precedes n
  unfolding visit_flows visit_flow
  visit_flows_sound [] s old new n h = old n h
  visit_flows_sound (f ∷ flows) s old new n h =
      visit_flows_sound flows (visit_flow incoming source gateway f s) first
        (λ g m. new g (Memᴰ.tail m)) n h
    where
      first : (k : ℕ) → (visit_flow incoming source gateway f s).nodes k ≡ true → Precedes k
      first k e = elim (inserted_inv (source f == gateway || s.nodes (source f)) (source f) k s e) [
        | inl a ↦ old k a
        | inr (b, same) ↦ subst Precedes same (
            new f (Memᴰ.head refl) (λ g.
              contradictory ((==_iff (source f) gateway).1 g)
                (or_false (source f == gateway) (s.nodes (source f)) b).0))
      ]

  -- All predecessors of a node that is no longer pending have been found.
  Closed : (ℕ → Bool) → ℕ → Type 0
  Closed nodes n = (f : ℕ) → Memᴰ f (incoming n) → source f ≢ gateway → nodes (source f) ≡ true

  complete :
      (nodes : ℕ → Bool)
      → ((n : ℕ) → (n ≡ gateway) ⊎ (nodes n ≡ true) → Closed nodes n)
      → (n : ℕ) → Precedes n
      → nodes n ≡ true
  unfolding Closed
  complete nodes closed _ (direct flow m other) = closed gateway (inl refl) flow m other
  complete nodes closed _ (further flow n p m other) =
      closed n (inr (complete nodes closed n p)) flow m other

  search_from-exact :
      (bound fuel : ℕ) (nodes : ℕ → Bool) (pending : List ℕ)
      → ((f : ℕ) → source f < bound)
      → ((n : ℕ) → nodes n ≡ true → Precedes n)
      → ((n : ℕ) → mem n pending ≡ true → (n ≡ gateway) ⊎ (nodes n ≡ true))
      → ((n : ℕ) → (n ≡ gateway) ⊎ (nodes n ≡ true) → (mem n pending ≡ true) ⊎ Closed nodes n)
      → unvisited bound nodes + length pending ≤ fuel
      → (found : ℕ → Bool) × (search_from incoming source gateway fuel nodes pending ≡ ok found)
        × ((n : ℕ) → (found n ≡ true) ↔ Precedes n)
  unfolding search_from Closed
  search_from-exact bound fuel nodes [] below sound listed closed enough = (
    nodes,
    refl,
    λ n. (sound n, complete nodes (λ k e. elim (closed k e) [ inl h ↦ cc h | inr h ↦ h ]) n),
  )
  search_from-exact bound zero nodes (c ∷ pending) below sound listed closed enough =
      absurd (omega (arith, enough))
  search_from-exact bound (suc fuel) nodes (c ∷ pending) below sound listed closed enough =
      search_from-exact bound fuel t.nodes t.pending below
        (visit_flows_sound (incoming c) s sound sources) listed_later closed_later
        (omega (arith, grown.work, enough))
    where
      s : Search
      s = record { nodes = nodes; pending = pending }

      t : Search
      t = visit_flows incoming source gateway (incoming c) s

      grown : Grown bound s t
      grown = visit_flows-Grown bound (incoming c) s below

      sources : (f : ℕ) → Memᴰ f (incoming c) → source f ≢ gateway → Precedes (source f)
      sources f m other = elim (listed c (mem_here c c pending ((==_iff c c).1 refl))) [
        | inl e ↦ direct f (subst (λ k. Memᴰ f (incoming k)) e m) other
        | inr e ↦ further f c (sound c e) m other
      ]

      behind : (n : ℕ) → mem n pending ≡ true → mem n (c ∷ pending) ≡ true
      behind n h = elim (Bool-cases (c == n)) [ inl e ↦ mem_here c n pending e | inr e ↦ rw e h ]

      listed_later : (n : ℕ) → mem n t.pending ≡ true → (n ≡ gateway) ⊎ (t.nodes n ≡ true)
      listed_later n h = elim (grown.pushed n h) [
        | inr e ↦ inr e
        | inl e ↦ elim (listed n (behind n e)) [ inl a ↦ inl a | inr b ↦ inr (grown.mono n b) ]
      ]

      still :
          (n : ℕ) → (n ≡ gateway) ⊎ (nodes n ≡ true) → (mem n t.pending ≡ true) ⊎ Closed t.nodes n
      still n h = elim (closed n h) [
        | inr all ↦ inr (λ f m other. grown.mono (source f) (all f m other))
        | inl e ↦ elim (Bool-cases (c == n)) [
          | inl a ↦ inr (
              subst (Closed t.nodes) ((==_iff c n).0 a)
                (λ f m other. visit_flows-found bound f (incoming c) s below m other))
          | inr b ↦ inl (grown.kept n (or_right (c == n) (mem n pending) b e))
        ]
      ]

      closed_later :
          (n : ℕ) → (n ≡ gateway) ⊎ (t.nodes n ≡ true) → (mem n t.pending ≡ true) ⊎ Closed t.nodes n
      closed_later n (inl e) = still n (inl e)
      closed_later n (inr e) = elim (grown.fresh n e) [ inl a ↦ still n (inr a) | inr b ↦ inl b ]

  -- The search for the predecessors of a gateway ends within as many rounds as there are nodes, and one: it finds exactly
  -- the nodes from which the gateway can be reached by one of its incoming sequence flows without being visited before.
  -- The source of every sequence flow is numbered below the number of nodes.
  pub predecessors-Precedes :
      (bound : ℕ)
      → ((f : ℕ) → source f < bound)
      → (found : ℕ → Bool) × (predecessors incoming source gateway (suc bound) ≡ ok found)
        × ((n : ℕ) → (found n ≡ true) ↔ Precedes n)
  unfolding predecessors
  predecessors-Precedes bound below =
      search_from-exact bound (suc bound) (λ n. false) (gateway ∷ []) below (λ n h. cc h) at_gateway
        pending_gateway (omega (arith, unvisited_bound bound))
    where
      at_gateway : (n : ℕ) → mem n (gateway ∷ []) ≡ true → (n ≡ gateway) ⊎ (false ≡ true)
      at_gateway n h = elim (Bool-cases (gateway == n)) [
        | inl e ↦ inl (sym ((==_iff gateway n).0 e))
        | inr e ↦ absurd (contradictory (or_right (gateway == n) false e h) refl)
      ]

      pending_gateway :
          (n : ℕ)
          → (n ≡ gateway) ⊎ (false ≡ true)
          → (mem n (gateway ∷ []) ≡ true) ⊎ Closed (λ k. false) n
      pending_gateway n (inl e) = inl (mem_here gateway n [] ((==_iff gateway n).1 (sym e)))
      pending_gateway n (inr e) = cc e
