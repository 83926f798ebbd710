-- ===== src/Model/Predecessors/Visits.antt =====
-- model/bpmnos/src/Model.cpp: how visiting the incoming sequence flows of a node changes a search.
use bpmnos_engine.Prelude.{
  ℕ, zero, suc, ◌+◌, ◌≤◌, ◌<◌, ◌≡◌, ◌≢◌, refl, sym, ap, ◌∙◌, ◌⊎◌, inl, inr, Bool, true, false, ◌||◌,
  List, [], ◌∷◌, ◌==◌, ==_iff, if◌then◌else◌, arith, Bool-cases, length,
}
use bpmnos_engine.Engine.World.{put, put_self, put_other}
use bpmnos_engine.Model.Predecessors.{Search, insert_unless}

abbrev pub mem : ℕ → List ℕ → Bool
mem n [] = false
mem n (x ∷ xs) = (x == n) || mem n xs

pub contradictory : {b : Bool} → b ≡ true → b ≡ false → ⊥
contradictory h k = cc (h, k)

pub or_right : (a b : Bool) → a ≡ false → (a || b) ≡ true → b ≡ true
or_right true b h k = cc
or_right false b h k = k

pub or_false : (a b : Bool) → (a || b) ≡ false → (a ≡ false) × (b ≡ false)
or_false true b h = cc
or_false false b h = (refl, h)

put-true : (nodes : ℕ → Bool) (n k : ℕ) → nodes k ≡ true → put nodes n true k ≡ true
put-true nodes n k h = elim (Bool-cases (n == k)) [ inl e ↦ rw e refl | inr e ↦ rw e h ]

put-true_inv :
    (nodes : ℕ → Bool) (n k : ℕ) → put nodes n true k ≡ true → (nodes k ≡ true) ⊎ ((n == k) ≡ true)
put-true_inv nodes n k h = elim (Bool-cases (n == k)) [
  | inl e ↦ inr e
  | inr e ↦ inl (sym (rest e) ∙ h)
]
  where
    rest : (n == k) ≡ false → put nodes n true k ≡ nodes k
    rest e = rw e refl

put-true_here : (nodes : ℕ → Bool) (n k : ℕ) → (n == k) ≡ true → put nodes n true k ≡ true
put-true_here nodes n k e = rw e refl

pub mem_here : (n k : ℕ) (xs : List ℕ) → (n == k) ≡ true → mem k (n ∷ xs) ≡ true
mem_here n k xs e = rw e refl

-- The nodes below the bound that have not been found.
pub unvisited : ℕ → (ℕ → Bool) → ℕ
unvisited zero nodes = 0
unvisited (suc k) nodes = (if nodes k then 0 else 1) + unvisited k nodes

pub unvisited_bound : (bound : ℕ) → unvisited bound (λ n. false) ≤ bound
unfolding unvisited
unvisited_bound zero = omega arith
unvisited_bound (suc b) = omega (arith, unvisited_bound b)

unvisited_above :
    (bound k : ℕ) (nodes : ℕ → Bool)
    → bound ≤ k
    → unvisited bound (put nodes k true) ≡ unvisited bound nodes
unfolding unvisited
unvisited_above zero k nodes h = refl
unvisited_above (suc b) k nodes h =
    rw
      (
        put_other nodes k b true (λ e. absurd (omega (arith, e, h))),
        unvisited_above b k nodes (omega (arith, h)),
      )
      refl

unvisited-put :
    (bound k : ℕ) (nodes : ℕ → Bool)
    → k < bound
    → nodes k ≡ false
    → suc (unvisited bound (put nodes k true)) ≡ unvisited bound nodes
unfolding unvisited
unvisited-put zero k nodes h f = absurd (omega (arith, h))
unvisited-put (suc b) k nodes h f = elim (Bool-cases (b == k)) [
  | inl e ↦
      let same : b ≡ k = (==_iff b k).0 e in
      let p : put nodes k true b ≡ true = ap (put nodes k true) same ∙ put_self nodes k true in
      let q : nodes b ≡ false = ap nodes same ∙ f in
      rw (p, q, unvisited_above b k nodes (omega (arith, same))) (omega arith)
  | inr e ↦
      let other : b ≢ k = λ g. absurd (contradictory ((==_iff b k).1 g) e) in
      rw (put_other nodes k b true other)
        (omega (arith, unvisited-put b k nodes (omega (arith, h, other)) f))
]

-- What a search may have come to from another.
pub record Grown (bound : ℕ) (s t : Search) : Type 0 where
  pub mono : (n : ℕ) → s.nodes n ≡ true → t.nodes n ≡ true
  pub fresh : (n : ℕ) → t.nodes n ≡ true → (s.nodes n ≡ true) ⊎ (mem n t.pending ≡ true)
  pub kept : (n : ℕ) → mem n s.pending ≡ true → mem n t.pending ≡ true
  pub pushed : (n : ℕ) → mem n t.pending ≡ true → (mem n s.pending ≡ true) ⊎ (t.nodes n ≡ true)
  pub work : unvisited bound t.nodes + length t.pending ≡ unvisited bound s.nodes + length s.pending

pub Grown-refl : (bound : ℕ) (s : Search) → Grown bound s s
Grown-refl bound s = record {
  mono = λ n h. h;
  fresh = λ n h. inl h;
  kept = λ n h. h;
  pushed = λ n h. inl h;
  work = refl;
}

pub Grown-trans : (bound : ℕ) (s t u : Search) → Grown bound s t → Grown bound t u → Grown bound s u
Grown-trans bound s t u g h = record {
  mono = λ n e. h.mono n (g.mono n e);
  fresh = λ n e. elim (h.fresh n e) [
    | inl f ↦ elim (g.fresh n f) [ inl a ↦ inl a | inr b ↦ inr (h.kept n b) ]
    | inr f ↦ inr f
  ];
  kept = λ n e. h.kept n (g.kept n e);
  pushed = λ n e. elim (h.pushed n e) [
    | inl f ↦ elim (g.pushed n f) [ inl a ↦ inl a | inr b ↦ inr (h.mono n b) ]
    | inr f ↦ inr f
  ];
  work = h.work ∙ g.work;
}

pub insert_unless-Grown :
    (bound n : ℕ) (b : Bool) (s : Search)
    → n < bound
    → (b ≡ false → s.nodes n ≡ false)
    → Grown bound s (insert_unless b n s)
insert_unless-Grown bound n true s h f = Grown-refl bound s
insert_unless-Grown bound n false s h f = record {
  mono = λ k e. put-true s.nodes n k e;
  fresh = λ k e. elim (put-true_inv s.nodes n k e) [
    | inl a ↦ inl a
    | inr b ↦ inr (mem_here n k s.pending b)
  ];
  kept = λ k e. ground arith;
  pushed = λ k e. elim (Bool-cases (n == k)) [
    | inl a ↦ inr (put-true_here s.nodes n k a)
    | inr b ↦ inl (or_right (n == k) (mem k s.pending) b e)
  ];
  work = omega (arith, unvisited-put bound n s.nodes h (f refl));
}

pub inserted :
    (b : Bool) (n : ℕ) (s : Search)
    → (b ≡ true → s.nodes n ≡ true)
    → (insert_unless b n s).nodes n ≡ true
inserted true n s h = h refl
inserted false n s h = put_self s.nodes n true

pub inserted_inv :
    (b : Bool) (n k : ℕ) (s : Search)
    → (insert_unless b n s).nodes k ≡ true
    → (s.nodes k ≡ true) ⊎ ((b ≡ false) × (n ≡ k))
inserted_inv true n k s h = inl h
inserted_inv false n k s h = elim (put-true_inv s.nodes n k h) [
  | inl e ↦ inl e
  | inr e ↦ inr (refl, (==_iff n k).0 e)
]
