-- ===== src/Model/Definitions/Agreed.antt =====
-- model/bpmnos/src/Model.cpp: validation compares with the first event of a name only, and yet all of them agree.
use mathlib.Core.List.{Memᴰ}
use mathlib.Core.Path.{subst}
use bpmnos_engine.Prelude.{
  ◌≡◌, ◌↔◌, ◌⊎◌, inl, inr, refl, sym, ap, ◌∙◌, true, false, Option, none, some, List, [], ◌∷◌,
  Bool-cases, ok, throw, >>=-eq-ok, ok-injective, runtime_error,
}
use bpmnos_engine.Prelude.Int.{ℤ}
use bpmnos_engine.Values.Number.{number_eq, number_eq_iff}
use bpmnos_engine.Values.Schema.{Schema, schema_eq}
use bpmnos_engine.Values.Schema.Supports.{schema_eq_iff}
use bpmnos_engine.Model.Definitions.{
  ErrorDefinition, Firsts, add_first, compare_with_first, validate_events, validate_processes,
  validate,
}

-- An event of some process has the definition.
abbrev pub Stated : List (List (Option ErrorDefinition)) → ErrorDefinition → Type 0
Stated processes d =
    (events : List (Option ErrorDefinition)) × Memᴰ events processes × Memᴰ (some d) events

-- The map has kept its entries, and has the schemas of the definitions given.
record Covers (Given : ErrorDefinition → Type 0) (f g : Firsts) : Type 0 where
  kept : (n : ℤ) (s : Schema) → f n ≡ some s → g n ≡ some s
  given : (d : ErrorDefinition) → Given d → g d.name ≡ some d.schema

mem_cons {ℓ} : {A : Type ℓ} {a b : A} {l : List A} → Memᴰ a (b ∷ l) → (a ≡ b) ⊎ Memᴰ a l
mem_cons (Memᴰ.head e) = inl e
mem_cons (Memᴰ.tail m) = inr m

first_added : (f : Firsts) (d : ErrorDefinition) → add_first f d d.name ≡ some d.schema
first_added f d = rw ((number_eq_iff d.name d.name).1 refl) refl

others_kept :
    (f : Firsts) (d : ErrorDefinition) (n : ℤ) → number_eq d.name n ≡ false → add_first f d n ≡ f n
others_kept f d n q = rw q refl

compared :
    (d : ErrorDefinition) (f g : Firsts) (o : Option Schema)
    → f d.name ≡ o
    → compare_with_first o d f ≡ ok g
    → Covers (λ e. e ≡ d) f g
compared d f g none e run =
    let now : add_first f d ≡ g = ok-injective run in
    record {
      kept = λ n s h. elim (Bool-cases (number_eq d.name n)) [
        | inl q ↦ cc (h, e, (number_eq_iff d.name n).0 q)
        | inr q ↦ ap (λ (m : Firsts). m n) (sym now) ∙ others_kept f d n q ∙ h
      ];
      given = λ k same.
          subst (λ (x : ErrorDefinition). g x.name ≡ some x.schema) (sym same)
            (ap (λ (m : Firsts). m d.name) (sym now) ∙ first_added f d);
    }
compared d f g (some s) e run = elim (Bool-cases (schema_eq d.schema s)) [
  | inl q ↦
      let now : f ≡ g = ok-injective (opened q) in
      record {
        kept = λ n t h. ap (λ (m : Firsts). m n) (sym now) ∙ h;
        given = λ k same.
            subst (λ (x : ErrorDefinition). g x.name ≡ some x.schema) (sym same)
              (ap (λ (m : Firsts). m d.name) (sym now)
                ∙ e
                ∙ ap some (sym ((schema_eq_iff d.schema s).0 q)));
      }
  | inr q ↦ absurd (refused q)
]
  where
    opened : schema_eq d.schema s ≡ true → ok f ≡ ok g
    opened q = sym (chosen q) ∙ run
      where
        chosen : schema_eq d.schema s ≡ true → compare_with_first (some s) d f ≡ ok f
        chosen q = rw q refl

    refused : schema_eq d.schema s ≡ false → ⊥
    refused q = cc (chosen q, run)
      where
        chosen :
            schema_eq d.schema s ≡ false → compare_with_first (some s) d f ≡ throw runtime_error
        chosen q = rw q refl

events_covered :
    (events : List (Option ErrorDefinition)) (f g : Firsts)
    → validate_events events f ≡ ok g
    → Covers (λ d. Memᴰ (some d) events) f g
unfolding validate_events
events_covered [] f g run = record {
  kept = λ n s h. ap (λ (m : Firsts). m n) (sym (ok-injective run)) ∙ h;
  given = λ d m. elim m [ ];
}
events_covered (none ∷ events) f g run =
    let rest = events_covered events f g run in
    record {
      kept = rest.kept;
      given = λ d m. elim (mem_cons m) [ inl e ↦ cc e | inr k ↦ rest.given d k ];
    }
events_covered (some d ∷ events) f g run =
    let (v, first, more) =
      >>=-eq-ok (compare_with_first (f d.name) d f) (validate_events events) run in
    let here = compared d f v (f d.name) refl first in
    let rest = events_covered events v g more in
    record {
      kept = λ n s h. rest.kept n s (here.kept n s h);
      given = λ e m. elim (mem_cons m) [
        | inl q ↦ rest.kept e.name e.schema (here.given e (cc q))
        | inr k ↦ rest.given e k
      ];
    }

processes_covered :
    (processes : List (List (Option ErrorDefinition))) (f g : Firsts)
    → validate_processes processes f ≡ ok g
    → Covers (Stated processes) f g
unfolding validate_processes
processes_covered [] f g run = record {
  kept = λ n s h. ap (λ (m : Firsts). m n) (sym (ok-injective run)) ∙ h;
  given = λ d (events, m, k). elim m [ ];
}
processes_covered (p ∷ ps) f g run =
    let (v, first, more) = >>=-eq-ok (validate_events p f) (validate_processes ps) run in
    let here = events_covered p f v first in
    let rest = processes_covered ps v g more in
    record {
      kept = λ n s h. rest.kept n s (here.kept n s h);
      given = λ d (events, m, k). elim (mem_cons m) [
        | inl e ↦ rest.kept d.name d.schema (here.given d (subst (λ l. Memᴰ (some d) l) e k))
        | inr n ↦ rest.given d (events, n, k)
      ];
    }

-- Definitions of the same name state the same type.
abbrev pub Agreed : (ErrorDefinition → Type 0) → Type 0
Agreed Given = (d e : ErrorDefinition) → Given d → Given e → d.name ≡ e.name → d.schema ≡ e.schema

-- The entries of the map come from the definitions given.
abbrev Consistent : (ErrorDefinition → Type 0) → Firsts → Type 0
Consistent Given f =
    (n : ℤ) (s : Schema)
    → f n ≡ some s
    → (d : ErrorDefinition) × Given d × (d.name ≡ n) × (d.schema ≡ s)

module _ (Given : ErrorDefinition → Type 0) (agreed : Agreed Given) where
  compared_ok :
      (d : ErrorDefinition) (f : Firsts)
      → Given d
      → Consistent Given f
      → (o : Option Schema) → f d.name ≡ o
      → (g : Firsts) × (compare_with_first o d f ≡ ok g) × Consistent Given g
  compared_ok d f given consistent none e = (add_first f d, refl, later)
    where
      later : Consistent Given (add_first f d)
      later n s h = elim (Bool-cases (number_eq d.name n)) [
        | inl q ↦ (d, given, (number_eq_iff d.name n).0 q, cc (h, added q))
        | inr q ↦ consistent n s (sym (others_kept f d n q) ∙ h)
      ]
        where
          added : number_eq d.name n ≡ true → add_first f d n ≡ some d.schema
          added q = rw q refl
  compared_ok d f given consistent (some s) e =
      let (k, known, name, schema) = consistent d.name s e in
      let same : d.schema ≡ s = agreed d k given known (sym name) ∙ schema in
      (f, rw ((schema_eq_iff d.schema s).1 same) refl, consistent)

  events_ok :
      (events : List (Option ErrorDefinition)) (f : Firsts)
      → ((d : ErrorDefinition) → Memᴰ (some d) events → Given d)
      → Consistent Given f
      → (g : Firsts) × (validate_events events f ≡ ok g) × Consistent Given g
  unfolding validate_events
  events_ok [] f given consistent = (f, refl, consistent)
  events_ok (none ∷ events) f given consistent =
      events_ok events f (λ d m. given d (Memᴰ.tail m)) consistent
  events_ok (some d ∷ events) f given consistent =
      let (v, first, next) =
        compared_ok d f (given d (Memᴰ.head refl)) consistent (f d.name) refl in
      let (g, more, done) = events_ok events v (λ e m. given e (Memᴰ.tail m)) next in
      (g, rw first more, done)

  processes_ok :
      (processes : List (List (Option ErrorDefinition))) (f : Firsts)
      → ((d : ErrorDefinition) → Stated processes d → Given d)
      → Consistent Given f
      → (g : Firsts) × (validate_processes processes f ≡ ok g) × Consistent Given g
  unfolding validate_processes
  processes_ok [] f given consistent = (f, refl, consistent)
  processes_ok (p ∷ ps) f given consistent =
      let (v, first, next) = events_ok p f (λ d m. given d (p, Memᴰ.head refl, m)) consistent in
      let (g, more, done) =
        processes_ok ps v (λ d (events, m, k). given d (events, Memᴰ.tail m, k)) next in
      (g, rw first more, done)

-- Validation succeeds exactly when all events of all processes that state the same name state the same type, although each
-- is compared with the first one only.
pub validate_iff :
    (processes : List (List (Option ErrorDefinition)))
    → (validate processes ≡ ok tt) ↔ Agreed (Stated processes)
unfolding validate
validate_iff processes = (sound, succeeds)
  where
    sound : validate processes ≡ ok tt → Agreed (Stated processes)
    sound h d e sd se same =
        let (g, run, done) =
          >>=-eq-ok (validate_processes processes (λ n. none)) (λ firsts. ok tt) h in
        let all = processes_covered processes (λ n. none) g run in
        cc (all.given d sd, all.given e se, same)

    succeeds : Agreed (Stated processes) → validate processes ≡ ok tt
    succeeds agreed =
        let (g, run, done) =
          processes_ok (Stated processes) agreed processes (λ n. none) (λ d s. s) (λ n s h. cc h) in
        rw run refl
