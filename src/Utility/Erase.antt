-- ===== src/Utility/Erase.antt =====
-- execution/utility/src/erase.h. A pointer is its address; the three overloads of `erase_ptr` differ in the
-- pointer type of the vector alone.
use bpmnos_engine.Prelude.{
  ℕ, suc, ◌+◌, ◌≡◌, refl, ap, ◌≢◌, inl, inr, List, [], ◌∷◌, ◌++◌, arith, ◌==◌, if◌then◌else◌,
  Bool-cases, Result, ok, throw, logic_error,
}

abbrev pub map_ok {ℓ κ} : {A : Type ℓ} {B : Type κ} → (A → B) → Result A → Result B
map_ok f (ok a) = ok (f a)
map_ok f (throw e) = throw e

unfoldable pub erase_ptr : List ℕ → ℕ → Result (List ℕ)
erase_ptr [] element_ptr = throw logic_error
erase_ptr (p ∷ container) element_ptr =
    if p == element_ptr then ok container else map_ok (◌∷◌ p) (erase_ptr container element_ptr)

module _ {ℓ} {K : Type ℓ} where
  unfoldable pub erase_pair : List (K × ℕ) → ℕ → Result (List (K × ℕ))
  erase_pair [] element_ptr = throw logic_error
  erase_pair ((k, p) ∷ container) element_ptr =
      if p == element_ptr
      then ok container
      else map_ok (◌∷◌ (k, p)) (erase_pair container element_ptr)

abbrev pub count : ℕ → List ℕ → ℕ
count a [] = 0
count a (x ∷ xs) = if x == a then suc (count a xs) else count a xs

abbrev pub Contains : ℕ → List ℕ → Type 0
Contains a xs = count a xs ≢ 0

-- What a successful erasure leaves: the container without the first occurrence of the pointer.
pub record Erased (container : List ℕ) (element_ptr : ℕ) (rest : List ℕ) : Type 0 where
  pub before : List ℕ
  pub after : List ℕ
  pub split : container ≡ before ++ element_ptr ∷ after
  pub joined : rest ≡ before ++ after
  pub first : count element_ptr before ≡ 0

abbrev pub Erases : List ℕ → ℕ → Result (List ℕ) → Type 0
Erases container element_ptr (ok rest) = Erased container element_ptr rest
Erases container element_ptr (throw e) = (e ≡ logic_error) × (count element_ptr container ≡ 0)

Erases-cons :
    (p : ℕ) (container : List ℕ) (element_ptr : ℕ) (r : Result (List ℕ))
    → p ≢ element_ptr
    → Erases container element_ptr r
    → Erases (p ∷ container) element_ptr (map_ok (◌∷◌ p) r)
Erases-cons p container element_ptr (ok rest) h e = record {
  before = p ∷ e.before;
  after = e.after;
  split = ap (◌∷◌ p) e.split;
  joined = ap (◌∷◌ p) e.joined;
  first = ground (arith, e.first);
}
Erases-cons p container element_ptr (throw x) h e = (e.0, ground (arith, e.1))

-- `erase_ptr` removes the first occurrence of the pointer and nothing else, in place, and throws
-- `std::logic_error` exactly when the container does not hold the pointer.
pub erase_ptr-Erases :
    (container : List ℕ) (element_ptr : ℕ)
    → Erases container element_ptr (erase_ptr container element_ptr)
unfolding erase_ptr
erase_ptr-Erases [] element_ptr = (refl, refl)
erase_ptr-Erases (p ∷ container) element_ptr = elim (Bool-cases (p == element_ptr)) [
  | inl e ↦
      rw e (record {
        before = [];
        after = container;
        split = ground arith;
        joined = refl;
        first = refl;
      })
  | inr e ↦ rw e (
      Erases-cons p container element_ptr _ (ground arith) (erase_ptr-Erases container element_ptr))
]

count-append : (a : ℕ) (xs ys : List ℕ) → count a (xs ++ ys) ≡ count a xs + count a ys
count-append a [] ys = omega arith
count-append a (x ∷ xs) ys = ground (arith, count-append a xs ys)

-- An erasure takes the pointer off once, and changes how often no other one occurs.
pub Erased-count :
    {container rest : List ℕ} {p : ℕ} (a : ℕ)
    → Erased container p rest
    → count a container ≡ count a rest + (if p == a then 1 else 0)
Erased-count {p = p} a e =
    rw (e.split, e.joined)
      (ground (arith, count-append a e.before (p ∷ e.after), count-append a e.before e.after))
