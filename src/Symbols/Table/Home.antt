-- ===== src/Symbols/Table/Home.antt =====
-- includes/table.h: where `PutIntoTable` puts an identifier, and what `find` then answers. The slot
-- at the hash of a name is its home.
use wxcc.Base.{
  ℕ, zero, suc, ◌≤◌, ◌<◌, Option, none, some, List, [], ◌∷◌, get_elem?, set, ◌≡◌, ◌≢◌, refl, sym,
  ap, subst, arith,
}
use mathlib.Core.Option.{some-injective}
use wxcc.Symbols.{Identifier}
use wxcc.Symbols.Table.{Slots, behind, place}

abbrev pub Occupied : Slots → ℕ → Type 0
Occupied slots i = (id : Identifier) × (get_elem? slots i ≡ some (some id))

-- An identifier went to the first empty slot from `i` on.
pub record Placed (i : ℕ) (id : Identifier) (slots after : Slots) : Type 0 where
  pub index : ℕ
  pub from : i ≤ index
  pub empty : get_elem? slots index ≡ some none
  pub stores : after ≡ set slots index (some id)
  pub passed : (j : ℕ) → i ≤ j → j < index → Occupied slots j

pub get_elem?-set :
    {A : Type 0} (xs : List A) (i : ℕ) (v w : A)
    → get_elem? xs i ≡ some w
    → get_elem? (set xs i v) i ≡ some v
get_elem?-set [] i v w h = cc
get_elem?-set (x ∷ xs) zero v w h = refl
get_elem?-set (x ∷ xs) (suc i) v w h = get_elem?-set xs i v w h

pub get_elem?-set_other :
    {A : Type 0} (xs : List A) (i j : ℕ) (v : A) → i ≢ j → get_elem? (set xs i v) j ≡ get_elem? xs j
get_elem?-set_other [] i j v h = refl
get_elem?-set_other (x ∷ xs) zero zero v h = absurd (h refl)
get_elem?-set_other (x ∷ xs) zero (suc j) v h = refl
get_elem?-set_other (x ∷ xs) (suc i) zero v h = refl
get_elem?-set_other (x ∷ xs) (suc i) (suc j) v h = get_elem?-set_other xs i j v (λ e. h (ap suc e))

behind-some :
    (slot : Option Identifier) (o : Option Slots) (s : Slots)
    → behind slot o ≡ some s
    → (r : Slots) × (o ≡ some r) × (s ≡ slot ∷ r)
unfolding behind
behind-some slot none s h = cc
behind-some slot (some r) s h = (r, refl, sym (some-injective _ _ h))

under_slot :
    {i : ℕ} {id : Identifier} {slots after : Slots} (slot : Option Identifier)
    → Placed i id slots after
    → Placed (suc i) id (slot ∷ slots) (slot ∷ after)
under_slot slot t = record {
  index = suc t.index;
  from = omega (arith, t.from);
  empty = t.empty;
  stores = ap (◌∷◌ slot) t.stores;
  passed = pass t;
}
  where
    pass :
        {i : ℕ} {id : Identifier} {slots after : Slots} (t : Placed i id slots after) (j : ℕ)
        → suc i ≤ j
        → j < suc t.index
        → Occupied (slot ∷ slots) j
    pass t zero a b = absurd (omega arith)
    pass t (suc j) a b = t.passed j (omega arith) (omega arith)

past_slot :
    {id : Identifier} {slots after : Slots} (other : Identifier)
    → Placed zero id slots after
    → Placed zero id (some other ∷ slots) (some other ∷ after)
past_slot other t = record {
  index = suc t.index;
  from = omega arith;
  empty = t.empty;
  stores = ap (◌∷◌ (some other)) t.stores;
  passed = pass t;
}
  where
    pass :
        {id : Identifier} {slots after : Slots} (t : Placed zero id slots after) (j : ℕ)
        → zero ≤ j
        → j < suc t.index
        → Occupied (some other ∷ slots) j
    pass t zero a b = (other, refl)
    pass t (suc j) a b = t.passed j (omega arith) (omega arith)

pub place-Placed :
    (i : ℕ) (id : Identifier) (slots after : Slots)
    → place i id slots ≡ some after
    → Placed i id slots after
unfolding place
place-Placed i id [] after h = cc
place-Placed zero id (none ∷ slots) after h = record {
  index = 0;
  from = omega arith;
  empty = refl;
  stores = sym (some-injective _ _ h);
  passed = λ j a b. absurd (omega arith);
}
place-Placed (suc i) id (slot ∷ slots) after h =
    let (r, e, shape) = behind-some slot (place i id slots) after h in
    subst (Placed (suc i) id (slot ∷ slots)) (sym shape)
      (under_slot slot (place-Placed i id slots r e))
place-Placed zero id (some other ∷ slots) after h =
    let (r, e, shape) = behind-some (some other) (place zero id slots) after h in
    subst (Placed zero id (some other ∷ slots)) (sym shape)
      (past_slot other (place-Placed zero id slots r e))
