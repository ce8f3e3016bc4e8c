-- ===== src/Symbols/Table/Lookup.antt =====
-- includes/table.h: `find` after `PutIntoTable`.
use wxcc.Base.{
  ℕ, zero, suc, ◌+◌, ◌%◌, ◌≤◌, ◌<◌, Bool, true, false, ◌&&◌, Option, none, some, Bytes, equal,
  equal_self, equal_sound, get_elem?, replicate, leb, ◌==◌, ==_iff, ◌≡◌, ◌≢◌, refl, ◌⊎◌, sym, ap,
  subst, ◌∙◌, arith, if◌then◌else◌, inl, inr,
}
use mathlib.Core.Option.{some-injective}
use native.Mathlib.Decide.{ℕ_discrete}
use wxcc.Symbols.{Identifier, get_hash, str_hash}
use wxcc.Symbols.Table.{
  Slots, Checked, ok, null_dereference, Table, new_table, answer, find_next, find_home, find, place,
  check_size, after_check, written, put,
}
use wxcc.Symbols.Table.Home.{Occupied, Placed, place-Placed, get_elem?-set, get_elem?-set_other}

-- The home slot of a name.
abbrev pub home : Table → Bytes → ℕ
home t name = str_hash name % t.table_size

pub ok-injective : {A : Type 0} {a b : A} → ok a ≡ ok b → a ≡ b
ok-injective h = cc

-- What a `put` that succeeds has done.
pub record IsPut (t : Table) (id : Identifier) (u : Table) : Type 0 where
  pub room : t.stored < t.threshold
  pub placed : Placed (home t id.name) id t.slots u.slots
  pub grown : u ≡ record t { slots = u.slots; stored = t.stored + 1 }

ok-after_check :
    (t u : Table) (full : Bool)
    → leb t.threshold t.stored ≡ full
    → after_check (if full then null_dereference else ok t) ≡ ok u
    → (t.stored < t.threshold) × (u ≡ record t { stored = t.stored + 1 })
unfolding after_check
ok-after_check t u true e h = cc
ok-after_check t u false e h = (ground (arith, e), cc)

ok-written :
    (t : Table) (id : Identifier) (o : Option Slots) (u : Table)
    → place (home t id.name) id t.slots ≡ o
    → written t o ≡ ok u
    → IsPut t id u
unfolding written check_size
ok-written t id none u e h = cc
ok-written t id (some slots) u e h =
    let (room, grown) =
      ok-after_check (record t { slots = slots }) u (leb t.threshold t.stored) refl h in
    record {
      room = room;
      placed =
          subst (Placed (home t id.name) id t.slots) (ap Table.slots (sym grown))
            (place-Placed (home t id.name) id t.slots slots e);
      grown =
          grown
          ∙ ap (λ s. record t { slots = s; stored = t.stored + 1 }) (ap Table.slots (sym grown));
    }

pub put-IsPut : (t : Table) (id : Identifier) (u : Table) → put t id ≡ ok u → IsPut t id u
unfolding put
put-IsPut t id u h = ok-written t id (place (home t id.name) id t.slots) u refl h

-- Each identifier was put behind occupied slots only.
pub IsProbed : Table → Type 0
IsProbed t =
    (i : ℕ) (id : Identifier)
    → get_elem? t.slots i ≡ some (some id)
    → (home t id.name ≤ i) × ((j : ℕ) → home t id.name ≤ j → j ≤ i → Occupied t.slots j)

pub none-apart :
    (slots : Slots) (p j : ℕ) (k : Identifier)
    → get_elem? slots p ≡ some none
    → get_elem? slots j ≡ some (some k)
    → p ≢ j
none-apart slots p j k e o same = cc

-- The identifiers of a table keep their slots.
pub put-Keeps :
    (t u : Table) (id : Identifier)
    → IsPut t id u
    → (j : ℕ) (k : Identifier) → get_elem? t.slots j ≡ some (some k)
    → get_elem? u.slots j ≡ some (some k)
put-Keeps t u id p j k e =
    let at = p.placed.index in
    let apart = none-apart t.slots at j k p.placed.empty e in
    ap (λ s. get_elem? s j) p.placed.stores ∙ get_elem?-set_other t.slots at j (some id) apart ∙ e

put-at :
    (t u : Table) (id : Identifier)
    → (p : IsPut t id u) → get_elem? u.slots p.placed.index ≡ some (some id)
put-at t u id p =
    ap (λ s. get_elem? s p.placed.index) p.placed.stores
    ∙ get_elem?-set t.slots p.placed.index (some id) none p.placed.empty

pub home-put :
    (t u : Table) (id : Identifier) (name : Bytes) → IsPut t id u → home u name ≡ home t name
home-put t u id name p = ap (λ v. home v name) p.grown

pub find-answer :
    (t : Table) (name : Bytes) (k : Identifier)
    → get_elem? t.slots (home t name) ≡ some (some k)
    → 0 < t.stored
    → find t name ≡ ok (answer k name)
unfolding find find_home
find-answer t name k e h =
    let some_stored : (t.stored == 0) ≡ false = ground arith in rw (some_stored, e) refl

some-if :
    {A : Type 0} (a b : Bool) (x y : A)
    → (if a && b then some x else none) ≡ some y
    → (x ≡ y) × (b ≡ true)
some-if true true x y h = (some-injective _ _ h, refl)
some-if true false x y h = cc
some-if false b x y h = cc

answer-some :
    (id k : Identifier) (name : Bytes) → answer id name ≡ some k → (id ≡ k) × (k.name ≡ name)
answer-some id k name h =
    let (same, named) = some-if (get_hash id == str_hash name) (equal id.name name) id k h in
    (same, sym (ap Identifier.name same) ∙ equal_sound id.name name named)

find_home-some :
    (a b : Option (Option Identifier)) (name : Bytes) (k : Identifier)
    → find_home a b name ≡ ok (some k)
    → ((a ≡ some (some k)) ⊎ ((a ≡ some none) × (b ≡ some (some k)))) × (k.name ≡ name)
unfolding find_home find_next
find_home-some none b name k h = cc
find_home-some (some none) none name k h = cc
find_home-some (some none) (some none) name k h = cc
find_home-some (some none) (some (some id)) name k h =
    let (same, named) = answer-some id k name (ok-injective h) in
    (inr (refl, ap (λ (x : Identifier). some (some x)) same), named)
find_home-some (some (some id)) b name k h =
    let (same, named) = answer-some id k name (ok-injective h) in
    (inl (ap (λ (x : Identifier). some (some x)) same), named)

unless-empty :
    (b : Bool) (k : Identifier) (r : Checked (Option Identifier))
    → (if b then ok none else r) ≡ ok (some k)
    → r ≡ ok (some k)
unless-empty true k r h = cc
unless-empty false k r h = h

-- A `find` that answers found the identifier in the home slot.
pub home-find :
    (t : Table) (name : Bytes) (k : Identifier)
    → IsProbed t
    → find t name ≡ ok (some k)
    → (get_elem? t.slots (home t name) ≡ some (some k)) × (k.name ≡ name)
unfolding find IsProbed
home-find t name k w h =
    let (occupied, named) =
      find_home-some (get_elem? t.slots (home t name)) (get_elem? t.slots (home t name + 1)) name k
        (unless-empty (t.stored == 0) k _ h) in
    elim occupied [
      | inl at_home ↦ (at_home, named)
      | inr (vacant, next) ↦
          let same : home t k.name ≡ home t name = ap (home t) named in
          let (id, o) =
            (w (home t name + 1) k next).1 (home t name) (omega (arith, same)) (omega arith) in
          absurd (none-apart t.slots (home t name) (home t name) id vacant o refl)
    ]

get_elem?-replicate :
    (size i : ℕ) (id : Identifier) → get_elem? (replicate size none) i ≢ some (some id)
unfolding replicate
get_elem?-replicate zero i id h = cc
get_elem?-replicate (suc n) zero id h = cc
get_elem?-replicate (suc n) (suc i) id h = get_elem?-replicate n i id h

pub new_table-IsProbed : (size : ℕ) → IsProbed (new_table size)
unfolding IsProbed
new_table-IsProbed size i id h = absurd (get_elem?-replicate size i id h)

kept_slot :
    (t u : Table) (id : Identifier)
    → IsPut t id u
    → (j : ℕ) → Occupied t.slots j
    → Occupied u.slots j
kept_slot t u id p j (k, o) = (k, put-Keeps t u id p j k o)

passed_slot :
    (t u : Table) (id : Identifier) (p : IsPut t id u) (j : ℕ)
    → home t id.name ≤ j
    → j ≤ p.placed.index
    → Occupied u.slots j
passed_slot t u id p j a b = elim (ℕ_discrete j p.placed.index) [
  | yes same ↦ (id, ap (get_elem? u.slots) same ∙ put-at t u id p)
  | no other ↦ kept_slot t u id p j (p.placed.passed j a (omega arith))
]

-- An identifier in a slot is the one put there, or it was there before.
put-cases :
    (t u : Table) (id : Identifier) (p : IsPut t id u) (i : ℕ) (k : Identifier)
    → get_elem? u.slots i ≡ some (some k)
    → ((i ≡ p.placed.index) × (id ≡ k)) ⊎ (get_elem? t.slots i ≡ some (some k))
put-cases t u id p i k e = elim (ℕ_discrete p.placed.index i) [
  | yes same ↦ inl (
    sym same,
    some-injective _ _
        (some-injective _ _ (sym (put-at t u id p) ∙ ap (get_elem? u.slots) same ∙ e)),
  )
  | no other ↦ inr (
      sym (get_elem?-set_other t.slots p.placed.index i (some id) other)
      ∙ ap (λ s. get_elem? s i) (sym p.placed.stores)
      ∙ e)
]

Reaches : Table → ℕ → Bytes → Type 0
Reaches t i name = (home t name ≤ i) × ((j : ℕ) → home t name ≤ j → j ≤ i → Occupied t.slots j)

put-Reaches : (t u : Table) (id : Identifier) (p : IsPut t id u) → Reaches u p.placed.index id.name
unfolding Reaches
put-Reaches t u id p = rw (home-put t u id id.name p) (p.placed.from, passed_slot t u id p)

kept_reach :
    (t u : Table) (id : Identifier) (p : IsPut t id u) (i : ℕ) (name : Bytes)
    → Reaches t i name
    → Reaches u i name
unfolding Reaches
kept_reach t u id p i name (a, b) =
    rw (home-put t u id name p) (a, λ j c d. kept_slot t u id p j (b j c d))

-- `put` keeps the slots from the home slot of each identifier to its own slot occupied.
pub put-IsProbed : (t u : Table) (id : Identifier) → IsProbed t → put t id ≡ ok u → IsProbed u
unfolding IsProbed Reaches
put-IsProbed t u id w h i k e =
    let p = put-IsPut t id u h in
    elim (put-cases t u id p i k e) [
      | inl (at, same) ↦
          subst (λ (x : Identifier). Reaches u i x.name) same
            (subst (λ (x : ℕ). Reaches u x id.name) (sym at) (put-Reaches t u id p))
      | inr before ↦ kept_reach t u id p i k.name (w i k before)
    ]

pub answer-named : (k : Identifier) (name : Bytes) → k.name ≡ name → answer k name ≡ some k
answer-named k name e =
    rw (sym e) (rw ((==_iff (get_hash k) (get_hash k)).1 refl, equal_self k.name) refl)

-- In a table that was filled by `put`, a name that is found is still found as the same identifier
-- when another one has been put.
pub find-put_kept :
    (t u : Table) (id k : Identifier) (name : Bytes)
    → IsProbed t
    → put t id ≡ ok u
    → find t name ≡ ok (some k)
    → find u name ≡ ok (some k)
find-put_kept t u id k name w h f =
    let p = put-IsPut t id u h in
    let (at_home, named) = home-find t name k w f in
    let kept = put-Keeps t u id p (home t name) k at_home in
    let positive : 0 < u.stored = omega (arith, ap Table.stored p.grown) in
    find-answer u name k (ap (get_elem? u.slots) (home-put t u id name p) ∙ kept) positive
    ∙ ap ok (answer-named k name named)
