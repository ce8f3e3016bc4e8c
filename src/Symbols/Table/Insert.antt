-- ===== src/Symbols/Table/Insert.antt =====
-- includes/table.h: which names `find` knows after `PutIntoTable`, and how many fit.
use wxcc.Base.{
  ℕ, zero, suc, ◌+◌, ◌/◌, ◌≤◌, ◌<◌, Bool, true, false, ◌&&◌, none, some, List, [], ◌∷◌, Bytes,
  equal, equal_sound, get_elem?, set, length, leb, ◌==◌, ◌≡◌, ◌≢◌, ◌↔◌, refl, ap, ◌∙◌, arith,
  if◌then◌else◌,
}
use wxcc.Symbols.{Identifier, get_hash, str_hash}
use wxcc.Symbols.Table.{
  Slots, Checked, ok, out_of_bounds, null_dereference, Table, new_table, answer, find, behind,
  place, check_size, after_check, written, put,
}
use wxcc.Symbols.Table.Home.{get_elem?-set}
use wxcc.Symbols.Table.Lookup.{
  home, put-IsPut, ok-injective, IsProbed, put-Keeps, home-put, find-answer, home-find,
  answer-named,
}

-- In a table that was filled by `put` and is not empty, a name is found as an identifier exactly
-- when this one has the name and lies in its home slot.
pub find_iff :
    (t : Table) (name : Bytes) (k : Identifier)
    → IsProbed t
    → 0 < t.stored
    → (find t name ≡ ok (some k))
      ↔ ((get_elem? t.slots (home t name) ≡ some (some k)) × (k.name ≡ name))
find_iff t name k w some_stored = (
  home-find t name k w,
  λ (at_home, named). find-answer t name k at_home some_stored ∙ ap ok (answer-named k name named),
)

place-empty :
    (i : ℕ) (id : Identifier) (slots : Slots)
    → get_elem? slots i ≡ some none
    → place i id slots ≡ some (set slots i (some id))
unfolding place behind
place-empty i id [] e = cc
place-empty zero id (none ∷ slots) e = refl
place-empty zero id (some other ∷ slots) e = cc
place-empty (suc i) id (slot ∷ slots) e = rw (place-empty i id slots e) refl

-- While fewer than the threshold are stored, an identifier whose home slot is empty is put there and
-- found under its name.
pub find-put :
    (t : Table) (id : Identifier)
    → t.stored < t.threshold
    → get_elem? t.slots (home t id.name) ≡ some none
    → (u : Table) × (put t id ≡ ok u) × (find u id.name ≡ ok (some id))
unfolding put written check_size after_check
find-put t id room e =
    let slots = set t.slots (home t id.name) (some id) in
    let u = record t { slots = slots; stored = t.stored + 1 } in
    let not_full : leb t.threshold t.stored ≡ false = ground arith in
    let at_home = get_elem?-set t.slots (home t id.name) (some id) none e in
    (
      u,
      rw (place-empty (home t id.name) id t.slots e, not_full) refl,
      find-answer u id.name id at_home (omega arith) ∙ ap ok (answer-named id id.name refl),
    )

neither : (a b : Bool) (k : Identifier) → b ≢ true → (if a && b then some k else none) ≡ none
neither true true k h = absurd (h refl)
neither true false k h = refl
neither false b k h = refl

unequal-answer : (k : Identifier) (name : Bytes) → k.name ≢ name → answer k name ≡ none
unequal-answer k name h =
    neither (get_hash k == str_hash name) (equal k.name name) k (λ e. h (equal_sound k.name name e))

-- An identifier whose home slot another name occupies is put but is not found under its name.
pub find-put_hidden :
    (t u : Table) (id other : Identifier)
    → get_elem? t.slots (home t id.name) ≡ some (some other)
    → other.name ≢ id.name
    → put t id ≡ ok u
    → find u id.name ≡ ok none
find-put_hidden t u id other e differ h =
    let p = put-IsPut t id u h in
    let kept = put-Keeps t u id p (home t id.name) other e in
    find-answer u id.name other (ap (get_elem? u.slots) (home-put t u id id.name p) ∙ kept)
      (omega (arith, ap Table.stored p.grown))
    ∙ ap ok (unequal-answer other id.name differ)

-- Several identifiers, one after the other.
unfoldable pub then_put : Checked Table → Identifier → Checked Table
then_put (ok t) id = put t id
then_put out_of_bounds id = out_of_bounds
then_put null_dereference id = null_dereference

unfoldable pub put_all : Checked Table → List Identifier → Checked Table
put_all t [] = t
put_all t (id ∷ ids) = put_all (then_put t id) ids

put_all_failed :
    (ids : List Identifier) (u : Table)
    → (put_all out_of_bounds ids ≢ ok u) × (put_all null_dereference ids ≢ ok u)
unfolding put_all then_put
put_all_failed [] u = (λ e. cc, λ e. cc)
put_all_failed (id ∷ ids) u = put_all_failed ids u

put_all-stored :
    (t u : Table) (ids : List Identifier)
    → t.stored ≤ t.threshold
    → put_all (ok t) ids ≡ ok u
    → (u.stored ≡ t.stored + length ids) × (t.stored + length ids ≤ t.threshold)
unfolding put_all then_put
put_all-stored t u [] le h = let e = ap Table.stored (ok-injective h) in (omega arith, omega arith)
put_all-stored t u (id ∷ ids) le h = go (put t id) refl h (λ v. put_all-stored v u ids)
  where
    go :
        (c : Checked Table)
        → put t id ≡ c
        → put_all c ids ≡ ok u
        → ((v : Table)
            → v.stored ≤ v.threshold
            → put_all (ok v) ids ≡ ok u
            → (u.stored ≡ v.stored + length ids) × (v.stored + length ids ≤ v.threshold))
        → (u.stored ≡ t.stored + length (id ∷ ids)) × (t.stored + length (id ∷ ids) ≤ t.threshold)
    go out_of_bounds e h ih = absurd ((put_all_failed ids u).0 h)
    go null_dereference e h ih = absurd ((put_all_failed ids u).1 h)
    go (ok v) e h ih =
        let p = put-IsPut t id v e in
        let grown = ap Table.stored p.grown in
        let same = ap Table.threshold p.grown in
        let rest = ih v (omega (arith, p.room)) h in (omega (arith, rest), omega (arith, rest))

-- Three quarters of the slots, rounded down, are all that can be put into a new table: one more
-- identifier makes it grow, which fails.
pub put_all-length :
    (size : ℕ) (ids : List Identifier) (u : Table)
    → put_all (ok (new_table size)) ids ≡ ok u
    → (u.stored ≡ length ids) × (length ids ≤ size / 4 + size / 2)
put_all-length size ids u h =
    let t = put_all-stored (new_table size) u ids (omega arith) h in
    (omega (arith, t), omega (arith, t))
