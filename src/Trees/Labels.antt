-- ===== src/Trees/Labels.antt =====
-- lib/inter/tree.cc: the label between the operands of `||` and `&&`.
use wxcc.Base.{
  ℕ, ◌+◌, ◌<◌, ◌≤◌, Bool, true, false, not, ◌&&◌, ◌||◌, Bool-cases, inl, inr, some, List, [], ◌∷◌,
  ◌++◌, codes, ◌==◌, ◌≡◌, ◌≢◌, refl, ◌∙◌, arith, if◌then◌else◌,
}
use wxcc.Outcome.{ok}
use wxcc.Types.{CType}
use wxcc.Ir.{Ptr, null, Ir, IrList, Store, unset, write, allocate, new_ir, get_pre, make_ir_list}
use wxcc.Ir.Chain.{
  Nodes, has, ◌∉◌, head_or, Linked, has_self, has-append, Linked-write, Linked-split,
}
use wxcc.Ir.Patch.{IsCounted, Allocated, aim}
use wxcc.Ir.Walk.{get_pre-Holds}
use wxcc.Ir.Insert.{content, append_ir-Inserts}
use wxcc.Trees.{NodeOp, Members, Tree, tree, is_cmp, is_log}
use wxcc.Trees.Conditions.{as_condition, label_in_front}

-- An operand that is a comparison or a condition stays as it is.
pub as_condition-keeps :
    (gd : Bool) (op : NodeOp) (ty : CType) (left right : Tree) (m : Members) (s : Store)
    → (is_cmp op || is_log op) ≡ true
    → as_condition gd (tree op ty left right m) s ≡ ok (tree op ty left right m, s)
unfolding as_condition
as_condition-keeps gd op ty left right m s h =
    let no : (not (is_cmp op) && not (is_log op)) ≡ false = ground arith in rw no refl

pub below-out : (xs : List Ptr) (n p : Ptr) → ((a : Ptr) → has a xs ≡ true → a < n) → n ≤ p → p ∉ xs
below-out xs n p below h = elim (Bool-cases (has p xs)) [
  | inl i ↦ absurd (omega (arith, below p i))
  | inr out ↦ out
]

-- The code: `b` is in it, right behind `before`, and all its instructions have been allocated.
pub record IsSplit (s : Store) (front : List Ptr) (before b : Ptr) (back : List Ptr) : Type 0 where
  pub linked : Linked s.nodes null (front ++ before ∷ b ∷ back) null
  pub below : (a : Ptr) → has a (front ++ before ∷ b ∷ back) ≡ true → a < s.fresh

has_middle : (front : List Ptr) (x : Ptr) (back : List Ptr) → has x (front ++ x ∷ back) ≡ true
has_middle front x back =
    let self = has_self x back in has-append x front (x ∷ back) ∙ ground (arith, self)

pub fresh_ne :
    (s : Store) (front : List Ptr) (before b : Ptr) (back : List Ptr)
    → IsSplit s front before b back
    → s.fresh ≢ null
fresh_ne s front before b back c n =
    omega (arith, n, c.below before (has_middle front before (b ∷ back)))

get_pre-Linked :
    (s : Store) (front : List Ptr) (before b : Ptr) (back : List Ptr)
    → Linked s.nodes null (front ++ before ∷ b ∷ back) null
    → get_pre b s ≡ ok (before, s)
get_pre-Linked s front before b back l =
    let (first, (nf, out, held, (nb, b_out, held_b, l')), apart) =
      Linked-split s.nodes null front before (b ∷ back) null l in
    get_pre-Holds s b before (head_or back null) nb held_b

abbrev pub label_ir : Ir
label_ir = unset (codes "%s : \n")

abbrev pub with_label : Store → Nodes → Store
with_label s nodes =
    let l : IrList = record { irs = s.fresh ∷ []; ir_count = 1 } in
    record s {
      nodes = nodes;
      fresh = s.fresh + 1;
      lists = λ i. if i == s.fresh_list then l else s.lists i;
      fresh_list = s.fresh_list + 1;
    }

-- The instruction of the label is put in front of the right operand's code, in a list of its own.
pub label_in_front-Linked :
    (s : Store) (front : List Ptr) (before b : Ptr) (back : List Ptr) (op : NodeOp) (ty : CType)
    (left right : Tree) (m : Members)
    → IsSplit s front before b back
    → m.codebegin ≡ some b
    → (nodes : Nodes) × (label_in_front (tree op ty left right m) s
        ≡ ok (s.fresh_list, with_label s nodes))
      × Linked nodes null (front ++ before ∷ s.fresh ∷ b ∷ back) null
      × ((a : Ptr) → content (nodes a) ≡ content (write s.nodes s.fresh label_ir a))
unfolding label_in_front new_ir allocate make_ir_list
label_in_front-Linked s front before b back op ty left right m c e =
    let p = s.fresh in
    let out : p ∉ (front ++ before ∷ b ∷ back) =
      below-out (front ++ before ∷ b ∷ back) p p c.below (omega arith) in
    let s1 = record s { nodes = write s.nodes p label_ir; fresh = p + 1 } in
    let l = Linked-write s.nodes p label_ir null (front ++ before ∷ b ∷ back) null out c.linked in
    let np : p ≢ null = fresh_ne s front before b back c in
    let (nodes, done, linked, same) =
      append_ir-Inserts s1 front before p (b ∷ back) label_ir l np out (ground arith) in
    (nodes, rw (e, get_pre-Linked s1 front before b back l, done) refl, linked, same)

-- Two operands in a store that `||` or `&&` can join: the code is as above, the counts are right, the
-- lists differ, and those to patch now have allocated instructions.
pub record IsJoinable (s : Store) (front : List Ptr) (before b : Ptr) (back : List Ptr)
    (patched kept added : ℕ) : Type 0 where
  pub code : IsSplit s front before b back
  pub counted : IsCounted s
  pub allocated : Allocated s.nodes (s.lists patched).irs
  pub patched_old : patched < s.fresh_list
  pub kept_old : kept < s.fresh_list
  pub added_old : added < s.fresh_list
  pub kept_ne : kept ≢ patched
  pub added_ne : added ≢ patched

-- What `||` and `&&` do: the label is in front of the right operand's code, the jumps of one list
-- lead to it, and the other list gets the right operand's.
pub record Joins (s : Store) (front : List Ptr) (before b : Ptr) (back : List Ptr)
    (label patched kept added : ℕ) (place : Ptr) (s' : Store) : Type 0 where
  pub linked : Linked s'.nodes null (front ++ before ∷ place ∷ b ∷ back) null
  pub text : content (s'.nodes place) ≡ some (some label, codes "%s : \n")
  pub jumps :
      (a : Ptr)
      → a < s.fresh
      → content (s'.nodes a) ≡ content (aim label (has a (s.lists patched).irs) (s.nodes a))
  pub joined : (s'.lists kept).irs ≡ (s.lists kept).irs ++ (s.lists added).irs
  pub others : (l : ℕ) → l < s.fresh_list → l ≢ kept → l ≢ patched → s'.lists l ≡ s.lists l
