-- ===== src/Trees/Branch.antt =====
-- lib/inter/tree.cc: the code of a comparison.
use wxcc.Base.{
  ℕ, ◌+◌, ◌<◌, true, some, List, [], ◌∷◌, ◌++◌, append_assoc, Bytes, length, ltb, ◌==◌, ◌≡◌, refl,
  ◌∙◌, sym, ap, subst, arith, if◌then◌else◌,
}
use wxcc.Outcome.{ok}
use wxcc.Types.{CType, binary_op}
use wxcc.Ir.{Ptr, IrList, Store, make_ir_list}
use wxcc.Ir.Append.{IsCode, listing, Appends, new_ir-Appends}
use wxcc.Trees.{NodeOp, new_members, Tree, tree, get_type, to_string}
use wxcc.Trees.Build.{jump_text, goto_text, compare_tree}

-- A comparison's code and lists: two instructions behind the code, each to be patched.
pub record Branches (s : Store) (front : List Ptr) (text : Bytes) (nop : NodeOp) (ty : CType)
    (left right t : Tree) (s' : Store) : Type 0 where
  pub is_code : IsCode s' (front ++ s.current ∷ s.fresh ∷ [])
  pub texts :
      listing s'.nodes (front ++ s.current ∷ s.fresh ∷ s'.current ∷ [])
      ≡ listing s.nodes (front ++ s.current ∷ []) ++ text ∷ goto_text ∷ []
  pub node :
      t
      ≡ tree nop ty left right (record new_members {
        codebegin = some s.fresh;
        true_list = some s.fresh_list;
        false_list = some (s.fresh_list + 1);
      })
  pub on_true : s'.lists s.fresh_list ≡ record { irs = s.fresh ∷ []; ir_count = 1 }
  pub on_false : s'.lists (s.fresh_list + 1) ≡ record { irs = s'.current ∷ []; ir_count = 1 }

-- What two calls of `makeIRList` leave.
abbrev two_lists : Store → (p q : Ptr) → Store
two_lists s p q =
    let on : IrList = record { irs = p ∷ []; ir_count = 1 } in
    let off : IrList = record { irs = q ∷ []; ir_count = 1 } in
    record s {
      lists =
          λ i. if i == s.fresh_list + 1 then off else if i == s.fresh_list then on else s.lists i;
      fresh_list = s.fresh_list + 1 + 1;
    }

two_lists-irs :
    (s : Store) (p q : Ptr)
    → ((two_lists s p q).lists s.fresh_list ≡ record { irs = p ∷ []; ir_count = 1 })
      × ((two_lists s p q).lists (s.fresh_list + 1) ≡ record { irs = q ∷ []; ir_count = 1 })
two_lists-irs s p q = (ground arith, ground arith)

front_two :
    (front : List Ptr) (c p q : Ptr) (rest : List Ptr)
    → p ≡ q
    → (front ++ c ∷ []) ++ p ∷ rest ≡ front ++ c ∷ q ∷ rest
front_two front c p q rest e =
    append_assoc front (c ∷ []) (p ∷ rest) ∙ ap (λ (x : Ptr). front ++ c ∷ x ∷ rest) e

abbrev branch_node : NodeOp → CType → (left right : Tree) → Ptr → ℕ → Tree
branch_node nop ty left right p l =
    tree nop ty left right
      (record new_members { codebegin = some p; true_list = some l; false_list = some (l + 1) })

Branches-Appends :
    (s s1 s2 : Store) (front : List Ptr) (text : Bytes) (nop : NodeOp) (ty : CType)
    (left right : Tree)
    → Appends s front text s.fresh s1
    → Appends s1 (front ++ s.current ∷ []) goto_text s1.fresh s2
    → Branches s front text nop ty left right
        (branch_node nop ty left right s.fresh s2.fresh_list)
        (two_lists s2 s.fresh s1.fresh)
Branches-Appends s s1 s2 front text nop ty left right a1 a2 =
    let code =
      subst (IsCode s2) (front_two front s.current s1.current s.fresh [] a1.is_current)
        a2.is_code in
    let same : s2.fresh_list ≡ s.fresh_list = a2.fresh_list_kept ∙ a1.fresh_list_kept in
    let (on, off) = two_lists-irs s2 s.fresh s1.fresh in
    record {
      is_code = record { linked = code.linked; below = code.below };
      texts =
          ap (listing s2.nodes)
            (sym (front_two front s.current s1.current s.fresh (s2.current ∷ []) a1.is_current))
          ∙ a2.texts
          ∙ ap (λ (x : List Bytes). x ++ goto_text ∷ [])
              (ap (listing s1.nodes) (append_assoc front (s.current ∷ []) (s1.current ∷ []))
                ∙ a1.texts)
          ∙ append_assoc (listing s.nodes (front ++ s.current ∷ [])) (text ∷ []) (goto_text ∷ []);
      node = ap (branch_node nop ty left right s.fresh) same;
      on_true =
          subst
            (λ (l : ℕ).
              (two_lists s2 s.fresh s1.fresh).lists l ≡ record { irs = s.fresh ∷ []; ir_count = 1 })
            same on;
      on_false =
          subst
            (λ (l : ℕ).
              (two_lists s2 s.fresh s1.fresh).lists (l + 1)
              ≡ record { irs = s2.current ∷ []; ir_count = 1 })
            same (rw a2.is_current off);
    }

-- A comparison of two operands that have names, whose text fits its array, appends a jump with the
-- operator and a jump without a condition to the code, and makes lists of one instruction each.
pub compare_tree-Branches :
    (nop : NodeOp) (symbol : Bytes) (left right : Tree) (left_type right_type ty : CType)
    (l r : Bytes) (s : Store) (front : List Ptr)
    → get_type left ≡ ok left_type
    → get_type right ≡ ok right_type
    → binary_op left_type right_type ≡ ok ty
    → to_string left ≡ ok l
    → to_string right ≡ ok r
    → length (jump_text l symbol r) < 40
    → IsCode s front
    → (t : Tree) × (s' : Store) × (compare_tree nop symbol left right s ≡ ok (t, s'))
      × Branches s front (jump_text l symbol r) nop ty left right t s'
unfolding compare_tree make_ir_list
compare_tree-Branches nop symbol left right left_type right_type ty l r s front lt rt bt ls rs fits
      c =
    let text = jump_text l symbol r in
    let (s1, e1, a1) = new_ir-Appends s front text c in
    let (s2, e2, a2) = new_ir-Appends s1 (front ++ s.current ∷ []) goto_text a1.is_code in
    let short : ltb (length text) 40 ≡ true = ground arith in
    (
      branch_node nop ty left right s.fresh s2.fresh_list,
      two_lists s2 s.fresh s1.fresh,
      rw (lt, rt, bt, ls, rs, short, e1, e2) refl,
      Branches-Appends s s1 s2 front text nop ty left right a1 a2,
    )
