-- ===== src/Trees/Result.antt =====
-- lib/inter/tree.cc: which node a binary operator makes.
use wxcc.Base.{ℕ, Bool, some, Bytes, ◌≡◌, refl, inl, inr, Bool-cases, if◌then◌else◌}
use wxcc.Outcome.{Outcome, ok, fault, uninitialised}
use wxcc.Types.{CType, null_type, type, int_type, binary_op}
use wxcc.Types.Operands.{is_qualified, binary_op-int}
use wxcc.Ir.{Store, Cmd, ◌>>=◌, and_then, pure, new_temporary}
use wxcc.Trees.{NodeOp, Members, new_members, Tree, tree, get_type, lift}
use wxcc.Trees.Build.{emit_arith, arith_tree, compare_tree}

-- What holds of each result of a command.
abbrev pub Ensures : {A : Type 0} → Cmd A → (A → Type 0) → Type 0
Ensures {A} m P = (s s' : Store) (a : A) → m s ≡ ok (a, s') → P a

then_ensures :
    {A B : Type 0} (o : Outcome (A × Store)) (k : A → Cmd B) (P : B → Type 0) (s' : Store) (b : B)
    → ((a : A) (s : Store) → o ≡ ok (a, s) → Ensures (k a) P)
    → and_then o k ≡ ok (b, s')
    → P b
then_ensures (ok (a, s)) k P s' b each h = each a s refl s s' b h
then_ensures (fault e) k P s' b each h = cc

bind_ensures :
    {A B : Type 0} (m : Cmd A) {k : A → Cmd B} {P : B → Type 0}
    → ((s : Store) (a : A) (s' : Store) → m s ≡ ok (a, s') → Ensures (k a) P)
    → Ensures (m >>= k) P
bind_ensures m {k} {P} each s s' b h = then_ensures (m s) k P s' b (each s) h

skip_ensures :
    {A B : Type 0} (m : Cmd A) {k : A → Cmd B} {P : B → Type 0}
    → ((a : A) → Ensures (k a) P)
    → Ensures (m >>= k) P
skip_ensures m {k} {P} each = bind_ensures m {k = k} {P = P} (λ s a s' e. each a)

lift_ok : {A : Type 0} (o : Outcome A) (s s' : Store) (a : A) → lift o s ≡ ok (a, s') → o ≡ ok a
lift_ok (ok x) s s' a h = cc
lift_ok (fault e) s s' a h = cc

binary_op-eq-int : (left right ty : CType) → binary_op left right ≡ ok ty → ty ≡ int_type
unfolding binary_op
binary_op-eq-int null_type right ty h = cc
binary_op-eq-int (type op base u size align s) right ty h =
    let e = binary_op-int (type op base u size align s) right (λ n. cc) in
    elim (Bool-cases (is_qualified (type op base u size align s))) [
      | inl qualified ↦ cc
      | inr plain ↦ cc
    ]

node_result :
    (nop : NodeOp) (ty : CType) (left right : Tree) (m : Members) (s s' : Store) (t : Tree)
    → pure (tree nop ty left right m) s ≡ ok (t, s')
    → ty ≡ int_type
    → t ≡ tree nop int_type left right m
node_result nop ty left right m s s' t h int = cc

pub arith_tree-node :
    (gd : Bool) (nop : NodeOp) (symbol : Bytes) (left right : Tree)
    → Ensures
        (arith_tree gd nop symbol left right)
        (λ t. (n : ℕ) × (t ≡ tree nop int_type left right (record new_members { t = some n })))
unfolding arith_tree
arith_tree-node gd nop symbol left right = skip_ensures (lift (get_type left)) λ left_type.
    skip_ensures (lift (get_type right)) λ right_type.
      bind_ensures (lift (binary_op left_type right_type)) λ s ty s' e.
        let int =
          binary_op-eq-int left_type right_type ty
            (lift_ok (binary_op left_type right_type) s s' ty e) in
        skip_ensures new_temporary λ n.
          skip_ensures (if gd then emit_arith symbol n left right else pure tt) λ u s1 s2 t h.
            (n, node_result nop ty left right (record new_members { t = some n }) s1 s2 t h int)

-- A comparison whose left operand is the result of an arithmetic operator reads a string of it that
-- was never set, whether its code was emitted or not.
pub compare_tree-arith_tree :
    (gd : Bool) (nop compare_nop : NodeOp) (symbol compare_symbol : Bytes) (left right x y : Tree)
    (ty : CType) (s s' t : Store)
    → arith_tree gd nop symbol left right s ≡ ok (x, s')
    → get_type y ≡ ok ty
    → compare_tree compare_nop compare_symbol x y t ≡ fault uninitialised
unfolding compare_tree binary_op
compare_tree-arith_tree gd nop compare_nop symbol compare_symbol left right x y ty s s' t h e =
    let (n, node) = arith_tree-node gd nop symbol left right s s' x h in rw (node, e) refl
