-- ===== src/Types/Check/Accepts.antt =====
-- lib/semantic/type.cc: which types `Type::check` accepts.
use wxcc.Base.{
  zero, suc, true, false, none, some, ◌≡◌, ◌≢◌, ◌↔◌, inl, inr, refl, arith, Bool-cases,
  if◌then◌else◌,
}
use wxcc.Outcome.{Outcome, ok}
use wxcc.Types.{
  TypeOp, to_array, to_function, to_funcpara, ◌is◌, CType, null_type, type, get_tyop, Extra,
  elements, para_list,
}
use wxcc.Types.Check.{
  func_need_func, internal, func_ret_func, func_ret_arr, TypeException, meet_all, check_next_para,
  check_para, check_function, verdict, no_counts, check_type, check,
}
use wxcc.Types.Check.Tally.{ops, counts_as_arithmetic, is_sign, AtMostOne, verdict_iff}

-- A list of parameters whose pointers are set.
abbrev pub IsParaList : CType → Type 0
IsParaList null_type = ⊥
IsParaList (type op base (elements zero) size align sym) = Unit
IsParaList (type op base (elements (suc n)) size align sym) = ⊥
IsParaList (type op base (para_list null_type) size align sym) = Unit
IsParaList (type op base (para_list (type op' base' u' size' align' sym')) size align sym) =
    (base' ≢ null_type) × IsParaList (type op' base' u' size' align' sym')

-- The base type of a parameter is no function.
abbrev pub NoFunction : CType → Type 0
NoFunction null_type = Unit
NoFunction (type op base u size align sym) = (op is to_function) ≡ false

-- Every parameter behind the first is one, and no function.
abbrev pub LaterParas : CType → Type 0
LaterParas null_type = Unit
LaterParas (type op base (elements n) size align sym) = Unit
LaterParas (type op base (para_list null_type) size align sym) = Unit
LaterParas (type op base (para_list (type op' base' u' size' align' sym')) size align sym) =
    (((op' is to_funcpara) ≡ true) × NoFunction base')
    × LaterParas (type op' base' u' size' align' sym')

-- A check that gives `te` when all of `P` holds, and an error when it does not.
abbrev pub Gives : Outcome TypeException → Type 0 → Type 0
Gives o P = (r : TypeException) × (o ≡ ok r) × ((r ≡ none) ↔ P)

check_next_para-Gives :
    (op : TypeOp) (base : CType) (te : TypeException)
    → base ≢ null_type
    → Gives
        (check_next_para op base te)
        ((te ≡ none) × (((op is to_funcpara) ≡ true) × NoFunction base))
unfolding check_next_para
check_next_para-Gives op null_type te h = absurd (h refl)
check_next_para-Gives op (type op' base u size align sym) te h =
    elim (Bool-cases (op is to_funcpara)) [
      | inl para ↦ elim (Bool-cases (op' is to_function)) [
        | inl function ↦ (some func_need_func, rw (para, function) refl, ground arith)
        | inr other ↦ (te, rw (para, other) refl, ground arith)
      ]
      | inr bad ↦ (some internal, rw bad refl, ground arith)
    ]

iff_step : {R T S P Q : Type 0} → R ↔ (T × Q) → T ↔ (S × P) → R ↔ (S × (P × Q))
iff_step f g = (
  λ r. let (t, q) = f.0 r in let (s, p) = g.0 t in (s, (p, q)),
  λ h. f.1 (g.1 (h.0, h.1.0), h.1.1),
)

check_para-Gives :
    (p : CType) (te : TypeException)
    → IsParaList p
    → Gives (check_para p te) ((te ≡ none) × LaterParas p)
unfolding check_para
check_para-Gives null_type te h = absurd h
check_para-Gives (type op base (elements zero) size align sym) te h = (te, refl, ground arith)
check_para-Gives (type op base (elements (suc n)) size align sym) te h = absurd h
check_para-Gives (type op base (para_list null_type) size align sym) te h = (te, refl, ground arith)
check_para-Gives (type op base (para_list (type op' base' u' size' align' sym')) size align sym) te
      (h, hs) =
    let (te', e, first) = check_next_para-Gives op' base' te h in
    let (r, e', rest) = check_para-Gives (type op' base' u' size' align' sym') te' hs in
    (r, rw e e', iff_step rest first)

-- The return type is neither a function nor an array.
abbrev pub ReturnsObject : CType → Type 0
ReturnsObject null_type = Unit
ReturnsObject (type op base u size align sym) =
    ((op is to_function) ≡ false) × ((op is to_array) ≡ false)

-- The parameters of a function: there are some, and those behind the first are fit.
abbrev pub HasParas : CType → Type 0
HasParas null_type = ⊥
HasParas (type op base u size align sym) = LaterParas (type op base u size align sym)

-- The pointers of a function type are set, but for those of a missing list.
abbrev pub IsFunctionFormed : CType → Extra → Type 0
IsFunctionFormed null_type u = ⊥
IsFunctionFormed (type op base u' size align sym) (elements n) = ⊥
IsFunctionFormed (type op base u' size align sym) (para_list null_type) = Unit
IsFunctionFormed (type op base u' size align sym)
      (para_list (type op' base' u'' size' align' sym')) =
    IsParaList (type op' base' u'' size' align' sym')

abbrev pub FunctionFits : CType → Extra → Type 0
FunctionFits base (elements n) = ⊥
FunctionFits base (para_list list) = ReturnsObject base × HasParas list

abbrev pub return_error : TypeOp → TypeException → TypeException
return_error op te =
    let te' = if op is to_function then some func_ret_func else te in
    if op is to_array then some func_ret_arr else te'

pub return_error_iff :
    (op : TypeOp) (te : TypeException)
    → (return_error op te ≡ none)
      ↔ ((te ≡ none) × (((op is to_function) ≡ false) × ((op is to_array) ≡ false)))
return_error_iff op te = ground arith

pub check_function-Gives :
    (base : CType) (u : Extra) (te : TypeException)
    → IsFunctionFormed base u
    → Gives (check_function base u te) ((te ≡ none) × FunctionFits base u)
unfolding check_function
check_function-Gives null_type u te h = absurd h
check_function-Gives (type op base u' size align sym) (elements n) te h = absurd h
check_function-Gives (type op base u' size align sym) (para_list null_type) te h =
    (some internal, refl, ground arith)
check_function-Gives (type op base u' size align sym)
      (para_list (type op' base' u'' size' align' sym')) te h =
    let (r, e, fits) =
      check_para-Gives (type op' base' u'' size' align' sym') (return_error op te) h in
    (r, e, iff_step fits (return_error_iff op te))

-- The pointers that the check reads are set.
abbrev pub IsFormed : CType → Type 0
IsFormed null_type = ⊥
IsFormed (type op base u size align sym) =
    ((op is to_function) ≡ true → IsFunctionFormed base u)
    × ((op is to_array) ≡ true → base ≢ null_type)

abbrev pub Accepts : CType → Type 0
Accepts null_type = ⊥
Accepts (type op base u size align sym) =
    ((op is to_function) ≡ true → FunctionFits base u)
    × AtMostOne counts_as_arithmetic (ops (type op base u size align sym))
    × AtMostOne is_sign (ops (type op base u size align sym))

element-ok : (base : CType) → base ≢ null_type → (op : TypeOp) × (get_tyop base ≡ ok op)
element-ok null_type h = absurd (h refl)
element-ok (type op base u size align sym) h = (op, refl)

pub element_part :
    (op : TypeOp) (base : CType)
    → ((op is to_array) ≡ true → base ≢ null_type)
    → (first : TypeOp) × ((if op is to_array then get_tyop base else ok op) ≡ ok first)
element_part op base h = elim (Bool-cases (op is to_array)) [
  | inl array ↦ let (first, e) = element-ok base (h array) in (first, rw array e)
  | inr other ↦ (op, rw other refl)
]

-- The first part of the check, on a function and on any other type.
function_part :
    (op : TypeOp) (base : CType) (u : Extra)
    → ((op is to_function) ≡ true → IsFunctionFormed base u)
    → Gives
        (if op is to_function then check_function base u none else ok none)
        ((op is to_function) ≡ true → FunctionFits base u)
function_part op base u h = elim (Bool-cases (op is to_function)) [
  | inl function ↦
      let (r, e, fits) = check_function-Gives base u none (h function) in
      (r, rw function e, ((λ n _. (fits.0 n).1), (λ all. fits.1 (refl, all function))))
  | inr other ↦ (none, rw other refl, ((λ _ f. absurd (cc)), (λ _. refl)))
]

-- With no error before, the check accepts a type whose pointers are set exactly when, from the type
-- down its base types, at most one operator names an arithmetic type or is `TO_FUNCPARA` and at most
-- one is a sign, and, if it is a function, when it returns neither a function nor an array, has
-- parameters, and each behind the first has the operator `TO_FUNCPARA` and a base type that is no
-- function; a list that ends in `TO_VOID` is refused.
pub check-Accepts : (ty : CType) → IsFormed ty → Gives (check none ty) (Accepts ty)
unfolding check check_type
check-Accepts null_type h = absurd h
check-Accepts (type op base u size align sym) (formed, array) =
    let (te, e, fits) = function_part op base u formed in
    let (first, e') = element_part op base array in
    let v = verdict_iff (type op base u size align sym) te in
    (
      verdict (meet_all (type op base u size align sym) no_counts) te,
      rw (e, e') refl,
      ((λ n. let (t, a, b) = v.0 n in (fits.0 t, a, b)), (λ (f, a, b). v.1 (fits.1 f, a, b))),
    )
