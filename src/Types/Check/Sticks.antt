-- ===== src/Types/Check/Sticks.antt =====
-- lib/semantic/type.cc: an exception stays from one check to the next.
use wxcc.Base.{
  zero, suc, none, some, ◌≡◌, ◌≢◌, true, refl, inl, inr, arith, Bool-cases, if◌then◌else◌,
}
use wxcc.Outcome.{ok, >>=-eq-ok, ok-injective}
use wxcc.Types.{TypeOp, to_function, ◌is◌, CType, null_type, type, Extra, elements, para_list}
use wxcc.Types.Check.{
  TypeError, TypeException, check_next_para, check_para, check_function, meet_all, verdict,
  no_counts, check_type, check,
}
use wxcc.Types.Check.Tally.{verdict_iff}
use wxcc.Types.Check.Accepts.{
  return_error, return_error_iff, IsFunctionFormed, IsFormed, check_function-Gives, element_part,
}

next_para_sticks :
    (op : TypeOp) (base : CType) (te r : TypeException)
    → te ≢ none
    → check_next_para op base te ≡ ok r
    → r ≢ none
unfolding check_next_para
next_para_sticks op null_type te r t h = ground arith
next_para_sticks op (type op' base' u size align s) te r t h = ground arith

para_sticks : (p : CType) (te r : TypeException) → te ≢ none → check_para p te ≡ ok r → r ≢ none
unfolding check_para
para_sticks null_type te r t h = cc
para_sticks (type op base (elements zero) size align s) te r t h = ground arith
para_sticks (type op base (elements (suc n)) size align s) te r t h = cc
para_sticks (type op base (para_list null_type) size align s) te r t h = ground arith
para_sticks (type op base (para_list (type op' base' u' size' align' s')) size align s) te r t h =
    let (te', e, h') =
      >>=-eq-ok (check_next_para op' base' te) (check_para (type op' base' u' size' align' s')) h in
    para_sticks (type op' base' u' size' align' s') te' r (next_para_sticks op' base' te te' t e) h'

function_sticks :
    (base : CType) (u : Extra) (te r : TypeException)
    → te ≢ none
    → check_function base u te ≡ ok r
    → r ≢ none
unfolding check_function
function_sticks null_type u te r t h = cc
function_sticks (type op base u' size align s) (elements n) te r t h = cc
function_sticks (type op base u' size align s) (para_list null_type) te r t h = ground arith
function_sticks (type op base u' size align s) (para_list (type op' base' u'' size' align' s')) te r
      t h =
    para_sticks (type op' base' u'' size' align' s') (return_error op te) r
      (λ n. t ((return_error_iff op te).0 n).0) h

start_sticks :
    (e : TypeError) (op : TypeOp) (base : CType) (u : Extra) (te : TypeException)
    → (if op is to_function then check_function base u (some e) else ok (some e)) ≡ ok te
    → te ≢ none
start_sticks e op base u te h = elim (Bool-cases (op is to_function)) [
  | inl function ↦ function_sticks base u (some e) te (λ n. cc) (rw function at h)
  | inr other ↦ let same = ok-injective (rw other at h) in λ n. cc
]

-- The first part of a check that starts with an error.
function_runs :
    (e : TypeError) (op : TypeOp) (base : CType) (u : Extra)
    → ((op is to_function) ≡ true → IsFunctionFormed base u)
    → (te : TypeException) × ((if op is to_function
          then check_function base u (some e)
          else ok (some e))
        ≡ ok te)
function_runs e op base u formed = elim (Bool-cases (op is to_function)) [
  | inl function ↦
      let (te, h, fits) = check_function-Gives base u (some e) (formed function) in
      (te, rw function h)
  | inr other ↦ (some e, rw other refl)
]

-- A check that starts with an error, of a type whose pointers are set, ends with an error, whatever
-- the type: the exception is static and no check resets it.
pub check-sticks :
    (e : TypeError) (ty : CType)
    → IsFormed ty
    → (r : TypeException) × (check (some e) ty ≡ ok r) × (r ≢ none)
unfolding check check_type
check-sticks e null_type formed = absurd formed
check-sticks e (type op base u size align s) (formed, array) =
    let (te, h1) = function_runs e op base u formed in
    let (first, h2) = element_part op base array in
    (
      verdict (meet_all (type op base u size align s) no_counts) te,
      rw (h1, h2) refl,
      λ n. start_sticks e op base u te h1 ((verdict_iff (type op base u size align s) te).0 n).0,
    )
