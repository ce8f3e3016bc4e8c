-- ===== src/Types/Check.antt =====
-- lib/semantic/type.cc: `Type::check` and what it calls.
pub mod Tally
pub mod Accepts
pub mod Sticks
use Prim.Native.Nat.{bit_and}
use wxcc.Base.{
  ℕ, ◌+◌, Bool, true, false, ◌&&◌, ◌||◌, Option, none, some, ltb, leb, ◌==◌, if◌then◌else◌, zero,
  suc,
}
use wxcc.Outcome.{Outcome, ok, fault, null_dereference, wild_pointer, ◌>>=◌}
use wxcc.Types.{
  TypeOp, to_char, to_float, to_double, to_array, to_function, to_signed, to_unsigned, to_funcpara,
  code, ◌is◌, CType, null_type, type, get_tyop, Extra, elements, para_list,
}

-- The texts of `typeError` that are used, and "internal error".
pub data TypeError : Type 0 where
  too_types both_usigned func_ret_func func_ret_arr func_need_func internal : TypeError

-- A `TypeException`; `none` is one without an exception.
abbrev pub TypeException : Type 0
TypeException = Option TypeError

-- `Type::matchBaseType`
abbrev pub match_base_type : TypeOp → Bool
match_base_type op = bit_and (code op) 0x0100_0010 == 0x0100_0010 || op is to_char

pub record Counts : Type 0 where
  pub meet_signed : ℕ
  pub meet_usigned : ℕ
  pub meet_base_type : ℕ
  pub meet_float : ℕ

abbrev pub plus_if : Bool → ℕ → ℕ
plus_if b n = if b then n + 1 else n

-- The body of the loop of `checkType`.
unfoldable pub meet : TypeOp → Counts → Counts
meet op c = record {
  meet_signed = plus_if (op is to_signed) c.meet_signed;
  meet_usigned = plus_if (op is to_unsigned) c.meet_usigned;
  meet_base_type = plus_if (match_base_type op) c.meet_base_type;
  meet_float = plus_if (op is to_double || op is to_float) c.meet_float;
}

unfoldable pub meet_all : CType → Counts → Counts
unfolding meet
meet_all null_type c = c
meet_all (type op base u size align sym) c = meet_all base (meet op c)

-- `setError` replaces an earlier error. A parameter after the first is checked.
unfoldable pub check_next_para : TypeOp → CType → TypeException → Outcome TypeException
check_next_para op base te =
    if op is to_funcpara
    then elim base [
      | null_type ↦ fault null_dereference
      | type op' base' u size align sym ↦
          ok (if op' is to_function then some func_need_func else te)
    ]
    else ok (some internal)

-- `Type::checkPara`; the number of elements of an array is read as a pointer.
unfoldable pub check_para : CType → TypeException → Outcome TypeException
unfolding check_next_para
check_para null_type te = fault null_dereference
check_para (type op base (elements zero) size align sym) te = ok te
check_para (type op base (elements (suc n)) size align sym) te = fault wild_pointer
check_para (type op base (para_list null_type) size align sym) te = ok te
check_para (type op base (para_list (type op' base' u' size' align' sym')) size align sym) te =
    check_next_para op' base' te >>= check_para (type op' base' u' size' align' sym')

-- `Type::checkFunction` on a function with its return type and its parameters.
unfoldable pub check_function : CType → Extra → TypeException → Outcome TypeException
unfolding check_para
check_function null_type u te = fault null_dereference
check_function (type op base u' size align sym) (elements n) te = fault wild_pointer
check_function (type op base u' size align sym) (para_list list) te =
    let te' = if op is to_function then some func_ret_func else te in
    let te'' = if op is to_array then some func_ret_arr else te' in
    elim list [
      | null_type ↦ ok (some internal)
      | type op' base' u' size' align' sym' ↦ check_para (type op' base' u' size' align' sym') te''
    ]

-- The end of `Type::checkType`. The last message is that of too many types: its index is that of a
-- warning.
unfoldable pub verdict : Counts → TypeException → TypeException
verdict c te =
    if ltb 1 c.meet_base_type
    then some too_types
    else if ltb 0 c.meet_usigned && ltb 0 c.meet_signed
    then some both_usigned
    else if leb 2 (c.meet_signed + c.meet_usigned) && leb 0 c.meet_float
    then some too_types
    else te

abbrev pub no_counts : Counts
no_counts = record { meet_signed = 0; meet_usigned = 0; meet_base_type = 0; meet_float = 0 }

-- `Type::checkType`; for an array the type of the elements is read.
unfoldable pub check_type : CType → TypeException → Outcome TypeException
unfolding check_function verdict meet_all
check_type null_type te = fault null_dereference
check_type (type op base u size align sym) te = do
  te' ← if op is to_function then check_function base u te else ok te
  element ← if op is to_array then get_tyop base else ok op
  ok (verdict (meet_all (type op base u size align sym) no_counts) te')

-- `Type::check`: the exception is static, so that it is the one that the last check left.
unfoldable pub check : TypeException → CType → Outcome TypeException
unfolding check_type
check te ty = check_type ty te
