-- ===== src/Tests/Types.antt =====
-- lib/semantic/type.cc: runs and instances.
use wxcc.Base.{none, some, ◌≡◌, ◌≢◌, refl}
use wxcc.Outcome.{ok, fault, null_dereference}
use wxcc.Types.{
  to_const, to_function, to_funcpara, to_array, CType, null_type, type, para_list, elements,
  char_type, int_type, plain_type, make_type, binary_op,
}
use wxcc.Types.Check.{TypeException, too_types, func_need_func, check}
use wxcc.Types.Check.Accepts.{Gives, IsFormed, Accepts, check-Accepts}
use wxcc.Types.Check.Sticks.{check-sticks}
use wxcc.Types.Operands.{binary_op-int}

abbrev parameter : CType → CType → CType
parameter base rest = type to_funcpara base (para_list rest) 4 4 none

-- The type of a function with two parameters.
abbrev function : CType → CType → CType
function first second =
    type to_function int_type (para_list (parameter first (parameter second null_type))) 0 4 none

abbrev plain_function : CType
plain_function = function int_type char_type

plain_function-IsFormed : IsFormed plain_function
plain_function-IsFormed = ((λ _. ((λ h. cc), tt)), (λ h. absurd (cc)))

check-Accepts_example : Gives (check none plain_function) (Accepts plain_function)
check-Accepts_example = check-Accepts plain_function plain_function-IsFormed

-- A function is refused as the second parameter, and not as the first.
second_function_run : check none (function int_type plain_function) ≡ ok (some func_need_func)
unfolding check
second_function_run = refl

first_function_run : check none (function plain_function int_type) ≡ ok none
unfolding check
first_function_run = refl

int_after_error : check (some too_types) int_type ≡ ok (some too_types)
unfolding check
int_after_error = refl

int-IsFormed : IsFormed int_type
int-IsFormed = ((λ h. absurd (cc)), (λ h. absurd (cc)))

check-sticks_example : (r : TypeException) × (check (some too_types) int_type ≡ ok r) × (r ≢ none)
check-sticks_example = check-sticks too_types int_type int-IsFormed

abbrev const_char : CType
const_char = plain_type to_const char_type

const_operand : binary_op const_char int_type ≡ fault null_dereference
const_operand = binary_op-int const_char int_type (λ h. cc)

array_run :
    make_type to_array int_type 10 null_type 4 4 none
    ≡ ok (type to_array int_type (elements 10) 40 4 none)
unfolding make_type
array_run = refl
