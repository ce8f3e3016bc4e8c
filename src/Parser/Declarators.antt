-- ===== src/Parser/Declarators.antt =====
-- lib/parser/decl.cc, lib/parser/parser.cc: type specifiers, declarators and lists of parameters.
--
-- A pointer that is looked up as a keyword is taken to be the code of none.
pub mod Freed
pub mod Specifiers
use wxcc.Base.{
  ℕ, zero, suc, ◌+◌, ◌%◌, ◌^◌, Bool, true, false, ◌||◌, Option, none, some, [], Bytes,
  if◌then◌else◌,
}
use wxcc.Outcome.{Outcome, ok, fault, null_dereference, assertion, out_of_fuel, ◌>>=◌}
use wxcc.Parser.{
  Slot, held, cleared, no_token, copy_token, read_int, Window, next, push_back, match_op,
  match_qualifier, type_qualifier_list, pointer,
}
use wxcc.Parser.Keywords.{is_base_type, key2to}
use wxcc.Token.{
  Keyword, key_kvoid, Op, op_leftbrack, op_rightbrack, op_leftsqbrac, op_rightsqbrac, op_comma,
  Number, int_con, TokenValue, key, ident, number, Token,
}
use wxcc.Types.{
  TypeOp, to_array, to_function, to_funcpara, to_unset, ◌is◌, CType, null_type, type, Extra,
  para_list, no_limit, get_tyop, make_type, int_type, void_type,
}
use wxcc.Types.Check.{TypeException, check}

-- The parser with the static exception of `Type::check` and the number of errors reported.
pub record Parsing : Type 0 where
  pub window : Window
  pub te : TypeException
  pub error_count : ℕ

abbrev pub to_next : Parsing → Outcome Parsing
to_next p = next p.window >>= λ w. ok (record p { window = w })

abbrev pub to_back : Parsing → Outcome Parsing
to_back p = push_back p.window >>= λ w. ok (record p { window = w })

abbrev pub parser_error : Parsing → Parsing
parser_error p = record p { error_count = p.error_count + 1 }

-- `tools::isBaseType` on a token.
abbrev pub base_type_value : TokenValue → Bool
base_type_value (key k) = is_base_type k
base_type_value _ = false

unfoldable pub base_type_slot : Slot → Bool
unfolding is_base_type
base_type_slot (held t) = base_type_value t.token_value
base_type_slot _ = false

abbrev pub op_or_unset : Option TypeOp → TypeOp
op_or_unset (some o) = o
op_or_unset none = to_unset

-- `key2to[cur.token_value.keyword]`; the value stays when a token is cleared.
abbrev pub looked_up_value : TokenValue → TypeOp
looked_up_value (key k) = op_or_unset (key2to k)
looked_up_value _ = to_unset

unfoldable pub looked_up : Slot → TypeOp
unfolding key2to
looked_up (held t) = looked_up_value t.token_value
looked_up (cleared t) = looked_up_value t.token_value
looked_up no_token = to_unset

-- `new Type(op, base)`
abbrev pub new_type : TypeOp → CType → Outcome CType
new_type o base = make_type o base 0 null_type 4 4 none

-- `Parser::c_parser_declaration_type_specifiers_opt`
unfoldable pub type_specifiers_opt : ℕ → CType → Parsing → Outcome (CType × Parsing)
unfolding base_type_slot looked_up make_type
type_specifiers_opt zero ty p = fault out_of_fuel
type_specifiers_opt (suc fuel) ty p = do
  p₁ ← to_next p
  if base_type_slot p₁.window.cur
      then (do
        (next_type, p₂) ← type_specifiers_opt fuel ty p₁
        made ← new_type (looked_up p₂.window.cur) next_type
        ok (made, p₂))
      else (do p₂ ← to_back p₁; ok (ty, p₂))

-- What is done with the exception of a type.
abbrev pub checked_type : TypeException → CType → Parsing → CType × Parsing
checked_type none made p = (made, record p { te = none })
checked_type (some e) made p = (int_type, parser_error (record p { te = some e }))

-- `Parser::c_parser_declaration_type_specifiers`; it starts with the current token.
unfoldable pub type_specifiers : ℕ → CType → Parsing → Outcome (CType × Parsing)
unfolding type_specifiers_opt base_type_slot looked_up make_type check
type_specifiers fuel ty p = copy_token p.window.cur >>= λ to.
    let first = looked_up p.window.cur in
    let specified = type_specifiers_opt fuel ty p >>= λ r.
    new_type first r.0 >>= λ made. check r.1.te made >>= λ te. ok (checked_type te made r.1) in
    if base_type_slot p.window.cur then specified else ok (int_type, parser_error p)

-- `Parser::c_parser_declaration_specifiers`
unfoldable pub declaration_specifiers : ℕ → CType → Parsing → Outcome (CType × Parsing)
unfolding type_specifiers type_qualifier_list
declaration_specifiers fuel ty p = do
  (ty', w) ← type_qualifier_list fuel ty p.window
  type_specifiers fuel ty' (record p { window = w })

-- `Parser::need`, for an operator.
unfoldable pub need_op : Op → Parsing → Outcome (Bool × Parsing)
need_op o p = do
  p₁ ← to_next p
  if match_op p₁.window.cur o
      then ok (true, p₁)
      else (do p₂ ← to_back (parser_error p₁); ok (false, p₂))

-- `tools::is` for an integer constant, and `tools::isID`.
abbrev pub is_int : TokenValue → Bool
is_int (number (int_con number_type i_value)) = true
is_int _ = false

unfoldable pub is_int_slot : Slot → Bool
is_int_slot (held t) = is_int t.token_value
is_int_slot _ = false

abbrev pub is_id : TokenValue → Bool
is_id (ident x) = true
is_id _ = false

abbrev pub is_id_slot : Slot → Bool
is_id_slot (held t) = is_id t.token_value
is_id_slot _ = false

-- `Parser::need`, for an integer constant.
unfoldable pub need_int : Parsing → Outcome (Bool × Parsing)
unfolding is_int_slot
need_int p = do
  p₁ ← to_next p
  if is_int_slot p₁.window.cur
      then ok (true, p₁)
      else (do p₂ ← to_back (parser_error p₁); ok (false, p₂))

-- The name of a token that was copied.
abbrev pub name_of : TokenValue → Bytes
name_of (ident x) = x
name_of _ = []

abbrev pub void_value : TokenValue → Bool
void_value (key key_kvoid) = true
void_value _ = false

abbrev pub void_slot : Slot → Bool
void_slot (held t) = void_value t.token_value
void_slot _ = false

-- `ST`: a symbol, by its name, and its type.
pub record St : Type 0 where
  pub first : Bytes
  pub second : CType

-- `retTY = new Type(TO_ARRAY, ty, arrSize)`; `arrSize` is an `int`.
unfoldable pub array_of : ℕ → CType → Outcome CType
unfolding make_type
array_of n ty = make_type to_array ty (n % 2 ^ 32) null_type 4 4 none

-- `Type::nextPara` on the first parameter: it forgets the one set before.
abbrev pub next_para : CType → CType → Outcome CType
next_para null_type ty = ok ty
next_para (type o base u size align sym) null_type = fault null_dereference
next_para (type o base u size align sym) (type o' base' u' size' align' sym') =
    if o' is to_funcpara
    then ok (type o base (para_list (type o' base' u' size' align' sym')) size align sym)
    else fault assertion

-- A parameter is put behind the first one, or is the first one.
unfoldable pub add_para : Option St → CType → Outcome CType
unfolding make_type
add_para none list = ok list
add_para (some st) list =
    make_type to_funcpara st.second 0 list 4 4 (some st.first) >>= next_para list

-- Behind the inner declarator in brackets: its type's operator is put on the outer type.
abbrev pub retyped : Option St → CType → Outcome (Option St)
retyped none ty = fault null_dereference
retyped (some st) ty = do
  o ← get_tyop st.second
  made ← new_type o ty
  ok (some (record st { second = made }))

unfoldable mutual
  -- `Parser::c_parser_declarator`
  pub declarator : ℕ → CType → Parsing → Outcome (Option St × Parsing)
  declarator zero ty p = fault out_of_fuel
  declarator (suc fuel) ty p = do
    (ty', w) ← pointer fuel ty p.window
    direct_declarator fuel ty' (record p { window = w })

  -- `Parser::c_parser_direct_declarator`; its last branch cannot be reached.
  pub direct_declarator : ℕ → CType → Parsing → Outcome (Option St × Parsing)
  direct_declarator zero ty p = fault out_of_fuel
  direct_declarator (suc fuel) ty p = do
    p₁ ← to_next p
    by_name fuel (is_id_slot p₁.window.cur) ty p₁

  -- Its branches.
  pub by_name : ℕ → Bool → CType → Parsing → Outcome (Option St × Parsing)
  by_name zero id ty p = fault out_of_fuel
  by_name (suc fuel) true ty p = do
    v ← copy_token p.window.cur
    (ty', p₁) ← direct_declarator_opt fuel ty p
    ok (some (record { first = name_of v; second = ty' }), p₁)
  by_name (suc fuel) false ty p =
      if match_op p.window.cur op_leftbrack then bracketed fuel ty p else ok (none, p)

  -- A declarator in brackets.
  pub bracketed : ℕ → CType → Parsing → Outcome (Option St × Parsing)
  bracketed zero ty p = fault out_of_fuel
  bracketed (suc fuel) ty p = do
    (st, p₁) ← declarator fuel ty p
    (_, p₂) ← need_op op_rightbrack p₁
    (ty', p₃) ← direct_declarator_opt fuel ty p₂
    st' ← retyped st ty'
    ok (st', p₃)

  -- `Parser::c_parser_direct_declatator_opt`
  pub direct_declarator_opt : ℕ → CType → Parsing → Outcome (CType × Parsing)
  direct_declarator_opt zero ty p = fault out_of_fuel
  direct_declarator_opt (suc fuel) ty p = do
    p₁ ← to_next p
    if match_op p₁.window.cur op_leftsqbrac
        then (do
          (found, p₂) ← need_int p₁
          ty' ← if found then (do n ← read_int p₂.window.cur; array_of n ty) else ok ty
          (_, p₃) ← need_op op_rightsqbrac p₂
          direct_declarator_opt fuel ty' p₃)
        else if match_op p₁.window.cur op_leftbrack
        then (do
          (list, p₂) ← parameter_type_list fuel p₁
          made ← make_type to_function ty 0 list no_limit 4 none
          ok (made, p₂))
        else (do p₂ ← to_back p₁; ok (ty, p₂))

  -- `Parser::c_parser_parameter_type_list`
  pub parameter_type_list : ℕ → Parsing → Outcome (CType × Parsing)
  parameter_type_list zero p = fault out_of_fuel
  parameter_type_list (suc fuel) p = do
    p₁ ← to_next p
    if match_op p₁.window.cur op_rightbrack
        then ok (void_type, p₁)
        else if void_slot p₁.window.cur
        then (do (_, p₂) ← need_op op_rightbrack p₁; ok (void_type, p₂))
        else (do p₂ ← to_back p₁; parameters fuel null_type p₂)

  -- The loop at `paraList`.
  pub parameters : ℕ → CType → Parsing → Outcome (CType × Parsing)
  parameters zero list p = fault out_of_fuel
  parameters (suc fuel) list p = do
    (ty, p₁) ← declaration_specifiers fuel null_type p
    (st, p₂) ← declarator fuel ty p₁
    list' ← add_para st list
    p₃ ← to_next p₂
    if match_op p₃.window.cur op_comma
        then parameters fuel list' p₃
        else if match_qualifier p₃.window.cur || base_type_slot p₃.window.cur
        then ok (list', parser_error p₃)
        else ok (list', p₃)
