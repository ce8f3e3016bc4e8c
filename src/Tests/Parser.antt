-- ===== src/Tests/Parser.antt =====
-- lib/parser/decl.cc, lib/parser/parser.cc: runs and instances.
use wxcc.Base.{false, none, List, [], ◌∷◌, codes, pos, ◌≡◌, refl, arith}
use wxcc.Outcome.{ok, ◌>>=◌}
use wxcc.Token.{
  key_const, key_int, op_mult, op_alplus, op_leftsqbrac, op_rightsqbrac, op_semicolon, int_con, key,
  op, ident, number, TokenValue, Token,
}
use wxcc.Types.{null_type, to_const, to_pointer, int_type, plain_type}
use wxcc.Parser.{held, no_token, Window, next, push_back, pointer}
use wxcc.Parser.Declarators.{Parsing, parser_error, declaration_specifiers, declarator}
use wxcc.Parser.Declarators.Specifiers.{declarator_never_found}
use wxcc.Parser.Keywords.{is_base_type}
use wxcc.Parser.Levels.{op2l, takes_assignment, is_ok, op2l-op2fun}
use wxcc.Trees.Build.{op2fun}
use wxcc.Parser.Stream.{At, Before}
use wxcc.Parser.Pointers.{Level, AreLevels, pointer-pointed}

abbrev token : TokenValue → Token
token v = record { token_value = v; token_pos = record { line = 1; place = pos 0 } }

abbrev star : Token
star = token (op op_mult)

abbrev const : Token
const = token (key key_const)

abbrev name : Token
name = token (ident (codes "p"))

abbrev window : List Token → Window
window source = record {
  cur = no_token;
  pre = no_token;
  prepre = no_token;
  is_finish = false;
  source = source;
}

-- The levels of `* const *`.
abbrev two_levels : List Level
two_levels =
    record { star = star; qualifiers = const ∷ [] } ∷ record { star = star; qualifiers = [] } ∷ []

two_levels-AreLevels : AreLevels two_levels
two_levels-AreLevels = (refl, (refl, tt), (refl, tt, tt))

pointer-pointed_example :
    (w' : Window) × (pointer 4 int_type (window (star ∷ const ∷ star ∷ name ∷ []))
      ≡ ok (plain_type to_pointer (plain_type to_const (plain_type to_pointer int_type)), w'))
    × Before w' (name ∷ [])
pointer-pointed_example =
    pointer-pointed two_levels 4 int_type (window (star ∷ const ∷ star ∷ name ∷ [])) name []
      two_levels-AreLevels (refl, refl, refl) (record { none_before_that = refl; still = refl })
      (omega arith)

-- A qualifier in front of the stars ends the declarator's pointers.
const_first_run :
    pointer 4 int_type (window (const ∷ star ∷ name ∷ []))
    ≡ ok (
      plain_type to_const int_type,
      record (window (name ∷ [])) {
        pre = held star;
        cur = wxcc.Parser.cleared star;
        prepre = no_token;
      },
    )
unfolding pointer next push_back wxcc.Parser.type_qualifier_list
const_first_run = refl

-- The operand in front of `+=` is not assigned to.
op2l-op2fun_example :
    (is_ok (op2fun false op_alplus) ≡ false) × (takes_assignment op_alplus ≡ false)
unfolding op2l
op2l-op2fun_example = op2l-op2fun false op_alplus

abbrev parsing : List Token → Parsing
parsing source = record { window = window source; te = none; error_count = 0 }

abbrev int : Token
int = token (key key_int)

-- The tokens of `const int p ;`
abbrev constant_p : List Token
constant_p = const ∷ int ∷ name ∷ token (op op_semicolon) ∷ []

declarator_never_found_example :
    (w : Window) × ((declaration_specifiers 4 null_type (parsing constant_p) >>= λ r.
    declarator 4 r.0 r.1)
      ≡ ok (none, parser_error (record (parsing constant_p) { window = w })))
    × At w int (name ∷ token (op op_semicolon) ∷ [])
declarator_never_found_example =
    declarator_never_found (const ∷ []) 1 null_type (parsing constant_p) int
      (name ∷ token (op op_semicolon) ∷ []) (refl, tt) (unfold is_base_type in refl) refl
      (record { none_before_that = refl; still = refl }) (omega arith)

abbrev const_pointer : Level
const_pointer = record { star = star; qualifiers = const ∷ [] }

-- The tokens of `* const p ;`
abbrev pointer_to_p : List Token
pointer_to_p = star ∷ const ∷ name ∷ token (op op_semicolon) ∷ []

-- The tokens of `[2];`
abbrev two_elements : List Token
two_elements =
    token (op op_leftsqbrac)
    ∷ token (number (int_con 0x0011_0001 2))
    ∷ token (op op_rightsqbrac)
    ∷ token (op op_semicolon)
    ∷ []
