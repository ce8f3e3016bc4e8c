-- ===== src/Lexer/Numbers/Floats.antt =====
-- lib/lex/lex.cc: `Lex::tryParseFloatNumber`. What the C library says of a text is an argument.
use wxcc.Base.{
  ℕ, ◌+◌, Bool, true, false, ◌&&◌, ◌||◌, not, List, [], ◌∷◌, Bytes, isdigit, ltb, ◌==◌,
  if◌then◌else◌,
}
use wxcc.Lexer.{LexError, ill_flo_suffix, floating_overflow}
use wxcc.Token.{Floating, strtod, one_point_zero}

abbrev pub nt_fl : ℕ
nt_fl = 0x0011_1000

abbrev pub nt_db : ℕ
nt_db = 0x0011_1010

-- Whether `strtod` sets `errno` to `ERANGE`, and whether its result is no `float`.
pub record CLibrary : Type 0 where
  pub erange : Bytes → Bool
  pub beyond_float : Bytes → Bool

-- The counters of the loop; `failed` is a `goto parseFloatError`.
pub record FloatScan : Type 0 where
  pub reach_e : ℕ
  pub reach_p : ℕ
  pub reach_l : ℕ
  pub reach_f : ℕ
  pub failed : Bool

abbrev pub float_start : FloatScan
float_start = record { reach_e = 0; reach_p = 0; reach_l = 0; reach_f = 0; failed = false }

abbrev pub float_fail : FloatScan → FloatScan
float_fail s = record s { failed = true }

-- The `switch` of the loop.
unfoldable pub float_switch : ℕ → FloatScan → FloatScan
unfolding isdigit
float_switch c s =
    if c == b'.'
    then (if not (s.reach_e == 0) || not (s.reach_p == 0)
        then float_fail s
        else record s { reach_p = s.reach_p + 1 })
    else if c == b'E' || c == b'e'
    then (if not (s.reach_e == 0) then float_fail s else record s { reach_e = s.reach_e + 1 })
    else if c == b'f' || c == b'F'
    then record s { reach_f = s.reach_f + 1 }
    else if c == b'l' || c == b'L'
    then record s { reach_l = s.reach_l + 1 }
    else if isdigit c || c == b'+' || c == b'-'
    then s
    else float_fail s

unfoldable pub float_loop : Bytes → FloatScan → FloatScan
unfolding float_switch
float_loop [] s = s
float_loop (c ∷ cs) s =
    let t = float_switch c s in let rest = float_loop cs t in if t.failed then t else rest

-- A suffix is overwritten with NUL: the text that `strtod` sees ends in front of the first one.
unfoldable pub until_suffix : Bytes → Bytes
until_suffix [] = []
until_suffix (c ∷ cs) =
    let rest = until_suffix cs in
    if c == b'f' || c == b'F' || c == b'l' || c == b'L' then [] else c ∷ rest

pub record FloatConstant : Type 0 where
  pub d_value : Floating
  pub number_type : ℕ
  pub errors : List LexError

abbrev pub float_error : LexError → FloatConstant
float_error e = record { d_value = one_point_zero; number_type = nt_db; errors = e ∷ [] }

-- `NT_LD` is the mask `NT_LONG_DOUBLE_MASK`.
abbrev pub nt_ld : ℕ
nt_ld = 0x0011_1010

abbrev pub float_type : FloatScan → ℕ
float_type s = if s.reach_l == 1 then nt_ld else if s.reach_f == 1 then nt_fl else nt_db

unfoldable pub float_end : CLibrary → Bytes → FloatScan → FloatConstant
float_end lib text s =
    if s.failed
    then float_error ill_flo_suffix
    else if ltb 1 s.reach_p || ltb 1 s.reach_f || ltb 1 s.reach_l
    then float_error ill_flo_suffix
    else if lib.erange text
    then float_error floating_overflow
    else if s.reach_f == 1 && lib.beyond_float text
    then float_error floating_overflow
    else record { d_value = strtod text; number_type = float_type s; errors = [] }

-- `Lex::tryParseFloatNumber`
unfoldable pub try_parse_float_number : CLibrary → Bytes → FloatConstant
unfolding float_loop float_end until_suffix
try_parse_float_number lib buffer =
    float_end lib (until_suffix buffer) (float_loop buffer float_start)
