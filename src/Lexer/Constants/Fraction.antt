-- ===== src/Lexer/Constants/Fraction.antt =====
-- lib/lex/lex.cc: `Lex::number` on a floating constant.
use wxcc.Base.{
  ℕ, ◌+◌, ◌-◌, ◌*◌, ◌%◌, ◌^◌, ◌<◌, ◌≤◌, ◌≢◌, true, false, ◌||◌, [], ◌∷◌, ◌++◌, Bytes, length,
  get_or, ◌≡◌, refl, ap, ◌∙◌, arith, ◌==◌, isdigit, isalnum, append-nil,
}
use wxcc.Input.{MemorySource}
use wxcc.Lexer.{ok, tmpbuffer_size}
use wxcc.Lexer.Constants.{goes_on_number, radix_of, parse_radix, scan_number}
use wxcc.Lexer.Constants.Integer.{NumberIs, scan_from, digit_of}
use wxcc.Lexer.Constants.Reach.{AllNumber, EndsNumber}
use wxcc.Lexer.Numbers.{Scan, start}
use wxcc.Lexer.Numbers.Decimal.{
  floats, dec_round, dec_switch, dec_end, unless_done, dec_loop, dec_digit, dec_round-digit,
  try_parse_dec_number,
}
use wxcc.Lexer.Numbers.Floats.{
  CLibrary, FloatScan, float_start, float_switch, float_loop, until_suffix, float_end, nt_fl, nt_db,
  nt_ld, try_parse_float_number,
}
use wxcc.Lexer.Words.{Got}
use wxcc.Token.{strtod, float_con}

abbrev pub AllDigit : Bytes → Type 0
AllDigit [] = Unit
AllDigit (c ∷ cs) = (isdigit c ≡ true) × AllDigit cs

-- The suffixes of floating constants.
pub data Suffix : Type 0 where
  no_suffix float_suffix long_suffix : Suffix

abbrev pub suffix_bytes : Suffix → Bytes
suffix_bytes no_suffix = []
suffix_bytes float_suffix = b'f' ∷ []
suffix_bytes long_suffix = b'l' ∷ []

abbrev pub suffix_type : Suffix → ℕ
suffix_type no_suffix = nt_db
suffix_type float_suffix = nt_fl
suffix_type long_suffix = nt_ld

-- The C library finds the number in range, also as a `float` where it is one.
abbrev pub InRange : CLibrary → Suffix → Bytes → Type 0
InRange lib float_suffix text = (lib.erange text ≡ false) × (lib.beyond_float text ≡ false)
InRange lib _ text = lib.erange text ≡ false

-- Digits, a point, and the rest.
abbrev pub fraction : Bytes → Bytes → Suffix → Bytes
fraction ds es x = ds ++ b'.' ∷ (es ++ suffix_bytes x)

point_round : (s : Scan) → dec_round b'.' s ≡ floats s
unfolding dec_round dec_switch dec_end dec_digit
point_round s = refl

-- The decimal loop hands the buffer on at the point.
dec_loop-floats :
    (ds w : Bytes) (s : Scan)
    → AllDigit ds
    → s.finished ≡ false
    → s.times + length ds ≤ 16
    → (s' : Scan) × (dec_loop (ds ++ b'.' ∷ w) s ≡ floats s') × (s'.errors ≡ s.errors)
unfolding dec_loop unless_done
dec_loop-floats [] w s a f h = (s, rw (point_round s) refl, refl)
dec_loop-floats (c ∷ ds) w s (d, a) f h =
    let (e, l) = digit_of c d in
    let t = record s {
      result = (s.result * 10 + (c - b'0')) % 2 ^ 64;
      times = s.times + 1;
      finished = false;
    } in
    let (s', g, same) = dec_loop-floats ds w t a refl (omega arith) in
    (s', rw (dec_round-digit c (c - b'0') s e (omega arith), f) g, same)

float_switch-digit : (c : ℕ) (s : FloatScan) → isdigit c ≡ true → float_switch c s ≡ s
unfolding float_switch isdigit
float_switch-digit c s h = ground arith

float_loop-digits :
    (ds w : Bytes) (s : FloatScan)
    → AllDigit ds
    → s.failed ≡ false
    → float_loop (ds ++ w) s ≡ float_loop w s
unfolding float_loop
float_loop-digits [] w s a f = refl
float_loop-digits (c ∷ ds) w s (d, a) f =
    rw (float_switch-digit c s d, f) (float_loop-digits ds w (record s { failed = false }) a refl)

-- What is counted behind the point.
abbrev pointed : FloatScan
pointed = record float_start { reach_p = 1 }

abbrev counted_suffix : Suffix → FloatScan
counted_suffix no_suffix = pointed
counted_suffix float_suffix = record pointed { reach_f = 1 }
counted_suffix long_suffix = record pointed { reach_l = 1 }

float_loop-suffix : (x : Suffix) → float_loop (suffix_bytes x) pointed ≡ counted_suffix x
unfolding float_loop float_switch
float_loop-suffix no_suffix = refl
float_loop-suffix float_suffix = refl
float_loop-suffix long_suffix = refl

float_loop-point : (w : Bytes) → float_loop (b'.' ∷ w) float_start ≡ float_loop w pointed
unfolding float_loop float_switch
float_loop-point w = refl

keeps : (c : ℕ) → isdigit c ≡ true → (c == b'f' || c == b'F' || c == b'l' || c == b'L') ≡ false
unfolding isdigit
keeps c h = ground arith

until_suffix-digits : (ds w : Bytes) → AllDigit ds → until_suffix (ds ++ w) ≡ ds ++ until_suffix w
unfolding until_suffix
until_suffix-digits [] w a = refl
until_suffix-digits (c ∷ ds) w (d, a) = rw (keeps c d) (ap (◌∷◌ c) (until_suffix-digits ds w a))

until_suffix-bytes : (x : Suffix) → until_suffix (suffix_bytes x) ≡ []
unfolding until_suffix
until_suffix-bytes no_suffix = refl
until_suffix-bytes float_suffix = refl
until_suffix-bytes long_suffix = refl

until_suffix-point : (w : Bytes) → until_suffix (b'.' ∷ w) ≡ b'.' ∷ until_suffix w
unfolding until_suffix
until_suffix-point w = refl

float_end-value :
    (lib : CLibrary) (text : Bytes) (x : Suffix)
    → InRange lib x text
    → float_end lib text (counted_suffix x)
      ≡ record { d_value = strtod text; number_type = suffix_type x; errors = [] }
unfolding float_end
float_end-value lib text no_suffix h = rw h refl
float_end-value lib text float_suffix (h, b) = rw (h, b) refl
float_end-value lib text long_suffix h = rw h refl

-- `tryParseFloatNumber`: the value is what `strtod` makes of the text without its suffix.
try_parse_float_number-value :
    (lib : CLibrary) (ds es : Bytes) (x : Suffix)
    → AllDigit ds
    → AllDigit es
    → InRange lib x (ds ++ b'.' ∷ es)
    → try_parse_float_number lib (fraction ds es x)
      ≡ record { d_value = strtod (ds ++ b'.' ∷ es); number_type = suffix_type x; errors = [] }
unfolding try_parse_float_number
try_parse_float_number-value lib ds es x a b r =
    let loop : float_loop (fraction ds es x) float_start ≡ counted_suffix x =
      float_loop-digits ds (b'.' ∷ (es ++ suffix_bytes x)) float_start a refl
      ∙ float_loop-point (es ++ suffix_bytes x)
      ∙ float_loop-digits es (suffix_bytes x) pointed b refl
      ∙ float_loop-suffix x in
    let text : until_suffix (fraction ds es x) ≡ ds ++ b'.' ∷ es =
      until_suffix-digits ds (b'.' ∷ (es ++ suffix_bytes x)) a
      ∙ ap (◌++◌ ds) (
          until_suffix-point (es ++ suffix_bytes x)
          ∙ ap (◌∷◌ b'.') (
              until_suffix-digits es (suffix_bytes x) b
              ∙ ap (◌++◌ es) (until_suffix-bytes x)
              ∙ append-nil es)) in
    rw (loop, text) (float_end-value lib (ds ++ b'.' ∷ es) x r)

digit-goes_on_number : (c : ℕ) → isdigit c ≡ true → goes_on_number c ≡ true
unfolding goes_on_number isalnum isdigit
digit-goes_on_number c h = ground arith

digits-AllNumber : (ds w : Bytes) → AllDigit ds → AllNumber w → AllNumber (ds ++ w)
digits-AllNumber [] w a n = n
digits-AllNumber (c ∷ ds) w (d, a) n = (digit-goes_on_number c d, digits-AllNumber ds w a n)

suffix-AllNumber : (x : Suffix) → AllNumber (suffix_bytes x)
unfolding goes_on_number isalnum isdigit
suffix-AllNumber no_suffix = tt
suffix-AllNumber float_suffix = (refl, tt)
suffix-AllNumber long_suffix = (refl, tt)

point-goes_on_number : goes_on_number b'.' ≡ true
unfolding goes_on_number isalnum
point-goes_on_number = refl

-- The byte behind the first one does not make the number octal or hexadecimal.
abbrev pub OneZero : ℕ → Bytes → Type 0
OneZero c [] = Unit
OneZero c (d ∷ ds) = c ≢ b'0'

ten : (c d : ℕ) → c ≢ b'0' → radix_of c d ≡ 10
unfolding radix_of
ten c d h = ground arith

ten_point : (c : ℕ) → radix_of c b'.' ≡ 10
unfolding radix_of isdigit
ten_point c = ground arith

decimal_radix :
    (c : ℕ) (ds w : Bytes) → OneZero c ds → radix_of c (get_or (c ∷ (ds ++ b'.' ∷ w)) 1 0) ≡ 10
decimal_radix c [] w h = ten_point c
decimal_radix c (d ∷ ds) w h = ten c d h

parsed_fraction :
    (lib : CLibrary) (ds es : Bytes) (x : Suffix)
    → AllDigit ds
    → AllDigit es
    → length ds ≤ 16
    → InRange lib x (ds ++ b'.' ∷ es)
    → parse_radix lib (fraction ds es x) 10
      ≡ ok (record { number = float_con (suffix_type x) (strtod (ds ++ b'.' ∷ es)); errors = [] })
unfolding parse_radix try_parse_dec_number
parsed_fraction lib ds es x a b h r =
    let (s, e, clean) = dec_loop-floats ds (es ++ suffix_bytes x) start a refl (omega arith) in
    rw (e, clean, try_parse_float_number-value lib ds es x a b r) refl

-- `number`, with the first byte just got of digits, a point, digits and perhaps a suffix, and a byte
-- behind that ends them: the token has what `strtod` makes of the text without the suffix, the type
-- `double`, or `float` and `long double` by the suffix, and no error is reported, if the C library
-- finds the number in range. There are up to sixteen digits before the point, and no zero in front
-- of others; `tmpBuffer` has room for all.
-- The input is shorter than 2 ^ 31 - 1 bytes.
pub scan_number-fraction :
    (lib : CLibrary) (fuel c : ℕ) (ds es : Bytes) (x : Suffix) (read rest : Bytes)
    (s : MemorySource)
    → AllDigit (c ∷ ds)
    → AllDigit es
    → OneZero c ds
    → length (c ∷ ds) ≤ 16
    → InRange lib x (c ∷ (ds ++ b'.' ∷ es))
    → EndsNumber rest
    → Got read (fraction (c ∷ ds) es x ++ rest) c s
    → length (fraction (c ∷ ds) es x) < tmpbuffer_size
    → length (fraction (c ∷ ds) es x) < fuel
    → NumberIs
        (read ++ fraction (c ∷ ds) es x)
        rest
        (float_con (suffix_type x) (strtod (c ∷ (ds ++ b'.' ∷ es))))
        (scan_number lib fuel c s)
scan_number-fraction lib fuel c ds es x read rest s a b z l r ends g room h =
    let w = ds ++ b'.' ∷ (es ++ suffix_bytes x) in
    let bytes : AllNumber (c ∷ w) = (
      digit-goes_on_number c a.0,
      digits-AllNumber ds (b'.' ∷ (es ++ suffix_bytes x)) a.1
          (point-goes_on_number, digits-AllNumber es (suffix_bytes x) b (suffix-AllNumber x)),
    ) in
    scan_from lib fuel read rest c w (float_con (suffix_type x) (strtod (c ∷ (ds ++ b'.' ∷ es)))) s
      bytes ends g
      (rw (decimal_radix c ds (es ++ suffix_bytes x) z) (parsed_fraction lib (c ∷ ds) es x a b l r))
      room (omega arith)
