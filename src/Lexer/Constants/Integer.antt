-- ===== src/Lexer/Constants/Integer.antt =====
-- lib/lex/lex.cc: `Lex::number` on an integer constant.
use wxcc.Base.{
  ℕ, ◌-◌, ◌<◌, ◌≤◌, ◌≢◌, true, Option, some, [], ◌∷◌, ◌++◌, Bytes, length, ◌≡◌, refl, subst, ap,
  arith, isdigit, isalnum, get_or, leb, ◌^◌, ◌+◌, ◌∙◌, if◌then◌else◌,
}
use wxcc.Input.{MemorySource, position}
use wxcc.Input.View.{Views}
use wxcc.Lexer.{Run, ok, back, tmpbuffer_size}
use wxcc.Lexer.Constants.{
  goes_on_number, Lexed, parsed_int, radix_of, new_number, scan_number, parse_radix,
}
use wxcc.Lexer.Constants.Reach.{AllNumber, EndsNumber, get_buffer_until_sp-BufferIs}
use wxcc.Lexer.Numbers.{nt_si, hex_digit, oct_digit, sign_extend}
use wxcc.Lexer.Numbers.Decimal.{dec_digit, try_parse_dec_number-value}
use wxcc.Lexer.Numbers.Floats.{CLibrary}
use native.Mathlib.Nat.{pow-zero}
use wxcc.Lexer.Numbers.Digits.{
  digit, read-AllDigits, read-value, dec_agrees, oct_agrees, hex_agrees,
}
use wxcc.Lexer.Numbers.Positional.{value, AllDigits}
use wxcc.Lexer.Numbers.Value.{try_parse_hex_number-value, try_parse_oct_number-value}
use wxcc.Lexer.Words.{Got, back-Views}
use wxcc.Token.{Number, int_con, number}

-- The integer constants of C, without suffixes: the value, if the text is one that fits.
pub data Integer : Type 0 where
  decimal octal hexadecimal : Bytes → Integer

abbrev pub spelling : Integer → Bytes
spelling (decimal ds) = ds
spelling (octal ds) = b'0' ∷ ds
spelling (hexadecimal ds) = b'0' ∷ b'x' ∷ ds

-- A hexadecimal constant is an `int`: from 2 ^ 31 on it stands for the negative value of its bits,
-- of which the 64 bits are taken.
abbrev pub as_int : ℕ → ℕ
as_int n = if leb (2 ^ 31) n then 2 ^ 64 - 2 ^ 32 + n else n

-- The value of a constant by the digits of the language.
abbrev pub integer_value : Integer → ℕ
integer_value (decimal ds) = value digit 10 ds
integer_value (octal ds) = value digit 8 ds
integer_value (hexadecimal ds) = as_int (value digit 16 ds)

-- Its value by the digits of the code.
abbrev read_value : Integer → ℕ
read_value (decimal ds) = value dec_digit 10 ds
read_value (octal ds) = value oct_digit 8 (b'0' ∷ ds)
read_value (hexadecimal ds) = sign_extend (value hex_digit 16 ds)

abbrev pub LeadingDigit : Bytes → Type 0
LeadingDigit [] = ⊥
LeadingDigit (c ∷ []) = Unit
LeadingDigit (c ∷ d ∷ cs) = c ≢ b'0'

-- Up to sixteen decimal digits with no zero in front, up to nine octal ones behind a zero, and up
-- to eight hexadecimal ones.
abbrev pub Fits : Integer → Type 0
Fits (decimal ds) = LeadingDigit ds × AllDigits digit 10 ds × (length ds ≤ 16)
Fits (octal ds) = (ds ≢ []) × AllDigits digit 8 ds × (length ds ≤ 9)
Fits (hexadecimal ds) = AllDigits digit 16 ds × (length ds ≤ 8)

abbrev pub FitsCode : Integer → Type 0
FitsCode (decimal ds) = LeadingDigit ds × AllDigits dec_digit 10 ds × (length ds ≤ 16)
FitsCode (octal ds) = (ds ≢ []) × AllDigits oct_digit 8 ds × (length ds ≤ 9)
FitsCode (hexadecimal ds) = AllDigits hex_digit 16 ds × (length ds ≤ 8)

pub Fits-FitsCode : (n : Integer) → Fits n → FitsCode n
Fits-FitsCode (decimal ds) (l, a, h) = (l, read-AllDigits dec_digit 10 dec_agrees ds a, h)
Fits-FitsCode (octal ds) (n, a, h) = (n, read-AllDigits oct_digit 8 oct_agrees ds a, h)
Fits-FitsCode (hexadecimal ds) (a, h) = (read-AllDigits hex_digit 16 hex_agrees ds a, h)

dec-goes_on_number : (c d : ℕ) → dec_digit c ≡ some d → goes_on_number c ≡ true
unfolding dec_digit goes_on_number isalnum isdigit
dec-goes_on_number c d h = ground arith

oct-goes_on_number : (c d : ℕ) → oct_digit c ≡ some d → d < 8 → goes_on_number c ≡ true
unfolding oct_digit goes_on_number isalnum isdigit
oct-goes_on_number c d h l = ground arith

hex-goes_on_number : (c d : ℕ) → hex_digit c ≡ some d → goes_on_number c ≡ true
unfolding hex_digit goes_on_number isalnum isdigit
hex-goes_on_number c d h = ground arith

digits-AllNumber :
    (digit : ℕ → Option ℕ) (base : ℕ)
    → ((c d : ℕ) → digit c ≡ some d → d < base → goes_on_number c ≡ true)
    → (ds : Bytes) → AllDigits digit base ds
    → AllNumber ds
digits-AllNumber digit base g [] a = tt
digits-AllNumber digit base g (c ∷ ds) ((d, e, l), a) =
    (g c d e l, digits-AllNumber digit base g ds a)

number_byte : goes_on_number b'0' ≡ true
unfolding goes_on_number isalnum isdigit
number_byte = refl

x_byte : goes_on_number b'x' ≡ true
unfolding goes_on_number isalnum isdigit
x_byte = refl

spelling-AllNumber : (n : Integer) → FitsCode n → AllNumber (spelling n)
spelling-AllNumber (decimal ds) f =
    digits-AllNumber dec_digit 10 (λ c d e l. dec-goes_on_number c d e) ds f.1
spelling-AllNumber (octal ds) f =
    (number_byte, digits-AllNumber oct_digit 8 oct-goes_on_number ds f.1)
spelling-AllNumber (hexadecimal ds) f = (
  number_byte,
  (x_byte, digits-AllNumber hex_digit 16 (λ c d e l. hex-goes_on_number c d e) ds f.0),
)

abbrev pub head_or : Bytes → ℕ
head_or xs = get_or xs 0 0

dec-radix : (c d e : ℕ) → dec_digit c ≡ some e → c ≢ b'0' → radix_of c d ≡ 10
unfolding radix_of
dec-radix c d e h nz = ground arith

pub alone-radix : (c : ℕ) → radix_of c 0 ≡ 10
unfolding radix_of isdigit
alone-radix c = ground arith

oct-radix : (c d : ℕ) → oct_digit c ≡ some d → d < 8 → radix_of b'0' c ≡ 8
unfolding radix_of isdigit oct_digit
oct-radix c d h l = ground arith

zero_digit : oct_digit b'0' ≡ some 0
unfolding oct_digit
zero_digit = refl

hex-radix : radix_of b'0' b'x' ≡ 16
unfolding radix_of isdigit
hex-radix = refl

-- The number that the code makes of the text.
parsed :
    (lib : CLibrary) (n : Integer)
    → FitsCode n
    → parse_radix lib (spelling n) (radix_of (get_or (spelling n) 0 0) (get_or (spelling n) 1 0))
      ≡ ok (record { number = int_con nt_si (read_value n); errors = [] })
unfolding parse_radix
parsed lib (decimal []) f = absurd f.0
parsed lib (decimal (c ∷ [])) f =
    rw (alone-radix c, try_parse_dec_number-value (c ∷ []) f.1 f.2) refl
parsed lib (decimal (c ∷ d ∷ ds)) f =
    rw (dec-radix c d f.1.0.0 f.1.0.1 f.0, try_parse_dec_number-value (c ∷ d ∷ ds) f.1 f.2) refl
parsed lib (octal []) f = absurd (f.0 refl)
parsed lib (octal (c ∷ ds)) f =
    let (d, e, l) = f.1.0 in
    rw (oct-radix c d e l) (
      ap (λ i. ok (parsed_int i))
        (try_parse_oct_number-value (b'0' ∷ c ∷ ds) ((0, zero_digit, omega arith), f.1)
          (omega arith)))
parsed lib (hexadecimal ds) f =
    rw hex-radix (ap (λ i. ok (parsed_int i)) (try_parse_hex_number-value ds f.0 f.1))

-- The number's token was returned without an error, and `rest` is left to read.
abbrev pub NumberIs : Bytes → Bytes → Number → Run Lexed → Type 0
NumberIs read rest n r =
    (s : MemorySource) × (r
      ≡ ok (record {
        token = record { token_value = number n; token_pos = position s };
        source = s;
        errors = [];
      }))
    × Views read rest s

pub new_number-parsed :
    (lib : CLibrary) (text : Bytes) (radix : ℕ) (n : Number) (s : MemorySource)
    → parse_radix lib text radix ≡ ok (record { number = n; errors = [] })
    → new_number lib text radix s
      ≡ ok (record {
        token = record { token_value = number n; token_pos = position s };
        source = s;
        errors = [];
      })
unfolding new_number
new_number-parsed lib text radix n s e = rw e refl

pub scan_from :
    (lib : CLibrary) (fuel : ℕ) (read rest : Bytes) (c : ℕ) (w : Bytes) (m : Number)
    (s : MemorySource)
    → AllNumber (c ∷ w)
    → EndsNumber rest
    → Got read (c ∷ (w ++ rest)) c s
    → parse_radix lib (c ∷ w) (radix_of c (get_or (c ∷ w) 1 0))
      ≡ ok (record { number = m; errors = [] })
    → length (c ∷ w) < tmpbuffer_size
    → length w < fuel
    → NumberIs (read ++ c ∷ w) rest m (scan_number lib fuel c s)
unfolding scan_number
scan_from lib fuel read rest c w m s a e g p room h =
    let (s', r, v) =
      get_buffer_until_sp-BufferIs fuel read w rest c (back s) g.1 a.1 e
        (back-Views c (w ++ rest) c s g) room h in
    (s', rw r (new_number-parsed lib (c ∷ w) (radix_of c (get_or (c ∷ w) 1 0)) m s' p), v)

short : (n : Integer) {k : ℕ} → FitsCode n → length (spelling n) ≡ k → k < tmpbuffer_size
short (decimal ds) f e = omega (arith, f.2)
short (octal ds) f e = omega (arith, f.2)
short (hexadecimal ds) f e = omega (arith, f.1)

zero_read : (ds : Bytes) → value oct_digit 8 (b'0' ∷ ds) ≡ value oct_digit 8 ds
unfolding value oct_digit
zero_read ds = omega arith

sign_extend-as_int : (n : ℕ) → sign_extend n ≡ as_int n
sign_extend-as_int n = ground arith

-- The code reads the constant's value.
read_value_lem : (n : Integer) → Fits n → read_value n ≡ integer_value n
read_value_lem (decimal ds) (l, a, h) = read-value dec_digit 10 dec_agrees ds a
read_value_lem (octal ds) (n, a, h) = zero_read ds ∙ read-value oct_digit 8 oct_agrees ds a
read_value_lem (hexadecimal ds) (a, h) =
    ap sign_extend (read-value hex_digit 16 hex_agrees ds a)
    ∙ sign_extend-as_int (value digit 16 ds)

-- `number`, with the first byte of an integer constant just got that fits and that a byte ends: the
-- token has the constant's value by the digits of C, a hexadecimal one from 2 ^ 31 on as a negative
-- `int`, and the type `signed int`, no error is reported, and what follows the constant is left to
-- read. Up to 16 decimal digits with no zero in front, 9 octal ones behind a zero, and 8 hexadecimal
-- ones fit.
-- The input is shorter than 2 ^ 31 - 1 bytes.
pub scan_number-NumberIs :
    (lib : CLibrary) (fuel : ℕ) (read rest : Bytes) (n : Integer) (c : ℕ) (w : Bytes)
    (s : MemorySource)
    → Fits n
    → spelling n ≡ c ∷ w
    → EndsNumber rest
    → Got read (c ∷ (w ++ rest)) c s
    → length w < fuel
    → NumberIs (read ++ c ∷ w) rest (int_con nt_si (integer_value n)) (scan_number lib fuel c s)
scan_number-NumberIs lib fuel read rest n c w s f e ends g h =
    let code = Fits-FitsCode n f in
    scan_from lib fuel read rest c w (int_con nt_si (integer_value n)) s
      (subst AllNumber e (spelling-AllNumber n code)) ends g
      (subst
        (λ t.
          parse_radix lib t (radix_of (get_or t 0 0) (get_or t 1 0))
          ≡ ok (record { number = int_con nt_si (integer_value n); errors = [] }))
        e
        (parsed lib n code
          ∙ ap (λ v. ok (record { number = int_con nt_si v; errors = [] })) (read_value_lem n f)))
      (short n code (ap length e)) h

pub digit_of : (c : ℕ) → isdigit c ≡ true → (dec_digit c ≡ some (c - b'0')) × (c - b'0' < 10)
unfolding isdigit dec_digit
digit_of c h = ground arith

dec_value : (c : ℕ) → isdigit c ≡ true → value dec_digit 10 (c ∷ []) ≡ c - b'0'
unfolding value
dec_value c h = rw ((digit_of c h).0, pow-zero 10) (omega arith)

-- A digit alone.
pub parsed-alone :
    (lib : CLibrary) (c : ℕ)
    → isdigit c ≡ true
    → parse_radix lib (c ∷ []) (radix_of c 0)
      ≡ ok (record { number = int_con nt_si (c - b'0'); errors = [] })
parsed-alone lib c h =
    let (e, l) = digit_of c h in
    parsed lib (decimal (c ∷ [])) (tt, ((c - b'0', e, l), tt), omega arith)
    ∙ ap (λ v. ok (record { number = int_con nt_si v; errors = [] })) (dec_value c h)
