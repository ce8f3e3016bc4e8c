-- ===== src/Lexer/Numbers/Value.antt =====
-- lib/lex/lex.cc: the value of a hexadecimal or octal constant that is in bounds.
use wxcc.Base.{
  ℕ, ◌+◌, ◌*◌, ◌%◌, ◌^◌, ◌≤◌, ◌<◌, false, Option, some, [], ◌∷◌, Bytes, length, drop, ◌≡◌, refl, ap,
  ◌∙◌, arith,
}
use native.Mathlib.Nat.{pow-le-pow_right}
use wxcc.Lexer.Numbers.{
  nt_si, Scan, start, hex_digit, hex_switch, hex_count, hex_round, hex_loop, oct_digit, oct_switch,
  oct_count, oct_round, oct_loop, sign_extend, try_parse_hex_number, try_parse_oct_number,
}
use wxcc.Lexer.Numbers.Positional.{value, AllDigits, shifted, shifted-value, value-lt}

hex_round-digit :
    (c d : ℕ) (s : Scan)
    → hex_digit c ≡ some d
    → s.finished ≡ false
    → s.times < 8
    → hex_round c s ≡ record s { result = (s.result * 16 + d) % 2 ^ 32; times = s.times + 1 }
unfolding hex_round hex_switch hex_count
hex_round-digit c d s e f h = rw e (ground arith)

-- The loop on digits, with room for them.
hex_loop-digits :
    (cs : Bytes) (s : Scan)
    → AllDigits hex_digit 16 cs
    → s.finished ≡ false
    → s.times + length cs ≤ 8
    → hex_loop cs s
      ≡ record s { result = shifted hex_digit 16 (2 ^ 32) s.result cs; times = s.times + length cs }
unfolding hex_loop shifted
hex_loop-digits [] s a f h = ground arith
hex_loop-digits (c ∷ cs) s ((d, e, _), a) f h =
    let t = record s {
      result = (s.result * 16 + d) % 2 ^ 32;
      times = s.times + 1;
      finished = false;
    } in
    let ih = hex_loop-digits cs t a refl (omega arith) in
    rw (hex_round-digit c d s e f (omega arith), e, f)
      (ih
        ∙ ap (λ (n : ℕ). record t { result = shifted hex_digit 16 (2 ^ 32) t.result cs; times = n })
            (omega arith))

oct_round-digit :
    (c d : ℕ) (s : Scan)
    → oct_digit c ≡ some d
    → s.finished ≡ false
    → s.times < 10
    → oct_round c s ≡ record s { result = (s.result * 8 + d) % 2 ^ 32; times = s.times + 1 }
unfolding oct_round oct_switch oct_count
oct_round-digit c d s e f h = rw e (ground arith)

oct_loop-digits :
    (cs : Bytes) (s : Scan)
    → AllDigits oct_digit 8 cs
    → s.finished ≡ false
    → s.times + length cs ≤ 10
    → oct_loop cs s
      ≡ record s { result = shifted oct_digit 8 (2 ^ 32) s.result cs; times = s.times + length cs }
unfolding oct_loop shifted
oct_loop-digits [] s a f h = ground arith
oct_loop-digits (c ∷ cs) s ((d, e, _), a) f h =
    let t = record s {
      result = (s.result * 8 + d) % 2 ^ 32;
      times = s.times + 1;
      finished = false;
    } in
    let ih = oct_loop-digits cs t a refl (omega arith) in
    rw (oct_round-digit c d s e f (omega arith), e, f)
      (ih
        ∙ ap (λ (n : ℕ). record t { result = shifted oct_digit 8 (2 ^ 32) t.result cs; times = n })
            (omega arith))

-- Digits that are in bounds from the start on.
pub shifted_from_zero :
    (digit : ℕ → Option ℕ) (base n m : ℕ) (cs : Bytes)
    → 0 < base
    → base ^ n ≤ m
    → AllDigits digit base cs
    → length cs ≤ n
    → (shifted digit base m 0 cs ≡ value digit base cs) × (value digit base cs < base ^ n)
shifted_from_zero digit base n m cs b h a le =
    let small = value-lt digit base cs b a in
    let more = pow-le-pow_right b le in
    let fits : 0 * base ^ length cs + value digit base cs < m = omega (arith, small, more) in
    (shifted-value digit base cs m 0 b fits ∙ omega arith, omega (arith, small, more))

-- Up to eight hexadecimal digits are read in full: the constant is their value as a 32-bit `int`,
-- of type `signed int`, without an error.
pub try_parse_hex_number-value :
    (ds : Bytes)
    → AllDigits hex_digit 16 ds
    → length ds ≤ 8
    → try_parse_hex_number (b'0' ∷ b'x' ∷ ds)
      ≡ record { i_value = sign_extend (value hex_digit 16 ds); number_type = nt_si; errors = [] }
unfolding try_parse_hex_number drop
try_parse_hex_number-value ds a h =
    let read = (shifted_from_zero hex_digit 16 8 (2 ^ 32) ds (omega arith) (omega arith) a h).0 in
    rw (hex_loop-digits ds start a refl (omega arith), read) refl

-- Up to ten octal digits, none of them 8, are read in full: the constant is their value, of type
-- `signed int`, without an error.
pub try_parse_oct_number-value :
    (ds : Bytes)
    → AllDigits oct_digit 8 ds
    → length ds ≤ 10
    → try_parse_oct_number ds
      ≡ record { i_value = value oct_digit 8 ds; number_type = nt_si; errors = [] }
unfolding try_parse_oct_number
try_parse_oct_number-value ds a h =
    let (read, small) =
      shifted_from_zero oct_digit 8 10 (2 ^ 32) ds (omega arith) (omega arith) a h in
    let positive : sign_extend (value oct_digit 8 ds) ≡ value oct_digit 8 ds = ground arith in
    rw (oct_loop-digits ds start a refl (omega arith), read, positive) refl
