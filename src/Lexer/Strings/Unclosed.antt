-- ===== src/Lexer/Strings/Unclosed.antt =====
-- lib/lex/lex.cc: `Lex::parseString` on a text that the input ends in.
use wxcc.Base.{
  ℕ, zero, suc, ◌+◌, ◌<◌, ◌≤◌, true, false, [], ◌∷◌, ◌++◌, Bytes, length, ◌≡◌, refl, ap, sym, subst,
  ◌∙◌, ◌≢◌, arith, length-append, ◌%◌, List, ltb, not, ◌||◌, ◌&&◌, Bool, if◌then◌else◌, ◌==◌,
  ==_iff, Bool-cases, inl, inr,
}
use wxcc.Input.{advance, next, get_char}
use wxcc.Input.View.{Views, next_at_end, next-get_char, advance-Views}
use wxcc.Lexer.{Run, LexError, string_too_long, ok, out_of_fuel, ◌>>=◌, tmpbuffer_size}
use wxcc.Lexer.Strings.{
  Text, start_over, string_byte, unless_closed, string_loop, close_text, parse_string,
}
use wxcc.Lexer.Strings.Plain.{
  AllPlain, is_stored, plain_nonzero, plain_stored, string_byte-is_stored,
}

string_byte_full :
    (c : ℕ) (u : Text)
    → is_stored c ≡ true
    → u.length_count ≡ tmpbuffer_size
    → string_byte c u ≡ ok (false, start_over u)
unfolding string_byte
string_byte_full c u h n =
    let inner : (c == b'"') ≡ false = ground arith in
    let full : (u.length_count == tmpbuffer_size) ≡ true = ground arith in rw (inner, full) refl

-- The buffer holds no more than was counted, and that is not more than it has room for.
abbrev pub InRoom : Text → Type 0
InRoom u = (length u.buffer ≤ u.length_count) × (u.length_count ≤ tmpbuffer_size)

-- The loop goes on behind a byte that is stored, or starts over.
goes_on :
    (c : ℕ) (u : Text)
    → is_stored c ≡ true
    → InRoom u
    → (v : Text) × (string_byte c u ≡ ok (false, v)) × (v.source ≡ u.source) × InRoom v
goes_on c u h r = elim (Bool-cases (u.length_count == tmpbuffer_size)) [
  | inl e ↦
      let full = (==_iff u.length_count tmpbuffer_size).0 e in
      (start_over u, string_byte_full c u h full, refl, (omega arith, omega arith))
  | inr e ↦
      let less : u.length_count < tmpbuffer_size = ground arith in
      (
        record u { buffer = u.buffer ++ c ∷ []; length_count = u.length_count + 1 },
        string_byte-is_stored c u h less (omega arith),
        refl,
        (omega (arith, length-append {0} u.buffer (c ∷ [])), omega arith),
      )
]

pub string_loop_unclosed :
    (fuel : ℕ) (read w : Bytes) (u : Text)
    → AllPlain w
    → Views read w u.source
    → InRoom u
    → string_loop fuel u ≡ out_of_fuel
unfolding string_loop unless_closed
string_loop_unclosed zero read w u a v r = refl
string_loop_unclosed (suc fuel) read [] u a v r =
    let (t, e, same, r') = goes_on 0 u refl r in
    rw ((next_at_end u.source v.rest_is).0, e)
      (string_loop_unclosed fuel read [] t tt (rw same v) r')
string_loop_unclosed (suc fuel) read (c ∷ w) u a v r =
    let (t, e, same, r') =
      goes_on c (record u { source = advance c u.source }) (plain_stored c a.0) r in
    rw (next-get_char u.source v.rest_is (plain_nonzero c a.0), e)
      (string_loop_unclosed fuel (read ++ c ∷ []) w t a.1 (rw same (advance-Views u.source v)) r')

pub parse_string_unclosed :
    (fuel : ℕ) (read w : Bytes) (u : Text)
    → AllPlain w
    → Views read w u.source
    → InRoom u
    → parse_string fuel u ≡ out_of_fuel
unfolding parse_string
parse_string_unclosed zero read w u a v r = refl
parse_string_unclosed (suc fuel) read w u a v r =
    ap (λ t. t >>= close_text (suc fuel) (parse_string fuel))
      (string_loop_unclosed (suc fuel) read w u a v r)

-- `n` rounds of the loop, and whether the text was closed in one of them.
unfoldable pub string_rounds : ℕ → Text → Run (Bool × Text)
string_rounds zero u = ok (false, u)
string_rounds (suc n) u =
    let (t, s) = next get_char u.source in
    string_byte t (record u { source = s }) >>= λ r.
    if r.0 then ok (true, r.1) else string_rounds n r.1

-- `lengthCount` behind `n` bytes: it goes from 1 to 512, again and again.
abbrev pub count_behind : ℕ → ℕ
count_behind zero = 0
count_behind (suc n) = n % 512 + 1

-- Behind more than 512 bytes one error was reported, unless it had been before.
abbrev pub errors_behind : ℕ → Bool → List LexError → List LexError
errors_behind n reported es = if ltb 512 n && not reported then es ++ string_too_long ∷ [] else es

-- The loop behind `n` bytes, from the state `u`.
record Behind (n : ℕ) (u v : Text) : Type 0 where
  count_is : v.length_count ≡ count_behind n
  errors_are : v.errors ≡ errors_behind n u.err_times u.errors
  reported_is : v.err_times ≡ (u.err_times || ltb 512 n)
  in_room : InRoom v

count_full : (n : ℕ) → count_behind n ≡ 512 → (count_behind (suc n) ≡ 1) × (511 < n)
count_full zero e = absurd (omega arith)
count_full (suc n) e = let all : n % 512 ≡ 511 = omega arith in (omega arith, omega arith)

count_less : (n : ℕ) → count_behind n < 512 → count_behind (suc n) ≡ count_behind n + 1
count_less zero h = refl
count_less (suc n) h = omega arith

errors_full :
    (n : ℕ) (r : Bool) (es : List LexError)
    → 511 < n
    → (if r || ltb 512 n
        then errors_behind n r es
        else errors_behind n r es ++ string_too_long ∷ [])
      ≡ errors_behind (suc n) r es
errors_full n true es h = ground arith
errors_full n false es h =
    let next : ltb 512 (suc n) ≡ true = ground arith in
    elim (Bool-cases (ltb 512 n)) [
      | inl more ↦ rw (more, next) refl
      | inr first ↦ rw (first, next) refl
    ]

same_side : (n : ℕ) → count_behind n < 512 → ltb 512 (suc n) ≡ ltb 512 n
same_side zero h = refl
same_side (suc n) h = let other : n ≢ 511 = λ e. omega arith in ground arith

one_round :
    (n c : ℕ) (u v : Text)
    → is_stored c ≡ true
    → Behind n u v
    → (v' : Text) × (string_byte c v ≡ ok (false, v'))
      × (v'.source ≡ v.source)
      × Behind (suc n) u v'
one_round n c u v h b = elim (Bool-cases (v.length_count == tmpbuffer_size)) [
  | inl e ↦
      let full = (==_iff v.length_count tmpbuffer_size).0 e in
      let (one, many) = count_full n (omega (arith, b.count_is)) in
      (
        start_over v,
        string_byte_full c v h full,
        refl,
        record {
          count_is = omega arith;
          errors_are = rw (b.errors_are, b.reported_is) (errors_full n u.err_times u.errors many);
          reported_is = ground arith;
          in_room = (omega arith, omega arith);
        },
      )
  | inr e ↦
      let r = b.in_room in
      let less : v.length_count < tmpbuffer_size = ground arith in
      (
        record v { buffer = v.buffer ++ c ∷ []; length_count = v.length_count + 1 },
        string_byte-is_stored c v h less (omega arith),
        refl,
        record {
          count_is = omega (arith, b.count_is, count_less n (omega (arith, b.count_is)));
          errors_are =
              b.errors_are
              ∙ ap
                  (λ k. if k && not u.err_times then u.errors ++ string_too_long ∷ [] else u.errors)
                  (sym (same_side n (omega (arith, b.count_is))));
          reported_is =
              b.reported_is ∙ ap (◌||◌ u.err_times) (sym (same_side n (omega (arith, b.count_is))));
          in_room = (omega (arith, length-append {0} v.buffer (c ∷ [])), omega arith);
        },
      )
]

string_rounds-Behind :
    (n m : ℕ) (read w : Bytes) (u v : Text)
    → AllPlain w
    → Views read w v.source
    → Behind m u v
    → (v' : Text) × (string_rounds n v ≡ ok (false, v')) × Behind (n + m) u v'
unfolding string_rounds
string_rounds-Behind zero m read w u v a s b = (v, refl, subst (λ k. Behind k u v) (omega arith) b)
string_rounds-Behind (suc n) m read [] u v a s b =
    let (t, e, same, b') = one_round m 0 u v refl b in
    let (v', f, b'') = string_rounds-Behind n (suc m) read [] u t tt (rw same s) b' in
    (v', rw ((next_at_end v.source s.rest_is).0, e) f, subst (λ k. Behind k u v') (omega arith) b'')
string_rounds-Behind (suc n) m read (c ∷ w) u v a s b =
    let moved = record v { source = advance c v.source } in
    let b1 : Behind m u moved = record {
      count_is = b.count_is;
      errors_are = b.errors_are;
      reported_is = b.reported_is;
      in_room = b.in_room;
    } in
    let (t, e, same, b') = one_round m c u moved (plain_stored c a.0) b1 in
    let (v', f, b'') =
      string_rounds-Behind n (suc m) (read ++ c ∷ []) w u t a.1 (rw same (advance-Views v.source s))
        b' in
    (
      v',
      rw (next-get_char v.source s.rest_is (plain_nonzero c a.0), e) f,
      subst (λ k. Behind k u v') (omega arith) b'',
    )

-- `parseString` on bytes that stand for themselves up to the end of the input: whatever the number
-- of rounds, the text is not closed and the loop has not ended; `lengthCount` goes from 1 to 512
-- again and again, since the loop starts over at 512, and the text was reported as too long once, if
-- there were more than 512 rounds and no text was reported before.
-- The input is shorter than 2 ^ 31 - 1 bytes.
pub string_rounds_start_over :
    (n : ℕ) (read w : Bytes) (u : Text)
    → AllPlain w
    → Views read w u.source
    → u.buffer ≡ []
    → u.length_count ≡ 0
    → (v : Text) × (string_rounds n u ≡ ok (false, v))
      × (v.length_count ≡ count_behind n)
      × (v.errors ≡ errors_behind n u.err_times u.errors)
      × (string_loop n u ≡ out_of_fuel)
string_rounds_start_over n read w u a s e z =
    let b : Behind 0 u u = record {
      count_is = z;
      errors_are = refl;
      reported_is = ground arith;
      in_room = (omega (arith, ap length e), omega arith);
    } in
    let (v, f, b') = string_rounds-Behind n 0 read w u u a s b in
    let whole : n + 0 ≡ n = omega arith in
    (
      v,
      f,
      b'.count_is ∙ ap count_behind whole,
      b'.errors_are ∙ ap (λ k. errors_behind k u.err_times u.errors) whole,
      string_loop_unclosed n read w u a s b.in_room,
    )
