-- ===== src/Lexer/Chars/Crash.antt =====
-- lib/lex/lex.cc: `Lex::parseCharConstant` on characters with no escapes.
use wxcc.Base.{
  ℕ, zero, suc, ◌+◌, ◌-◌, ◌*◌, ◌%◌, ◌^◌, ◌<◌, ◌≤◌, ◌≢◌, Bool, true, false, ◌||◌, ◌&&◌, not, some,
  [], ◌∷◌, ◌++◌, Bytes, length, leb, ltb, ◌≡◌, refl, ap, ◌∙◌, sym, subst, arith, length-append,
  append_assoc, append-nil, ◌==◌, if◌then◌else◌, drop,
}
use wxcc.Input.{MemorySource, advance}
use wxcc.Input.View.{Views, next-get_char, advance-Views}
use wxcc.Lexer.{Run, ok, null_dereference, tmpbuffer_size}
use wxcc.Lexer.Chars.{
  char_value, char_token, write_num_val, char_of_length, of_char, get_a_char, char_loop, after_char,
  value_loop, parse_char_constant,
}

-- A byte that stands for itself.
abbrev pub is_char : ℕ → Bool
is_char c = not (c == b'\'' || c == b'\n' || c == b'\\' || c == 255 || c == 0)

abbrev pub AllChar : Bytes → Type 0
AllChar [] = Unit
AllChar (c ∷ cs) = (is_char c ≡ true) × AllChar cs

nonzero_char : (c : ℕ) → is_char c ≡ true → c ≢ 0
nonzero_char c h = ground arith

-- The text is read up to the quote, which is passed over.
abbrev Reads : Bytes → Bytes → Bytes → Run (Bytes × MemorySource) → Type 0
Reads text read rest r = (s : MemorySource) × (r ≡ ok (text, s)) × Views read rest s

char_tests :
    (c n : ℕ)
    → is_char c ≡ true
    → n < tmpbuffer_size
    → ((c == b'\'') ≡ false)
      × ((c == b'\n') ≡ false)
      × ((c == 255) ≡ false)
      × ((n == tmpbuffer_size) ≡ false)
      × (ltb n tmpbuffer_size ≡ true)
char_tests c n h l = ground arith

char_loop-Reads :
    (fuel : ℕ) (buffer read w rest : Bytes) (s : MemorySource)
    → AllChar w
    → Views read (w ++ b'\'' ∷ rest) s
    → length buffer + length w < tmpbuffer_size
    → length w < fuel
    → Reads (buffer ++ w) (read ++ (w ++ b'\'' ∷ [])) rest (char_loop fuel (length buffer) buffer s)
unfolding char_loop
char_loop-Reads zero buffer read w rest s a v l h = absurd (omega arith)
char_loop-Reads (suc fuel) buffer read [] rest s a v l h =
    rw (next-get_char s v.rest_is (omega arith), append-nil)
      (advance b'\'' s, refl, advance-Views s v)
char_loop-Reads (suc fuel) buffer read (c ∷ w) rest s a v l h =
    let size = length-append {0} buffer (c ∷ []) in
    let (s', e, v') =
      char_loop-Reads fuel (buffer ++ c ∷ []) (read ++ c ∷ []) w rest (advance c s) a.1
        (advance-Views s v) (omega arith) (omega arith) in
    let (q, n, i, f, r) = char_tests c (length buffer) a.0 (omega arith) in
    let same : length (buffer ++ c ∷ []) ≡ length buffer + 1 = omega arith in
    (
      s',
      rw (next-get_char s v.rest_is (nonzero_char c a.0), q, n, i, f, r)
          (rw (sym same) (e ∙ ap (λ p. ok (p, s')) (append_assoc buffer (c ∷ []) w))),
      subst (λ p. Views p rest s') (append_assoc read (c ∷ []) (w ++ b'\'' ∷ [])) v',
    )

get_a_char_plain :
    (c : ℕ) (cs : Bytes)
    → is_char c ≡ true
    → get_a_char (c ∷ cs) ≡ some (char_of_length (of_char c) 1)
unfolding get_a_char
get_a_char_plain c cs h = let plain : (c == b'\\') ≡ false = ground arith in rw plain refl

-- A `char` of 8 bits as an `int`.
abbrev pub as_signed : ℕ → ℕ
as_signed c = if leb 128 c then 2 ^ 32 - 256 + c else c

-- The value of characters behind one of these bits: each shifts it by eight bits.
abbrev pub packed : ℕ → Bytes → ℕ
packed r [] = r
packed r (c ∷ cs) = packed ((r * 256 + as_signed c) % 2 ^ 32) cs

-- The count of `n` characters: it goes from 1 to 4 again and again.
abbrev pub character_count : ℕ → ℕ
character_count zero = 0
character_count (suc n) = n % 4 + 1

of_char-as_signed : (c : ℕ) → of_char c ≡ as_signed c
of_char-as_signed c = ground arith

character_count_small : (m : ℕ) → character_count m ≤ 4
character_count_small zero = omega arith
character_count_small (suc m) = omega arith

counts :
    (m : ℕ)
    → (if leb 4 (character_count m) then 1 else character_count m + 1) ≡ character_count (suc m)
counts zero = refl
counts (suc m) = ground arith

going : (c n : ℕ) → is_char c ≡ true → n ≤ 4 → (leb n 4 && not (c == 0)) ≡ true
going c n h l = ground arith

value_step :
    (c : ℕ) (result : ℕ)
    → (result * 2 ^ 8 + of_char c) % 2 ^ 32 ≡ (result * 256 + as_signed c) % 2 ^ 32
value_step c result = ap (λ k. (result * 256 + k) % 2 ^ 32) (of_char-as_signed c)

-- The value of the characters is computed.
value_loop_plain :
    (fuel : ℕ) (w : Bytes) (m result : ℕ)
    → AllChar w
    → length w < fuel
    → value_loop fuel (w ++ 0 ∷ []) (character_count m) result
      ≡ ok (character_count (length w + m), packed result w)
unfolding value_loop after_char drop
value_loop_plain zero w m result a h = absurd (omega arith)
value_loop_plain (suc fuel) [] m result a h =
    let none_left : (leb (character_count m) 4 && not (0 == 0)) ≡ false = ground arith in
    rw none_left (ap (λ k. ok (character_count k, result)) (omega arith))
value_loop_plain (suc fuel) (c ∷ w) m result a h =
    let e =
      value_loop_plain fuel w (suc m) ((result * 256 + as_signed c) % 2 ^ 32) a.1 (omega arith) in
    let total : length w + suc m ≡ suc (length w) + m = omega arith in
    rw
      (
        going c (character_count m) a.0 (character_count_small m),
        get_a_char_plain c (w ++ 0 ∷ []) a.0,
        counts m,
        value_step c result,
      )
      (e ∙ ap (λ k. ok (character_count k, packed result (c ∷ w))) total)

-- A character constant with no escapes, however many characters it has that `tmpBuffer` has room
-- for: its count and its value, packed eight bits at a time, are computed, what follows its quote is
-- left to read, and then the code writes through a null pointer.
-- The input is shorter than 2 ^ 31 - 1 bytes.
pub parse_char_constant_crashes :
    (fuel : ℕ) (read w rest : Bytes) (s : MemorySource)
    → AllChar w
    → Views read (w ++ b'\'' ∷ rest) s
    → length w < tmpbuffer_size
    → length w < fuel
    → ((s' : MemorySource) × (char_value fuel s ≡ ok ((character_count (length w), packed 0 w), s'))
        × Views (read ++ (w ++ b'\'' ∷ [])) rest s')
      × (parse_char_constant fuel s ≡ null_dereference)
unfolding char_value parse_char_constant char_token write_num_val
parse_char_constant_crashes fuel read w rest s a v l h =
    let (s', e, v') = char_loop-Reads fuel [] read w rest s a v (omega arith) h in
    let room : ltb (length w) tmpbuffer_size ≡ true = ground arith in
    let f =
      value_loop_plain (suc (length (w ++ 0 ∷ []))) w 0 0 a
        (omega (arith, length-append {0} w (0 ∷ []))) in
    let whole : length w + 0 ≡ length w = omega arith in
    let computed : char_value fuel s ≡ ok ((character_count (length w), packed 0 w), s') =
      rw (e, room, f) (ap (λ k. ok ((character_count k, packed 0 w), s')) whole) in
    ((s', computed, v'), rw computed refl)
