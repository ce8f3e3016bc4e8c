-- ===== src/Lexer/Constants/Reach.antt =====
-- lib/lex/lex.cc: `Lex::getBufferUntilSp` takes the longest run of bytes of a number, and `Lex::number` reads the
-- constant there.
use wxcc.Base.{
  lt→ltb, ℕ, zero, suc, ◌+◌, ◌<◌, ◌≢◌, true, false, [], ◌∷◌, ◌++◌, Bytes, length, ◌≡◌, refl, subst,
  arith, append_assoc, append-nil, length-append, isalnum,
}
use wxcc.Input.{MemorySource, advance}
use wxcc.Input.View.{
  Views-InInt, Views, advance-Views, unmoved-Views, next-get_char, next-push_back,
}
use wxcc.Lexer.{Run, ok, back, tmpbuffer_size}
use wxcc.Lexer.Constants.{goes_on_number, buffer_until_sp, get_buffer_until_sp}

abbrev pub AllNumber : Bytes → Type 0
AllNumber [] = Unit
AllNumber (c ∷ cs) = (goes_on_number c ≡ true) × AllNumber cs

-- A byte stands behind the number, which is no part of it.
abbrev pub EndsNumber : Bytes → Type 0
EndsNumber [] = ⊥
EndsNumber (c ∷ cs) = (goes_on_number c ≡ false) × (c ≢ 0)

-- The text in `tmpBuffer`, and what is left to read.
abbrev pub BufferIs : Bytes → Bytes → Bytes → Run (Bytes × MemorySource) → Type 0
BufferIs text read rest r = (s : MemorySource) × (r ≡ ok (text, s)) × Views read rest s

pub nonzero_number : (c : ℕ) → goes_on_number c ≡ true → c ≢ 0
unfolding goes_on_number isalnum
nonzero_number c h = ground arith

buffer_until_sp-BufferIs :
    (fuel : ℕ) (buffer read w rest : Bytes) (c : ℕ) (s : MemorySource)
    → AllNumber w
    → EndsNumber rest
    → Views read (w ++ rest) s
    → length buffer + length w + 1 < tmpbuffer_size
    → length w < fuel
    → BufferIs (buffer ++ c ∷ w) (read ++ w) rest (buffer_until_sp fuel buffer c s)
unfolding buffer_until_sp
buffer_until_sp-BufferIs zero buffer read w rest c s a e v room h = absurd (omega arith)
buffer_until_sp-BufferIs (suc fuel) buffer read [] [] c s a e v room h = absurd e
buffer_until_sp-BufferIs (suc fuel) buffer read [] (d ∷ rest) c s a e v room h =
    rw
      (
        next-get_char s v.rest_is e.1,
        e.0,
        append-nil,
        lt→ltb (length buffer) tmpbuffer_size (omega arith),
        lt→ltb (length buffer + 1) tmpbuffer_size (omega arith),
      )
      (
        back (advance d s),
        refl,
        rw (next-push_back s v.rest_is (Views-InInt s v)) (unmoved-Views d s v),
      )
buffer_until_sp-BufferIs (suc fuel) buffer read (d ∷ w) rest c s a e v room h =
    let (s', r, v') =
      buffer_until_sp-BufferIs fuel (buffer ++ c ∷ []) (read ++ d ∷ []) w rest d (advance d s) a.1 e
        (advance-Views s v) (omega (arith, length-append {0} buffer (c ∷ []))) (omega arith) in
    (
      s',
      rw
          (
            next-get_char s v.rest_is (nonzero_number d a.0),
            a.0,
            lt→ltb (length buffer) tmpbuffer_size (omega arith),
            r,
            append_assoc,
          )
          refl,
      subst (λ p. Views p rest s') (append_assoc read (d ∷ []) w) v',
    )

-- `getBufferUntilSp` in front of a byte that is no NUL: it takes that byte whatever it is, and the
-- longest run behind it of letters, digits, points and signs, if a byte ends the run and
-- `tmpBuffer` has room. What is behind is left to read.
pub get_buffer_until_sp-BufferIs :
    (fuel : ℕ) (read w rest : Bytes) (c : ℕ) (s : MemorySource)
    → c ≢ 0
    → AllNumber w
    → EndsNumber rest
    → Views read (c ∷ (w ++ rest)) s
    → length (c ∷ w) < tmpbuffer_size
    → length w < fuel
    → BufferIs (c ∷ w) (read ++ c ∷ w) rest (get_buffer_until_sp fuel s)
unfolding get_buffer_until_sp
get_buffer_until_sp-BufferIs fuel read w rest c s nz a e v room h =
    let (s', r, v') =
      buffer_until_sp-BufferIs fuel [] (read ++ c ∷ []) w rest c (advance c s) a e
        (advance-Views s v) (omega arith) h in
    rw (next-get_char s v.rest_is nz)
      (s', r, subst (λ p. Views p rest s') (append_assoc read (c ∷ []) w) v')
