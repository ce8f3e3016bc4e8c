-- ===== src/Lexer/Constants/Repeat.antt =====
-- lib/lex/lex.cc: `Lex::number` on a digit at the end of the input.
use wxcc.Base.{ℕ, suc, ◌≢◌, ◌-◌, true, [], ◌∷◌, Bytes, ◌≡◌, refl, isdigit}
use wxcc.Input.{MemorySource, advance}
use wxcc.Input.View.{
  Views-InInt, Views, next_at_end, next-get_char, next-push_back, advance-Views, unmoved-Views,
}
use wxcc.Lexer.{back}
use wxcc.Lexer.Constants.{buffer_until_sp, get_buffer_until_sp, radix_of, scan_number}
use wxcc.Lexer.Constants.Integer.{NumberIs, new_number-parsed, parsed-alone}
use wxcc.Lexer.Constants.Reach.{BufferIs}
use wxcc.Lexer.Numbers.{nt_si}
use wxcc.Lexer.Numbers.Floats.{CLibrary}
use wxcc.Lexer.Words.{Got, back-Views}
use wxcc.Token.{int_con}

-- The last byte is stored, and given back.
last_again :
    (fuel c : ℕ) (s : MemorySource) {read : Bytes}
    → c ≢ 0
    → Views read (c ∷ []) s
    → BufferIs (c ∷ []) read (c ∷ []) (get_buffer_until_sp (suc fuel) s)
unfolding get_buffer_until_sp buffer_until_sp
last_again fuel c s nz v =
    let w = advance-Views s v in
    rw (next-get_char s v.rest_is nz, (next_at_end (advance c s) w.rest_is).0)
      (
        back (advance c s),
        refl,
        rw (next-push_back s v.rest_is (Views-InInt s v)) (unmoved-Views c s v),
      )

-- `number` on a digit that is the last byte of the input returns the token of its value, and leaves
-- the digit to be read again.
pub scan_number_again :
    (lib : CLibrary) (fuel c : ℕ) (read : Bytes) (s : MemorySource)
    → isdigit c ≡ true
    → Got read (c ∷ []) c s
    → NumberIs read (c ∷ []) (int_con nt_si (c - b'0')) (scan_number lib (suc fuel) c s)
unfolding scan_number
scan_number_again lib fuel c read s d g =
    let (s', e, v) = last_again fuel c (back s) g.1 (back-Views c [] c s g) in
    (
      s',
      rw e (
          new_number-parsed lib (c ∷ []) (radix_of c 0) (int_con nt_si (c - b'0')) s'
            (parsed-alone lib c d)),
      v,
    )
