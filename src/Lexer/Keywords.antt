-- ===== src/Lexer/Keywords.antt =====
-- lib/lex/lex.cc: the tests of `Lex::letter`, one definition for each first letter.
pub mod Match
pub mod Table
use wxcc.Base.{ℕ, [], ◌∷◌, Bytes, codes, ◌==◌, if◌then◌else◌}
use Prim.Native.String.{String}
use wxcc.Token.{
  Keyword, key_auto, key_extern, key_register, key_static, key_typedef, key_char, key_float,
  key_int, key_long, key_union, key_enum, key_signed, key_short, key_unsigned, key_struct,
  key_double, key_volatile, key_const, key_continue, key_default, key_do, key_break, key_case,
  key_else, key_for, key_goto, key_if, key_return, key_sizeof, key_switch, key_kvoid, key_while,
}
use wxcc.Lexer.{Letters, last, follow, last_or, Branches, other, branch}

-- Tests for the bytes of a text one after the other, the last of them with `CHECK_NEXT`.
abbrev spelled : Bytes → Keyword → Letters
spelled [] k = last k
spelled (c ∷ cs) k = follow (branch c (spelled cs k) other)

abbrev pub spell : String → Keyword → Letters
spell s k = spelled (codes s) k

abbrev pub letter_a : Letters
letter_a = spell "uto" key_auto

abbrev pub letter_b : Letters
letter_b = spell "reak" key_break

abbrev pub letter_c : Letters
letter_c = follow (
    branch b'a' (spell "se" key_case) (
      branch b'h' (spell "ar" key_char) (
        branch b'o'
          (follow (
            branch b'n'
              (follow
                (branch b's' (spell "t" key_const) (branch b't' (spell "inue" key_continue) other)))
              other))
          other)))

abbrev pub letter_d : Letters
letter_d = follow (
    branch b'e' (spell "fault" key_default)
      (branch b'o' (last_or key_do (branch b'u' (spell "ble" key_double) other)) other))

abbrev pub letter_e : Letters
letter_e = follow (
    branch b'l' (spell "se" key_else)
      (branch b'n' (spell "um" key_enum) (branch b'x' (spell "tern" key_extern) other)))

abbrev pub letter_f : Letters
letter_f = follow (branch b'o' (spell "r" key_for) (branch b'l' (spell "oat" key_float) other))

abbrev pub letter_g : Letters
letter_g = spell "oto" key_goto

abbrev pub letter_i : Letters
letter_i = follow (branch b'f' (last key_if) (branch b'n' (spell "t" key_int) other))

abbrev pub letter_l : Letters
letter_l = spell "ong" key_long

abbrev pub letter_r : Letters
letter_r = follow (
    branch b'e'
      (follow
        (branch b'g' (spell "ister" key_register) (branch b't' (spell "urn" key_return) other)))
      other)

abbrev pub letter_s : Letters
letter_s = follow (
    branch b'h' (spell "ort" key_short) (
      branch b'i'
        (follow (branch b'g' (spell "ned" key_signed) (branch b'z' (spell "eof" key_sizeof) other)))
        (branch b't'
          (follow
            (branch b'a' (spell "tic" key_static) (branch b'r' (spell "uct" key_struct) other)))
          (branch b'w' (spell "itch" key_switch) other))))

abbrev pub letter_t : Letters
letter_t = spell "ypedef" key_typedef

abbrev pub letter_u : Letters
letter_u = follow (
    branch b'n'
      (follow (branch b'i' (spell "on" key_union) (branch b's' (spell "igned" key_unsigned) other)))
      other)

abbrev pub letter_v : Letters
letter_v = follow (
    branch b'o'
      (follow (branch b'i' (spell "d" key_kvoid) (branch b'l' (spell "atile" key_volatile) other)))
      other)

abbrev pub letter_w : Letters
letter_w = spell "hile" key_while

-- The outer `switch` of `letter`: the cases from 'e' on, and all of them.
abbrev pub letters_from_e : Branches
letters_from_e = branch b'e' letter_e (
    branch b'f' letter_f (
      branch b'g' letter_g (
        branch b'i' letter_i (
          branch b'l' letter_l (
            branch b'r' letter_r (
              branch b's' letter_s (
                branch b't' letter_t
                  (branch b'u' letter_u (branch b'v' letter_v (branch b'w' letter_w other))))))))))

abbrev pub letters : Branches
letters =
    branch b'a' letter_a
      (branch b'b' letter_b (branch b'c' letter_c (branch b'd' letter_d letters_from_e)))
