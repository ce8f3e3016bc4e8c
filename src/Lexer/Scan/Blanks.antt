-- ===== src/Lexer/Scan/Blanks.antt =====
-- lib/lex/lex.cc: `Lex::skipBlank` passes over the blanks in front of it.
use wxcc.Base.{
  ℕ, zero, suc, ◌<◌, ◌≢◌, Bool, true, false, ◌||◌, [], ◌∷◌, ◌++◌, Bytes, length, ◌≡◌, refl, subst,
  arith, ◌==◌, append_assoc, append-nil,
}
use wxcc.Input.{MemorySource, advance}
use wxcc.Input.View.{
  Views-InInt, Views, advance-Views, unmoved-Views, next-get_char, next-push_back, next_at_end,
}
use wxcc.Lexer.{Run, ok, back, skip_blank}

abbrev pub is_blank : ℕ → Bool
is_blank c = c == b' ' || c == b'\t'

abbrev pub AllBlank : Bytes → Type 0
AllBlank [] = Unit
AllBlank (c ∷ cs) = (is_blank c ≡ true) × AllBlank cs

-- The end of the input, or a byte that is no blank and no NUL.
abbrev pub NoBlank : Bytes → Type 0
NoBlank [] = Unit
NoBlank (c ∷ cs) = (is_blank c ≡ false) × (c ≢ 0)

-- `skipBlank` returned with the source in front of `rest`.
abbrev pub SkipsTo : Bytes → Bytes → Run MemorySource → Type 0
SkipsTo read rest r = (s : MemorySource) × (r ≡ ok s) × Views read rest s

back-advance-Views :
    {read rest : Bytes} (c : ℕ) (s : MemorySource)
    → Views read (c ∷ rest) s
    → Views read (c ∷ rest) (back (advance c s))
back-advance-Views c s v = rw (next-push_back s v.rest_is (Views-InInt s v)) (unmoved-Views c s v)

nonzero_blank : (c : ℕ) → is_blank c ≡ true → c ≢ 0
nonzero_blank c h = ground arith

pub skip_blank-SkipsTo :
    (fuel : ℕ) (read bs rest : Bytes) (s : MemorySource)
    → AllBlank bs
    → NoBlank rest
    → Views read (bs ++ rest) s
    → length bs < fuel
    → SkipsTo (read ++ bs) rest (skip_blank fuel s)
unfolding skip_blank
skip_blank-SkipsTo zero read bs rest s a n v h = absurd (omega arith)
skip_blank-SkipsTo (suc fuel) read [] [] s a n v h =
    rw ((next_at_end s v.rest_is).0, append-nil) (s, refl, v)
skip_blank-SkipsTo (suc fuel) read [] (c ∷ rest) s a n v h =
    let nonzero : (c == 0) ≡ false = ground arith in
    rw (next-get_char s v.rest_is n.1, append-nil, n.0, nonzero)
      (back (advance c s), refl, back-advance-Views c s v)
skip_blank-SkipsTo (suc fuel) read (b ∷ bs) rest s a n v h =
    let (s', e, v') =
      skip_blank-SkipsTo fuel (read ++ b ∷ []) bs rest (advance b s) a.1 n (advance-Views s v)
        (omega arith) in
    rw (next-get_char s v.rest_is (nonzero_blank b a.0), a.0)
      (s', e, subst (λ p. Views p rest s') (append_assoc read (b ∷ []) bs) v')
