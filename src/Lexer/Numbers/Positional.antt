-- ===== src/Lexer/Numbers/Positional.antt =====
-- lib/lex/lex.cc: digits that are shifted into a machine word spell their positional value.
use wxcc.Base.{
  ℕ, ◌+◌, ◌*◌, ◌%◌, ◌^◌, ◌≤◌, ◌<◌, Option, none, some, [], ◌∷◌, Bytes, length, ◌≡◌, sym, ap, ◌∙◌,
  arith,
}
use native.Mathlib.Nat.{pow-suc, pow-zero, mul-le-mul_right, one-le-pow, mod-eq_of_lt}

abbrev pub digit_or_zero : Option ℕ → ℕ
digit_or_zero none = 0
digit_or_zero (some d) = d

shift : (b r d p v : ℕ) → (r * b + d) * p + v ≡ r * (p * b) + (d * p + v)
shift b r d p v = grind arith

small_head : (x p v m : ℕ) → 1 ≤ p → x * p + v < m → x < m
small_head x p v m one h = let a : 1 * x ≤ p * x = mul-le-mul_right x one in grind arith

add_digit : (b d p v : ℕ) → d < b → v < p → d * p + v < p * b
add_digit b d p v small h =
    let a : (d + 1) * p ≤ b * p = mul-le-mul_right p (omega arith) in grind arith

module _ (digit : ℕ → Option ℕ) (base : ℕ) where
  -- The number that digits spell.
  unfoldable pub value : Bytes → ℕ
  value [] = 0
  value (c ∷ cs) = digit_or_zero (digit c) * base ^ length cs + value cs

  abbrev pub AllDigits : Bytes → Type 0
  AllDigits [] = Unit
  AllDigits (c ∷ cs) = ((d : ℕ) × (digit c ≡ some d) × (d < base)) × AllDigits cs

  -- Digits shifted into a word below `m` one after the other.
  unfoldable pub shifted : ℕ → ℕ → Bytes → ℕ
  shifted m r [] = r
  shifted m r (c ∷ cs) = shifted m ((r * base + digit_or_zero (digit c)) % m) cs

  pub shifted-value :
      (cs : Bytes) (m r : ℕ)
      → 0 < base
      → r * base ^ length cs + value cs < m
      → shifted m r cs ≡ r * base ^ length cs + value cs
  unfolding shifted value
  shifted-value [] m r b h = rw (pow-zero base) (omega arith)
  shifted-value (c ∷ cs) m r b h =
      let d = digit_or_zero (digit c) in
      let p = base ^ length cs in
      let split = ap (λ q. r * q + (d * p + value cs)) (pow-suc base (length cs)) in
      let whole = shift base r d p (value cs) ∙ sym split in
      let fits : (r * base + d) * p + value cs < m = omega (arith, h, whole) in
      let small = small_head (r * base + d) p (value cs) m (one-le-pow (length cs) base b) fits in
      rw (mod-eq_of_lt small) (shifted-value cs m (r * base + d) b fits ∙ whole)

  pub value-lt : (cs : Bytes) → 0 < base → AllDigits cs → value cs < base ^ length cs
  unfolding value
  value-lt [] b a = rw (pow-zero base) (ground arith)
  value-lt (c ∷ cs) b ((d, e, small), a) =
      rw (e, pow-suc base (length cs))
        (add_digit base d (base ^ length cs) (value cs) small (value-lt cs b a))
