-- ===== src/Lexer/Numbers/Digits.antt =====
-- The digits of the language, and the `switch`es of lib/lex/lex.cc against them.
use wxcc.Base.{
  ◌&◌, ℕ, ◌<◌, Option, none, some, List, [], ◌∷◌, Bytes, ◌≡◌, refl, sym, subst, arith, ◌==◌, ==_iff,
  Bool-cases, inl, inr, if◌then◌else◌,
}
use wxcc.Lexer.Numbers.{hex_digit, oct_digit}
use wxcc.Lexer.Numbers.Decimal.{dec_digit}
use wxcc.Lexer.Numbers.Positional.{value, AllDigits}

-- The digits of C with their values.
abbrev pub digits : List (ℕ × ℕ)
digits =
    (b'0', 0)
    ∷ (b'1', 1)
    ∷ (b'2', 2)
    ∷ (b'3', 3)
    ∷ (b'4', 4)
    ∷ (b'5', 5)
    ∷ (b'6', 6)
    ∷ (b'7', 7)
    ∷ (b'8', 8)
    ∷ (b'9', 9)
    ∷ (b'a', 10)
    ∷ (b'b', 11)
    ∷ (b'c', 12)
    ∷ (b'd', 13)
    ∷ (b'e', 14)
    ∷ (b'f', 15)
    ∷ (b'A', 10)
    ∷ (b'B', 11)
    ∷ (b'C', 12)
    ∷ (b'D', 13)
    ∷ (b'E', 14)
    ∷ (b'F', 15)
    ∷ []

unfoldable pub value_in : ℕ → List (ℕ × ℕ) → Option ℕ
value_in c [] = none
value_in c ((b, d) ∷ m) = if c == b then some d else value_in c m

unfoldable pub digit : ℕ → Option ℕ
unfolding value_in
digit c = value_in c digits

-- What the three `switch`es make of a digit, in their bases.
abbrev IsRead : ℕ → ℕ → Type 0
IsRead c d =
    (hex_digit c ≡ some d) × (d < 10 → dec_digit c ≡ some d) × (d < 8 → oct_digit c ≡ some d)

abbrev AllRead : List (ℕ × ℕ) → Type 0
AllRead [] = Unit
AllRead ((c, d) ∷ m) = IsRead c d × AllRead m

all_read : AllRead digits
unfolding hex_digit dec_digit oct_digit
all_read =
    (refl, (λ l. refl), (λ l. refl))
    & (refl, (λ l. refl), (λ l. refl))
    & (refl, (λ l. refl), (λ l. refl))
    & (refl, (λ l. refl), (λ l. refl))
    & (refl, (λ l. refl), (λ l. refl))
    & (refl, (λ l. refl), (λ l. refl))
    & (refl, (λ l. refl), (λ l. refl))
    & (refl, (λ l. refl), (λ l. refl))
    & (refl, (λ l. refl), (λ l. absurd (omega arith)))
    & (refl, (λ l. refl), (λ l. absurd (omega arith)))
    & (refl, (λ l. absurd (omega arith)), (λ l. absurd (omega arith)))
    & (refl, (λ l. absurd (omega arith)), (λ l. absurd (omega arith)))
    & (refl, (λ l. absurd (omega arith)), (λ l. absurd (omega arith)))
    & (refl, (λ l. absurd (omega arith)), (λ l. absurd (omega arith)))
    & (refl, (λ l. absurd (omega arith)), (λ l. absurd (omega arith)))
    & (refl, (λ l. absurd (omega arith)), (λ l. absurd (omega arith)))
    & (refl, (λ l. absurd (omega arith)), (λ l. absurd (omega arith)))
    & (refl, (λ l. absurd (omega arith)), (λ l. absurd (omega arith)))
    & (refl, (λ l. absurd (omega arith)), (λ l. absurd (omega arith)))
    & (refl, (λ l. absurd (omega arith)), (λ l. absurd (omega arith)))
    & (refl, (λ l. absurd (omega arith)), (λ l. absurd (omega arith)))
    & (refl, (λ l. absurd (omega arith)), (λ l. absurd (omega arith)))
    & tt

some_injective : {a b : ℕ} → some a ≡ some b → a ≡ b
some_injective e = cc

of_AllRead : (c d : ℕ) (m : List (ℕ × ℕ)) → AllRead m → value_in c m ≡ some d → IsRead c d
unfolding value_in
of_AllRead c d [] a h = cc
of_AllRead c d ((b, e) ∷ m) a h = elim (Bool-cases (c == b)) [
  | inl same ↦
      let v : e ≡ d = some_injective (rw same at h) in
      let k : b ≡ c = sym ((==_iff c b).0 same) in
      subst (λ x. IsRead x d) k (subst (λ y. IsRead b y) v a.0)
  | inr other ↦ of_AllRead c d m a.1 (rw other at h)
]

pub digit-IsRead : (c d : ℕ) → digit c ≡ some d → IsRead c d
unfolding digit
digit-IsRead c d h = of_AllRead c d digits all_read h

-- A reading of digits that agrees with the language up to a base.
module _ (read : ℕ → Option ℕ) (base : ℕ)
    (agrees : (c d : ℕ) → digit c ≡ some d → d < base → read c ≡ some d) where
  pub read-AllDigits : (ds : Bytes) → AllDigits digit base ds → AllDigits read base ds
  read-AllDigits [] a = tt
  read-AllDigits (c ∷ ds) ((d, e, l), a) = ((d, agrees c d e l, l), read-AllDigits ds a)

  pub read-value : (ds : Bytes) → AllDigits digit base ds → value read base ds ≡ value digit base ds
  unfolding value
  read-value [] a = refl
  read-value (c ∷ ds) ((d, e, l), a) = rw (e, agrees c d e l, read-value ds a) refl

pub dec_agrees : (c d : ℕ) → digit c ≡ some d → d < 10 → dec_digit c ≡ some d
dec_agrees c d e l = (digit-IsRead c d e).1 l

pub oct_agrees : (c d : ℕ) → digit c ≡ some d → d < 8 → oct_digit c ≡ some d
oct_agrees c d e l = (digit-IsRead c d e).2 l

pub hex_agrees : (c d : ℕ) → digit c ≡ some d → d < 16 → hex_digit c ≡ some d
hex_agrees c d e l = (digit-IsRead c d e).0
