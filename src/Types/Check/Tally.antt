-- ===== src/Types/Check/Tally.antt =====
-- lib/semantic/type.cc: what the loop of `Type::checkType` counts.
use wxcc.Base.{ℕ, ◌+◌, ◌≤◌, Bool, true, false, none, List, [], ◌∷◌, ◌≡◌, ◌↔◌, ◌⊎◌, refl, arith}
use wxcc.Types.{
  TypeOp, to_void, to_char, to_int, to_long, to_short, to_float, to_double, to_struct, to_union,
  to_array, to_enum, to_pointer, to_function, to_const, to_volatile, to_signed, to_unsigned,
  to_funcpara, to_unset, ◌is◌, CType, null_type, type,
}
use wxcc.Types.Check.{
  TypeException, Counts, match_base_type, plus_if, meet, meet_all, verdict, no_counts,
}

-- The operators from a type down its base types.
unfoldable pub ops : CType → List TypeOp
ops null_type = []
ops (type op base u size align sym) = op ∷ ops base

-- The operators that name an arithmetic type, and that of parameters, which has the bits of these.
abbrev pub counts_as_arithmetic : TypeOp → Bool
counts_as_arithmetic to_char = true
counts_as_arithmetic to_int = true
counts_as_arithmetic to_long = true
counts_as_arithmetic to_short = true
counts_as_arithmetic to_float = true
counts_as_arithmetic to_double = true
counts_as_arithmetic to_funcpara = true
counts_as_arithmetic _ = false

abbrev pub is_sign : TypeOp → Bool
is_sign to_signed = true
is_sign to_unsigned = true
is_sign _ = false

abbrev pub NoneOf : (TypeOp → Bool) → List TypeOp → Type 0
NoneOf P [] = Unit
NoneOf P (op ∷ l) = (P op ≡ false) × NoneOf P l

abbrev pub AtMostOne : (TypeOp → Bool) → List TypeOp → Type 0
AtMostOne P [] = Unit
AtMostOne P (op ∷ l) = ((P op ≡ false) × AtMostOne P l) ⊎ NoneOf P l

count : (TypeOp → Bool) → List TypeOp → ℕ
count P [] = 0
count P (op ∷ l) = plus_if (P op) (count P l)

NoneOf-count : (P : TypeOp → Bool) (l : List TypeOp) → NoneOf P l ↔ (count P l ≡ 0)
unfolding count
NoneOf-count P [] = (λ _. refl, λ _. tt)
NoneOf-count P (op ∷ l) = let ih = NoneOf-count P l in ground (arith, ih)

AtMostOne-count : (P : TypeOp → Bool) (l : List TypeOp) → AtMostOne P l ↔ (count P l ≤ 1)
unfolding count
AtMostOne-count P [] = (λ _. omega arith, λ _. tt)
AtMostOne-count P (op ∷ l) =
    let ih = AtMostOne-count P l in
    let zero_count = NoneOf-count P l in ground (arith, ih, zero_count)

match_base_type-counts_as_arithmetic : (op : TypeOp) → match_base_type op ≡ counts_as_arithmetic op
match_base_type-counts_as_arithmetic to_void = refl
match_base_type-counts_as_arithmetic to_char = refl
match_base_type-counts_as_arithmetic to_int = refl
match_base_type-counts_as_arithmetic to_long = refl
match_base_type-counts_as_arithmetic to_short = refl
match_base_type-counts_as_arithmetic to_float = refl
match_base_type-counts_as_arithmetic to_double = refl
match_base_type-counts_as_arithmetic to_struct = refl
match_base_type-counts_as_arithmetic to_union = refl
match_base_type-counts_as_arithmetic to_array = refl
match_base_type-counts_as_arithmetic to_enum = refl
match_base_type-counts_as_arithmetic to_pointer = refl
match_base_type-counts_as_arithmetic to_function = refl
match_base_type-counts_as_arithmetic to_const = refl
match_base_type-counts_as_arithmetic to_volatile = refl
match_base_type-counts_as_arithmetic to_signed = refl
match_base_type-counts_as_arithmetic to_unsigned = refl
match_base_type-counts_as_arithmetic to_funcpara = refl
match_base_type-counts_as_arithmetic to_unset = refl

is_sign_lem :
    (op : TypeOp) (s u : ℕ)
    → plus_if (op is to_signed) s + plus_if (op is to_unsigned) u ≡ plus_if (is_sign op) (s + u)
is_sign_lem to_void s u = ground arith
is_sign_lem to_char s u = ground arith
is_sign_lem to_int s u = ground arith
is_sign_lem to_long s u = ground arith
is_sign_lem to_short s u = ground arith
is_sign_lem to_float s u = ground arith
is_sign_lem to_double s u = ground arith
is_sign_lem to_struct s u = ground arith
is_sign_lem to_union s u = ground arith
is_sign_lem to_array s u = ground arith
is_sign_lem to_enum s u = ground arith
is_sign_lem to_pointer s u = ground arith
is_sign_lem to_function s u = ground arith
is_sign_lem to_const s u = ground arith
is_sign_lem to_volatile s u = ground arith
is_sign_lem to_signed s u = ground arith
is_sign_lem to_unsigned s u = ground arith
is_sign_lem to_funcpara s u = ground arith
is_sign_lem to_unset s u = ground arith

plus_if-add : (b : Bool) (n m : ℕ) → plus_if b n + m ≡ n + plus_if b m
plus_if-add true n m = omega arith
plus_if-add false n m = refl

-- What the loop counts.
meet_all-count :
    (ty : CType) (c : Counts)
    → ((meet_all ty c).meet_base_type ≡ c.meet_base_type + count counts_as_arithmetic (ops ty))
      × ((meet_all ty c).meet_signed + (meet_all ty c).meet_usigned
          ≡ c.meet_signed + c.meet_usigned + count is_sign (ops ty))
unfolding meet_all ops count meet
meet_all-count null_type c = (omega arith, omega arith)
meet_all-count (type op base u size align sym) c =
    let ih = meet_all-count base (meet op c) in
    ground (
      arith,
      ih,
      match_base_type-counts_as_arithmetic op,
      is_sign_lem op c.meet_signed c.meet_usigned,
      plus_if-add (counts_as_arithmetic op) c.meet_base_type
          (count counts_as_arithmetic (ops base)),
      plus_if-add (is_sign op) (c.meet_signed + c.meet_usigned) (count is_sign (ops base)),
    )

verdict-counts :
    (c : Counts) (te : TypeException)
    → (verdict c te ≡ none)
      ↔ ((te ≡ none) × (c.meet_base_type ≤ 1) × (c.meet_signed + c.meet_usigned ≤ 1))
unfolding verdict
verdict-counts c te = ground arith

-- With no error before, the verdict is that there is at most one arithmetic type and one sign.
pub verdict_iff :
    (ty : CType) (te : TypeException)
    → (verdict (meet_all ty no_counts) te ≡ none)
      ↔ ((te ≡ none) × AtMostOne counts_as_arithmetic (ops ty) × AtMostOne is_sign (ops ty))
verdict_iff ty te =
    let counted = meet_all-count ty no_counts in
    let one_type = AtMostOne-count counts_as_arithmetic (ops ty) in
    let one_sign = AtMostOne-count is_sign (ops ty) in
    let counts = verdict-counts (meet_all ty no_counts) te in
    ground (arith, counted, one_type, one_sign, counts)
