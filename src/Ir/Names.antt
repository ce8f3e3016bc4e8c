-- ===== src/Ir/Names.antt =====
-- lib/inter/semantic.cc: the numbers in the names of labels and temporary variables, as `%d` prints
-- them.
use wxcc.Base.{
  ℕ, zero, suc, ◌+◌, ◌-◌, ◌*◌, ◌/◌, ◌%◌, ◌≤◌, ◌<◌, [], ◌∷◌, ◌++◌, Bytes, length, length-append, ltb,
  if◌then◌else◌, ◌≡◌, ◌↔◌, inl, inr, refl, sym, ap, ◌∙◌, arith, Bool-cases,
}

decimal_fuel : ℕ → ℕ → Bytes
decimal_fuel zero n = []
decimal_fuel (suc fuel) n =
    let rest = decimal_fuel fuel (n / 10) ++ (b'0' + n % 10) ∷ [] in
    if ltb n 10 then (b'0' + n) ∷ [] else rest

-- The decimal digits of a number; it has fewer than `n + 1`.
unfoldable pub decimal : ℕ → Bytes
unfolding decimal_fuel
decimal n = decimal_fuel (suc n) n

decimal_value : Bytes → ℕ → ℕ
decimal_value [] acc = acc
decimal_value (c ∷ cs) acc = decimal_value cs (acc * 10 + (c - b'0'))

decimal_value-append :
    (xs : Bytes) (c acc : ℕ)
    → decimal_value (xs ++ c ∷ []) acc ≡ decimal_value xs acc * 10 + (c - b'0')
unfolding decimal_value
decimal_value-append [] c acc = refl
decimal_value-append (x ∷ xs) c acc = decimal_value-append xs c (acc * 10 + (x - b'0'))

decimal_value-decimal_fuel : (fuel n : ℕ) → n < fuel → decimal_value (decimal_fuel fuel n) 0 ≡ n
unfolding decimal_fuel decimal_value
decimal_value-decimal_fuel zero n h = absurd (omega arith)
decimal_value-decimal_fuel (suc fuel) n h = elim (Bool-cases (ltb n 10)) [
  | inl small ↦ rw small (ground arith)
  | inr big ↦
      rw (big, decimal_value-append (decimal_fuel fuel (n / 10)) (b'0' + n % 10) 0)
        (let ih = decimal_value-decimal_fuel fuel (n / 10) (ground arith) in ground (arith, ih))
]

-- Different numbers have different digits.
pub decimal-injective : (m n : ℕ) → decimal m ≡ decimal n → m ≡ n
unfolding decimal
decimal-injective m n h =
    sym (decimal_value-decimal_fuel (suc m) m (omega arith))
    ∙ ap (λ (s : Bytes). decimal_value s 0) h
    ∙ decimal_value-decimal_fuel (suc n) n (omega arith)

length-decimal_fuel :
    (fuel n : ℕ)
    → length (decimal_fuel (suc fuel) n)
      ≡ (if ltb n 10 then 1 else length (decimal_fuel fuel (n / 10)) + 1)
unfolding decimal_fuel
length-decimal_fuel fuel n =
    ground (arith, length-append (decimal_fuel fuel (n / 10)) ((b'0' + n % 10) ∷ []))

length-decimal_fuel_pos : (fuel n : ℕ) → n < fuel → 1 ≤ length (decimal_fuel fuel n)
length-decimal_fuel_pos zero n h = absurd (omega arith)
length-decimal_fuel_pos (suc fuel) n h = ground (arith, length-decimal_fuel fuel n)

length-decimal_fuel_one : (fuel n : ℕ) → n < fuel → (length (decimal_fuel fuel n) ≤ 1) ↔ (n < 10)
length-decimal_fuel_one zero n h = absurd (omega arith)
length-decimal_fuel_one (suc fuel) n h =
    ground (arith, length-decimal_fuel fuel n, length-decimal_fuel_pos fuel (n / 10))

-- A number has at most two digits exactly when it is below 100.
pub length-decimal : (n : ℕ) → (length (decimal n) ≤ 2) ↔ (n < 100)
unfolding decimal
length-decimal n = ground (arith, length-decimal_fuel n n, length-decimal_fuel_one n (n / 10))

pub length-decimal_pos : (n : ℕ) → 1 ≤ length (decimal n)
unfolding decimal
length-decimal_pos n = length-decimal_fuel_pos (suc n) n (omega arith)
