-- ===== src/Symbols.antt =====
-- lib/tools/tools.cc: `utils::strHash`, and the part of an `Identifier` (includes/identifier.h) that
-- the symbol table reads.
pub mod Table
pub mod Scopes
use Prim.Native.Nat.{bit_xor}
use wxcc.Base.{ℕ, ◌+◌, ◌-◌, ◌*◌, ◌/◌, ◌%◌, ◌^◌, Bool, List, [], ◌∷◌, Bytes, ltb, if◌then◌else◌}

-- `(size_t) *st`: a `char` is signed.
abbrev pub widen : ℕ → ℕ
widen c = if ltb c 128 then c else c + (2 ^ 64 - 2 ^ 8)

abbrev pub mix : ℕ → ℕ → ℕ
mix hash c = bit_xor (bit_xor (hash * 2 ^ 13 % 2 ^ 64) (hash / 2 ^ 3)) (widen c)

pub str_hash_from : ℕ → Bytes → ℕ
str_hash_from hash [] = hash
str_hash_from hash (c ∷ cs) = str_hash_from (mix hash c) cs

-- `utils::strHash`, on the bytes before the NUL.
unfoldable pub str_hash : Bytes → ℕ
unfolding str_hash_from
str_hash = str_hash_from 1315423911

pub record Identifier : Type 0 where
  pub name : Bytes
  pub is_function : Bool
  pub line : ℕ

-- `Identifier::getHash`
abbrev pub get_hash : Identifier → ℕ
get_hash id = str_hash id.name
