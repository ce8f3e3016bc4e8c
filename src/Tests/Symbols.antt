-- ===== src/Tests/Symbols.antt =====
-- includes/table.h, lib/env/environment.cc: runs and instances.
use wxcc.Base.{
  ◌+◌, ◌/◌, ◌≤◌, false, none, some, [], ◌∷◌, Bytes, codes, equal, ◌%◌, pos, set, get_elem?,
  replicate, ◌≡◌, ◌≢◌, ◌↔◌, refl, ap, get_or, arith,
}
use wxcc.Symbols.{str_hash, Identifier}
use wxcc.Symbols.Table.{ok, Table, new_table, base_size, find, put}
use wxcc.Symbols.Table.Lookup.{home, IsProbed, new_table-IsProbed, put-IsProbed, find-put_kept}
use wxcc.Symbols.Table.Insert.{
  find_iff, find-put, find-put_hidden, put_all, then_put, put_all-length,
}
use wxcc.Symbols.Scopes.{Env, new_env, declared, find_id, new_identifier}
use wxcc.Symbols.Scopes.Nesting.{find_id-new_identifier, blocks, scope_level-blocks}
use wxcc.Symbols.Scopes.Sound.{Grown, new_env-IsSound, new_identifier-Grown}

abbrev variable : Bytes → Identifier
variable name = record { name = name; is_function = false; line = 1 }

abbrev empty_table : Table
empty_table = new_table base_size

-- The hashes of `i` and `t` leave the same remainder.
same_home : (str_hash (codes "i") % 29 ≡ 0) × (str_hash (codes "t") % 29 ≡ 0)
unfolding str_hash
same_home = (refl, refl)

abbrev i : Identifier
i = variable (codes "i")

abbrev t : Identifier
t = variable (codes "t")

-- A table with `i` in its home slot.
abbrev with_i : Table
with_i = record empty_table { slots = set empty_table.slots 0 (some i); stored = 1 }

i_is_put : put empty_table i ≡ ok with_i
unfolding put str_hash replicate
i_is_put = refl

i_is_found : find with_i (codes "i") ≡ ok (some i)
unfolding find str_hash replicate equal
i_is_found = refl

with_i-IsProbed : IsProbed with_i
with_i-IsProbed = put-IsProbed empty_table with_i i (new_table-IsProbed base_size) i_is_put

abbrev with_it : Table
with_it = record with_i { slots = set with_i.slots 1 (some t); stored = 2 }

t_is_put : put with_i t ≡ ok with_it
unfolding put str_hash replicate
t_is_put = refl

-- A second `t` is no redeclaration: the first one is hidden behind `i`.
t_again : find with_it (codes "t") ≡ ok none
unfolding find str_hash replicate equal
t_again = refl

i_at_home : get_elem? with_i.slots (home with_i (codes "i")) ≡ some (some i)
unfolding str_hash replicate
i_at_home = refl

t_home_taken : get_elem? with_i.slots (home with_i (codes "t")) ≡ some (some i)
unfolding str_hash replicate
t_home_taken = refl

home_vacant : get_elem? empty_table.slots (home empty_table (codes "i")) ≡ some none
unfolding str_hash replicate
home_vacant = refl

other_name : codes "i" ≢ codes "t"
other_name e = let first = ap (λ (s : Bytes). get_or s 0 0) e in omega arith

i_still_found : find with_it (codes "i") ≡ ok (some i)
unfolding find str_hash replicate equal
i_still_found = refl

i_is_fresh : find empty_table (codes "i") ≡ ok none
unfolding find
i_is_fresh = refl

find_iff_example :
    (find with_i (codes "i") ≡ ok (some i))
    ↔ ((get_elem? with_i.slots (home with_i (codes "i")) ≡ some (some i)) × (codes "i" ≡ codes "i"))
find_iff_example = find_iff with_i (codes "i") i with_i-IsProbed (omega arith)

find-put_example : (u : Table) × (put empty_table i ≡ ok u) × (find u (codes "i") ≡ ok (some i))
find-put_example = find-put empty_table i (omega arith) home_vacant

find-put_hidden_example : find with_it (codes "t") ≡ ok none
find-put_hidden_example = find-put_hidden with_i with_it t i t_home_taken other_name t_is_put

find-put_kept_example : find with_it (codes "i") ≡ ok (some i)
find-put_kept_example =
    find-put_kept with_i with_it t i (codes "i") with_i-IsProbed t_is_put i_is_found

all_put : put_all (ok (new_table 29)) (i ∷ t ∷ []) ≡ ok with_it
unfolding put_all then_put put str_hash replicate
all_put = refl

put_all-length_example : (with_it.stored ≡ 2) × (2 ≤ 29 / 4 + 29 / 2)
put_all-length_example = put_all-length 29 (i ∷ t ∷ []) with_it all_put

find_id-new_identifier_example :
    (env : Env) × (new_identifier new_env i ≡ ok (declared env))
    × (find_id (env ∷ []) (codes "i") ≡ ok (some i))
find_id-new_identifier_example =
    find_id-new_identifier new_env [] i refl i_is_fresh (omega arith) home_vacant

scope_level-blocks_example :
    let env = record new_env { scope_level = pos 2 } in
    blocks 2 (env ∷ []) ≡ ok (record env { scope_level = pos 0 } ∷ [])
scope_level-blocks_example = scope_level-blocks 2 0 (record new_env { scope_level = pos 2 }) [] refl

abbrev env_with_i : Env
env_with_i = record new_env { local_id = with_i; id_counts = 1 }

i_is_declared : new_identifier new_env i ≡ ok (declared env_with_i)
unfolding new_identifier put find str_hash replicate
i_is_declared = refl

new_identifier-Grown_example : Grown new_env env_with_i
new_identifier-Grown_example =
    new_identifier-Grown new_env env_with_i i new_env-IsSound i_is_declared
