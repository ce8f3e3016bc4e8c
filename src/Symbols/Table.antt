-- ===== src/Symbols/Table.antt =====
-- includes/table.h: `NS_TABLE::Table<Identifier*, const char*>`, which probes its slots from the
-- hash of a name on. A null slot is `none`.
pub mod Home
pub mod Lookup
pub mod Insert
use wxcc.Base.{
  ℕ, zero, suc, ◌+◌, ◌/◌, ◌%◌, Bool, true, false, ◌&&◌, Option, none, some, List, [], ◌∷◌, Bytes,
  get_elem?, length, replicate, equal, leb, ◌==◌, if◌then◌else◌,
}
use wxcc.Symbols.{Identifier, get_hash, str_hash}

abbrev pub Slots : Type 0
Slots = List (Option Identifier)

-- The outcome of an operation: its result, an access past the slots, or a call on a null pointer.
pub data Checked (A : Type 0) : Type 0 where
  ok : A → Checked A
  out_of_bounds : Checked A
  null_dereference : Checked A

pub record Table : Type 0 where
  pub slots : Slots
  pub table_size : ℕ
  pub stored : ℕ
  pub threshold : ℕ

-- Three quarters.
abbrev pub threshold_of : ℕ → ℕ
threshold_of size = size / 4 + size / 2

-- `Table(_base_size)`, with `setZero`.
abbrev pub new_table : ℕ → Table
new_table size = record {
  slots = replicate size none;
  table_size = size;
  stored = 0;
  threshold = threshold_of size;
}

abbrev pub base_size : ℕ
base_size = 29

-- The comparison of a stored identifier with a name: their hashes, then `CMP::cmp`.
abbrev pub answer : Identifier → Bytes → Option Identifier
answer id name = if get_hash id == str_hash name && equal id.name name then some id else none

-- `Table::find` behind an empty home slot. It reads the next slot before it compares the index with
-- the size, so the index never wraps around and never comes back to the home slot.
unfoldable pub find_next : Option (Option Identifier) → Bytes → Checked (Option Identifier)
find_next none name = out_of_bounds
find_next (some none) name = ok none
find_next (some (some id)) name = ok (answer id name)

unfoldable pub find_home :
    Option (Option Identifier) → Option (Option Identifier) → Bytes → Checked (Option Identifier)
unfolding find_next
find_home none next name = out_of_bounds
find_home (some none) next name = find_next next name
find_home (some (some id)) next name = ok (answer id name)

-- `Table::find`, also `existCurrentScope`.
unfoldable pub find : Table → Bytes → Checked (Option Identifier)
unfolding find_home
find t name =
    let index = str_hash name % t.table_size in
    if t.stored == 0
    then ok none
    else find_home (get_elem? t.slots index) (get_elem? t.slots (index + 1)) name

-- The loop of `PutIntoTable(K, T)`: the first empty slot at the index or behind it.
unfoldable pub behind : Option Identifier → Option Slots → Option Slots
behind slot none = none
behind slot (some slots) = some (slot ∷ slots)

unfoldable pub place : ℕ → Identifier → Slots → Option Slots
unfolding behind
place i id [] = none
place (suc i) id (slot ∷ slots) = behind slot (place i id slots)
place zero id (none ∷ slots) = some (some id ∷ slots)
place zero id (some other ∷ slots) = behind (some other) (place zero id slots)

-- `checkSize` and `rePut`. The latter allocates empty slots and then puts the slots of the new
-- array, not of the old one, so that the first hash is that of a null pointer; a table has a slot.
unfoldable pub check_size : Table → Checked Table
check_size t = if leb t.threshold t.stored then null_dereference else ok t

unfoldable pub after_check : Checked Table → Checked Table
after_check (ok t) = ok (record t { stored = t.stored + 1 })
after_check out_of_bounds = out_of_bounds
after_check null_dereference = null_dereference

unfoldable pub written : Table → Option Slots → Checked Table
unfolding check_size after_check
written t none = out_of_bounds
written t (some slots) = after_check (check_size (record t { slots = slots }))

-- `PutIntoTable(K, T)`, with the name of the identifier as the second argument.
unfoldable pub put : Table → Identifier → Checked Table
unfolding place written
put t id = written t (place (get_hash id % t.table_size) id t.slots)

-- `Table::clear`, which leaves the count.
abbrev pub clear : Table → Table
clear t = record t { slots = replicate t.table_size none }
