-- ===== src/Binding/Patterns.antt =====
-- pbc-lua.c: the functions for patterns, from `_pattern_new` to `_pattern_size`. The values of a
-- pattern stand in one block, in the order of the format.
pub mod Cells
pub mod Steps
pub mod Space
pub mod Exchange
pub mod Growth
use socktestprogram.Prelude.{
  ℕ, zero, suc, ◌+◌, ◌-◌, ◌*◌, ◌==◌, not, ◌||◌, Bool, true, false, Option, none, some, List, [],
  ◌∷◌, ◌++◌, leb, ltb, if◌then◌else◌, length, take, drop, replicate, word, is_negative, add32,
  mul32,
}
use socktestprogram.Pbc.{Api, Slice}
use socktestprogram.Binding.{
  Value, nil, number, string, light, userdata, table, Key, index, field, State, done, M, ◌>>=◌,
  ◌>>◌, pure, raise, outside, ask, call, change, arg, to_userdata, to_lstring, to_number,
  check_userdata, check_lstring, check_string, check_integer, to_integer, slice_of,
}
use socktestprogram.Binding.Messages.{Function}
use socktestprogram.Binding.Fields.{
  slice_size, array_size, letter, array_letter, is_small, width, is_table, raw_get, nth_table,
  Block, get_value, push_value, push_item, array_item,
}

-- A case of `_pattern_size`.
unfoldable pub size_of : ℕ → ℕ
size_of c =
    if c == b'b' || (c == b'i' || c == b'p')
    then 4
    else if c == b'r' || (c == b'x' || (c == b'u' || c == b'd'))
    then 8
    else if c == b's' || c == b'm'
    then slice_size
    else array_size

-- The loop of `_pattern_size`.
unfoldable pub total_size : ℕ → List ℕ → ℕ
unfolding size_of
total_size size [] = size
total_size size (c ∷ cs) = total_size (add32 size (size_of c)) cs

module _ (a : Api) where
  -- `_pattern_new`
  unfoldable pub pattern_new : Function a
  pattern_new args = do
    env ← check_userdata a 1 args
    message ← check_string a 2 args
    format ← check_string a 3 args
    pat ← call a (a.pattern_new env message format)
    if pat == 0 then raise a "create pattern failed" else pure a (light pat ∷ [])

  -- `_pattern_delete`
  unfoldable pub pattern_delete : Function a
  pattern_delete args = do change a (a.pattern_delete (to_userdata a (arg a 1 args))); pure a []

  -- `_pattern_size`
  unfoldable pub pattern_size : Function a
  unfolding total_size
  pattern_size args = do
    format ← check_lstring a 1 args
    pure a (number (a.of_int (total_size 0 format)) ∷ [])

  -- The border that `lua_rawlen` finds in a table without holes.
  abbrev pub is_absent : Value a → Bool
  is_absent nil = true
  is_absent other = false

  unfoldable pub raw_len : ℕ → ℕ → List (Key a × Value a) → ℕ
  raw_len zero n kvs = n
  raw_len (suc fuel) n kvs =
      let more = raw_len fuel (suc n) kvs in if is_absent (raw_get a kvs (suc n)) then n else more

  -- The loop of `_pattern_pack` over the items of an array at the offset `ptr`, from the index `j`
  -- on; an array is inside the block of `size` bytes.
  unfoldable pub push_items : ℕ → ℕ → ℕ → ℕ → ℕ → List (Key a × Value a) → M a (Unit {0})
  push_items zero j c ptr size kvs = pure a tt
  push_items (suc n) j c ptr size kvs =
      if leb (ptr + array_size) size
      then (do push_item a c ptr (raw_get a kvs j); push_items n (suc j) c ptr size kvs)
      else outside a

  abbrev pub array_table : Option (Value a) → M a (List (Key a × Value a))
  array_table v = elim (is_table a v) [
    | none ↦ raise a "need table for array type"
    | some t ↦ (λ s. done (nth_table a s.tables t) s)
  ]

  unfoldable pub pack_array : ℕ → List (Value a) → ℕ → Block a → M a (Block a)
  unfolding raw_len
  pack_array i args c (block, ptr) = do
    kvs ← array_table (arg a i args)
    push_items (raw_len (length kvs) 0 kvs) 1 c ptr (length block) kvs
    pure a (block, ptr + array_size)

  -- The loop of `_pattern_pack` over the format, with the argument at the index `i`.
  unfoldable pub pack_values : List ℕ → ℕ → List (Value a) → Block a → M a (Block a)
  pack_values [] i args block = pure a block
  pack_values (c ∷ cs) i args block = do
    moved ← (if is_small c then get_value a i args c block else pack_array i args c block)
    pack_values cs (suc i) args moved

  -- The loop of `_pattern_pack` that doubles the capacity, on fuel. A capacity that overflows is no
  -- size for `malloc`.
  unfoldable pub pack_loop : ℕ → ℕ → ℕ → List ℕ → M a (List ℕ)
  pack_loop zero cap pat block = outside a
  pack_loop (suc fuel) cap pat block = if is_negative cap then outside a else do
    r ← call a (a.pattern_pack pat block cap)
    elim r [ some bytes ↦ pure a bytes | none ↦ pack_loop fuel (mul32 cap 2) pat block ]

  -- What `lua_tolstring` gives for the format: no string has no characters.
  abbrev pub format_arg : Option (Value a) → List ℕ
  format_arg v = elim (to_lstring a v) [ none ↦ [] | some s ↦ s ]

  -- `alloca(size)` with `memset`
  abbrev pub cleared : ℕ → M a (List ℕ)
  cleared size = if is_negative size then outside a else pure a (replicate size 0)

  -- `_pattern_pack`; 25 rounds bring the capacity to 2 ^ 31.
  unfoldable pub pattern_pack : Function a
  unfolding pack_values
  pattern_pack args = do
    pat ← check_userdata a 1 args
    block ← cleared (to_integer a (to_number a (arg a 3 args)))
    packed ← pack_values (format_arg (arg a 2 args)) 4 args (block, 0)
    bytes ← pack_loop 25 128 pat packed.0
    change a (a.close_arrays pat packed.0)
    pure a (string bytes ∷ [])

  -- The slice of `_pattern_unpack`.
  abbrev pub user_pointer : Option (Value a) → Option ℕ
  user_pointer (some (light p)) = some p
  user_pointer (some (userdata p)) = some p
  user_pointer _ = none

  unfoldable pub buffer_arg : List (Value a) → M a Slice
  buffer_arg args = elim (to_lstring a (arg a 4 args)) [
    | some s ↦ pure a (slice_of a s)
    | none ↦ elim (user_pointer (arg a 4 args)) [
      | none ↦ raise a "Need a userdata"
      | some p ↦ do len ← check_integer a 5 args; pure a (record { buffer = p; len = len })
    ]
  ]

  -- The items of an array, from the index `j` on, with the keys that `lua_rawseti` gives them. With
  -- no item on the stack `lua_rawseti` finds no table.
  unfoldable pub read_items : ℕ → ℕ → ℕ → ℕ → M a (List (Key a × Value a))
  read_items zero j c ptr = pure a []
  read_items (suc n) j c ptr = do
    item ← array_item a c ptr j
    elim item [
      | none ↦ outside a
      | some v ↦ do rest ← read_items n (suc j) c ptr; pure a ((index (suc j), v) ∷ rest)
    ]

  abbrev pub new_table : List (Key a × Value a) → M a (Value a)
  new_table kvs s = done (table (length s.tables)) (record s { tables = s.tables ++ kvs ∷ [] })

  unfoldable pub unpack_array : ℕ → Block a → M a (List (Value a) × ℕ)
  unpack_array c (block, ptr) =
      if leb (ptr + array_size) (length block)
      then (do
        n ← ask a (a.array_size ptr)
        kvs ← read_items n 0 c ptr
        t ← new_table kvs
        pure a (t ∷ [], ptr + array_size))
      else outside a

  -- The loop of `_pattern_unpack` over the format: the values that are pushed, in order.
  unfoldable pub unpack_values : List ℕ → Block a → M a (List (Value a) × ℕ)
  unpack_values [] (block, ptr) = pure a ([], ptr)
  unpack_values (c ∷ cs) (block, ptr) = do
    r ← (if is_small c then push_value a c (block, ptr) else unpack_array c (block, ptr))
    rest ← unpack_values cs (block, r.1)
    pure a (r.0 ++ rest.0, rest.1)

  -- The flag `array`.
  unfoldable pub has_array : List ℕ → Bool
  has_array [] = false
  has_array (c ∷ cs) = not (is_small c) || has_array cs

  -- The values that are returned, the topmost ones: there may be fewer pushed than the format has
  -- letters.
  unfoldable pub top_values : ℕ → List (Value a) → M a (List (Value a))
  top_values n vs = if leb n (length vs) then pure a (drop (length vs - n) vs) else outside a

  -- `_pattern_unpack`
  unfoldable pub pattern_unpack : Function a
  unfolding buffer_arg unpack_values has_array top_values
  pattern_unpack args = do
    pat ← check_userdata a 1 args
    let format = format_arg (arg a 2 args)
    let size = to_integer a (to_number a (arg a 3 args))
    slice ← buffer_arg args
    temp ← (if is_negative size then outside a else call a (a.pattern_unpack pat slice size))
    elim temp [
      | none ↦ pure a []
      | some block ↦ do
        r ← unpack_values format (block, 0)
        (if has_array format then change a (a.close_arrays pat block) else pure a tt)
        top_values (length format) (args ++ r.0)
    ]
