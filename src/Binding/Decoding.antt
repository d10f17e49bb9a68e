-- ===== src/Binding/Decoding.antt =====
-- pbc-lua.c: `_decode` and the functions that pbc calls for every field, `decode_cb`, `push_value`
-- and `new_array`. The fields of a message go into a table of the script; the values of a repeated
-- field go into one array, which a second table has under the number of the field.
pub mod Tables
pub mod Arrays
pub mod Steps
pub mod Fields
pub mod Changes
pub mod First
pub mod Messages
pub mod Target
pub mod Routes
use socktestprogram.Prelude.{
  ℕ, suc, ◌-◌, ◌/◌, ◌%◌, ◌==◌, not, ◌&&◌, Bool, true, false, Option, none, some, List, [], ◌∷◌,
  ◌++◌, if◌then◌else◌, length, set, le_bytes,
}
use socktestprogram.Pbc.{Api, Event, Slice}
use socktestprogram.Binding.{
  Value, nil, boolean, number, string, light, table, function, Key, index, field, done, raised, M,
  ◌>>=◌, ◌>>◌, pure, raise, outside, ask, arg, check_userdata, check_string, check_integer,
  slice_of,
}
use socktestprogram.Binding.Messages.{Function, joined}
use socktestprogram.Binding.Fields.{raw_get, nth_table, is_table}
use socktestprogram.Binding.Patterns.{raw_len}

-- The types of pbc.h, and its flag.
abbrev pub pbc_int : ℕ
pbc_int = 1

abbrev pub pbc_real : ℕ
pbc_real = 2

abbrev pub pbc_bool : ℕ
pbc_bool = 3

abbrev pub pbc_enum : ℕ
pbc_enum = 4

abbrev pub pbc_string : ℕ
pbc_string = 5

abbrev pub pbc_message : ℕ
pbc_message = 6

abbrev pub pbc_fixed64 : ℕ
pbc_fixed64 = 7

abbrev pub pbc_fixed32 : ℕ
pbc_fixed32 = 8

abbrev pub pbc_bytes : ℕ
pbc_bytes = 9

abbrev pub pbc_int64 : ℕ
pbc_int64 = 10

abbrev pub pbc_uint : ℕ
pbc_uint = 11

abbrev pub pbc_repeated : ℕ
pbc_repeated = 128

-- `type & PBC_REPEATED`
abbrev pub is_repeated : ℕ → Bool
is_repeated type = (type / pbc_repeated) % 2 == 1

abbrev pub same_bytes : List ℕ → List ℕ → Bool
same_bytes [] [] = true
same_bytes (x ∷ xs) (y ∷ ys) = x == y && same_bytes xs ys
same_bytes _ _ = false

module _ (a : Api) where
  abbrev pub same_key : Key a → Key a → Bool
  same_key (index i) (index j) = i == j
  same_key (field s) (field t) = same_bytes s t
  same_key _ _ = false

  -- `lua_setfield` and `lua_rawseti`: the value stands at the place of the key, or behind the others.
  abbrev pub put : Key a → Value a → List (Key a × Value a) → List (Key a × Value a)
  put k v [] = (k, v) ∷ []
  put k v ((j, w) ∷ kvs) =
      let rest = put k v kvs in if same_key k j then (k, v) ∷ kvs else (j, w) ∷ rest

  abbrev pub put_in : ℕ → Key a → Value a → M a (Unit {0})
  put_in t k v s = done tt (record s { tables = set s.tables t (put k v (nth_table a s.tables t)) })

  -- The array of a repeated field, from what the second table has for it.
  unfoldable pub array_of : ℕ → ℕ → ℕ → List ℕ → Value a → M a ℕ
  array_of target ids id key nil s =
      let t = length s.tables in
      (put_in target (field key) (table t) >> (put_in ids (index id) (table t) >> pure a t))
        (record s { tables = s.tables ++ [] ∷ [] })
  array_of target ids id key (table t) s = done t s
  array_of target ids id key other s = outside a s

  -- `new_array`
  unfoldable pub new_array : ℕ → ℕ → ℕ → List ℕ → M a ℕ
  unfolding array_of
  new_array target ids id key s =
      array_of target ids id key (raw_get a (nth_table a s.tables ids) id) s

  -- The cases of `push_value` that push a value at once.
  unfoldable pub plain_value : ℕ → Event a.Number → a.Pbc → Option (Value a)
  plain_value type e p =
      if type == pbc_int
      then some (number (a.of_int e.low))
      else if type == pbc_real
      then some (number e.real)
      else if type == pbc_bool
      then some (boolean (not (e.low == 0)))
      else if type == pbc_enum
      then some (string e.enum_name)
      else if type == pbc_bytes
      then some (string (a.bytes_at e.slice p))
      else if type == pbc_string
      then some (string (a.bytes_at e.slice p))
      else if type == pbc_fixed64
      then some (string (le_bytes 4 e.low ++ le_bytes 4 e.hi))
      else if type == pbc_fixed32
      then some (light e.low)
      else if type == pbc_int64
      then some (number (a.of_int64 (joined a (e.low, e.hi))))
      else if type == pbc_uint
      then some (number (a.of_uint64 (joined a (e.low, e.hi))))
      else none

  -- The value that `push_value` pushes: a message is decoded by the function of the script, which
  -- is a parameter.
  unfoldable pub push_plain :
      (List ℕ → List ℕ → M a (Value a)) → ℕ → Event a.Number → Option (Value a) → M a (Value a)
  push_plain f type e (some v) s = done v s
  push_plain f type e none s =
      if type == pbc_message
      then f e.type_name (a.bytes_at e.slice s.pbc) s
      else raised "Unknown type" s

  -- `push_value`
  unfoldable pub push_field : (List ℕ → List ℕ → M a (Value a)) → ℕ → Event a.Number → M a (Value a)
  unfolding push_plain
  push_field f type e s = push_plain f type e (plain_value type e s.pbc) s

  -- The value goes behind the values of the array.
  unfoldable pub append_to : ℕ → Value a → M a (Unit {0})
  append_to t v s =
      let kvs : List (Key a × Value a) = nth_table a s.tables t in
      put_in t (index (suc (raw_len a (length kvs) 0 kvs))) v s

  -- `decode_cb`, with the numbers of the two tables.
  unfoldable pub decode_cb :
      (List ℕ → List ℕ → M a (Value a)) → ℕ → ℕ → Event a.Number → M a (Unit {0})
  unfolding append_to
  decode_cb f target ids e = elim e.key [
    | none ↦ pure a tt
    | some key ↦
        if is_repeated e.type
        then (do
          v ← push_field f (e.type - pbc_repeated) e
          t ← new_array target ids e.id key
          append_to t v)
        else (do v ← push_field f e.type e; put_in target (field key) v)
  ]

  -- The calls of `decode_cb` by `pbc_decode`.
  unfoldable pub decode_all :
      (List ℕ → List ℕ → M a (Value a)) → ℕ → ℕ → List (Event a.Number) → M a (Unit {0})
  decode_all f target ids [] = pure a tt
  decode_all f target ids (e ∷ es) = do decode_cb f target ids e; decode_all f target ids es

  -- `luaL_checktype`, of a function and of a table.
  abbrev pub check_function : Option (Value a) → M a ℕ
  check_function (some (function f)) = pure a f
  check_function _ = raise a "function expected"

  abbrev pub check_table : Option (Value a) → M a ℕ
  check_table v = elim (is_table a v) [ none ↦ raise a "table expected" | some t ↦ pure a t ]

  abbrev is_string : Option (Value a) → Option (List ℕ)
  is_string (some (string s)) = some s
  is_string _ = none

  -- The data of `_decode`: a string, or a pointer with a length.
  unfoldable pub data_arg : List (Value a) → M a Slice
  data_arg args = elim (is_string (arg a 5 args)) [
    | some s ↦ pure a (slice_of a s)
    | none ↦ do
      p ← check_userdata a 5 args
      len ← check_integer a 6 args
      pure a (record { buffer = p; len = len })
  ]

  -- `_decode`, with what a call of a function of the script does.
  unfoldable pub decode : (ℕ → List ℕ → List ℕ → M a (Value a)) → Function a
  unfolding data_arg
  decode call_function args = do
    env ← check_userdata a 1 args
    f ← check_function (arg a 2 args)
    target ← check_table (arg a 3 args)
    type ← check_string a 4 args
    slice ← data_arg args
    ids ← (λ s. done (length s.tables) (record s { tables = s.tables ++ [] ∷ [] }))
    run ← ask a (a.decode env type slice)
    decode_all (call_function f) target ids run.0
    pure a (boolean (not run.1) ∷ [])
