-- ===== src/Binding/Fields.antt =====
-- pbc-lua.c: one value of a pattern in the block of the pattern's values, `_get_value` and
-- `_push_value`, and one item of an array, `_get_array_value` and `_push_array`. A `struct pbc_slice`
-- has a pointer of eight bytes and an `int`, and sixteen bytes with its padding; a `pbc_array` has 64.
pub mod Codec
use socktestprogram.Prelude.{
  ℕ, ◌+◌, ◌-◌, ◌*◌, ◌/◌, ◌%◌, ◌==◌, not, ◌&&◌, Bool, true, false, Option, none, some, List, [], ◌∷◌,
  ◌++◌, leb, if◌then◌else◌, length, take, drop, word, is_negative, le_bytes, le_value,
}
use socktestprogram.StreamBuffer.{slice, overwrite}
use socktestprogram.Pbc.{Api, Slice}
use socktestprogram.Binding.{
  Value, nil, boolean, number, string, light, userdata, table, function, Key, index, field, State,
  done, M, ◌>>=◌, ◌>>◌, pure, raise, outside, ask, change, arg, to_userdata, to_lstring, to_number,
  to_boolean, check_lstring, check_string, check_number, check_integer, to_integer, slice_of,
  push_memory,
}

abbrev pub slice_size : ℕ
slice_size = 16

abbrev pub array_size : ℕ
array_size = 64

-- What the letters of a format mean, in either case.
pub data Letter : Type 0 where
  int uint int64 bool pointer bytes8 real str message : Letter

-- The cases of `_get_value` and `_push_value`.
unfoldable pub letter : ℕ → Option Letter
letter c =
    if c == b'i'
    then some int
    else if c == b'u'
    then some uint
    else if c == b'd'
    then some int64
    else if c == b'b'
    then some bool
    else if c == b'p'
    then some pointer
    else if c == b'x'
    then some bytes8
    else if c == b'r'
    then some real
    else if c == b's'
    then some str
    else if c == b'm'
    then some message
    else none

-- The cases of `_get_array_value` and `_push_array`, which are the capital letters.
unfoldable pub array_letter : ℕ → Option Letter
unfolding letter
array_letter c = if leb b'A' c && leb c b'Z' then letter (c + 32) else none

-- `type >= 'a' && type <= 'z'`
unfoldable pub is_small : ℕ → Bool
is_small c = leb b'a' c && leb c b'z'

-- The number of bytes by which a value moves the pointer.
unfoldable pub width : Letter → ℕ
width int = 4
width uint = 8
width int64 = 8
width bool = 4
width pointer = 4
width bytes8 = 8
width real = 8
width str = slice_size
width message = slice_size

-- The bytes of a slice that are written: the padding is left as it is.
unfoldable pub slice_bytes : Slice → List ℕ
slice_bytes s = le_bytes 8 s.buffer ++ le_bytes 4 s.len

unfoldable pub bytes_slice : List ℕ → Slice
bytes_slice b = record { buffer = le_value (take 8 b); len = le_value (take 4 (drop 8 b)) }

module _ (a : Api) where
  -- An item of a table, `nil` where there is none, with `lua_rawgeti`.
  abbrev pub is_index : ℕ → Key a → Bool
  is_index i (index j) = i == j
  is_index i (field k) = false

  abbrev pub raw_get : List (Key a × Value a) → ℕ → Value a
  raw_get [] i = nil
  raw_get ((k, v) ∷ kvs) i = let rest = raw_get kvs i in if is_index i k then v else rest

  abbrev pub nth_table : List (List (Key a × Value a)) → ℕ → List (Key a × Value a)
  nth_table [] i = []
  nth_table (t ∷ ts) ℕ.zero = t
  nth_table (t ∷ ts) (ℕ.suc i) = nth_table ts i

  abbrev pub table_slice : List (Key a × Value a) → Slice
  table_slice kvs = record {
    buffer = to_userdata a (some (raw_get kvs 1));
    len = to_integer a (to_number a (some (raw_get kvs 2)));
  }

  abbrev pub is_table : Option (Value a) → Option ℕ
  is_table (some (table t)) = some t
  is_table _ = none

  -- The slice of a message: a table of a pointer and a length, or a string.
  unfoldable pub message_slice : Option (Value a) → M a Slice
  message_slice v = elim (is_table v) [
    | some t ↦ (λ s. done (table_slice (nth_table s.tables t)) s)
    | none ↦ elim (to_lstring a v) [
      | none ↦ raise a "string expected"
      | some b ↦ pure a (slice_of a b)
    ]
  ]

  -- What `_get_value` stores for the value at an index of the stack.
  unfoldable pub encode : Letter → ℕ → List (Value a) → M a (List ℕ)
  unfolding slice_bytes message_slice
  encode int i args = do v ← check_integer a i args; pure a (le_bytes 4 v)
  encode uint i args = do x ← check_number a i args; pure a (le_bytes 8 (a.to_uint64 x))
  encode int64 i args = do x ← check_number a i args; pure a (le_bytes 8 (a.to_int64 x))
  encode bool i args = pure a (le_bytes 4 (if to_boolean a (arg a i args) then 1 else 0))
  encode pointer i args = pure a (le_bytes 4 (to_userdata a (arg a i args) % word))
  encode bytes8 i args = do
    s ← check_lstring a i args
    if leb 7 (length s) then pure a (take 8 (s ++ 0 ∷ [])) else outside a
  encode real i args = do x ← check_number a i args; pure a (a.real_bytes x)
  encode str i args = do s ← check_lstring a i args; pure a (slice_bytes (slice_of a s))
  encode message i args = do s ← message_slice (arg a i args); pure a (slice_bytes s)

  -- A block with the offset of `ptr`.
  abbrev pub Block : Type 0
  Block = List ℕ × ℕ

  -- A store at `ptr`, which must be inside the block.
  unfoldable pub store : List ℕ → ℕ → Block → M a Block
  store bytes n (block, ptr) =
      if leb (ptr + n) (length block)
      then pure a (overwrite block ptr bytes, ptr + n)
      else outside a

  -- `_get_value`
  unfoldable pub get_value : ℕ → List (Value a) → ℕ → Block → M a Block
  get_value i args c block = elim (letter c) [
    | none ↦ raise a "unknown format"
    | some l ↦ do bytes ← encode l i args; store bytes (width l) block
  ]

  -- The table of a pointer and a length that `_push_value` and `_push_array` make for a message.
  unfoldable pub push_slice_table : Slice → M a (Value a)
  push_slice_table s t = done (table (length t.tables)) (record t {
    tables = t.tables ++ ((index 1, light s.buffer) ∷ (index 2, number (a.of_int s.len)) ∷ []) ∷ [];
  })

  -- What `_push_value` pushes for the bytes at `ptr`.
  unfoldable pub decode_value : Letter → List ℕ → M a (Value a)
  unfolding bytes_slice push_slice_table
  decode_value int b = pure a (number (a.of_int (le_value b)))
  decode_value uint b = pure a (number (a.of_uint64 (le_value b)))
  decode_value int64 b = pure a (number (a.of_int64 (le_value b)))
  decode_value bool b = pure a (boolean (not (le_value b == 0)))
  decode_value pointer b = pure a (light (le_value b))
  decode_value bytes8 b = pure a (string b)
  decode_value real b = pure a (number (a.bytes_real b))
  decode_value str b = do s ← ask a (a.bytes_at (bytes_slice b)); pure a (string s)
  decode_value message b = push_slice_table (bytes_slice b)

  -- `_push_value`: the values pushed and the moved pointer; another letter pushes nothing.
  unfoldable pub push_value : ℕ → Block → M a (List (Value a) × ℕ)
  push_value c (block, ptr) = elim (letter c) [
    | none ↦ pure a ([], ptr)
    | some l ↦
        if leb (ptr + width l) (length block)
        then (do v ← decode_value l (slice block ptr (width l)); pure a (v ∷ [], ptr + width l))
        else outside a
  ]

  abbrev pub joined64 : ℕ × ℕ → ℕ
  joined64 v = v.1 * word + v.0

  -- Eight bytes of a string and its terminator, as the two halves of an integer.
  unfoldable pub push_eight : ℕ → List ℕ → M a (Unit {0})
  push_eight ptr b =
      if leb 8 (length b)
      then change a (a.array_push_integer ptr (le_value (take 4 b)) (le_value (take 4 (drop 4 b))))
      else outside a

  -- `_get_array_value`, of the item on the top of the stack, for the array at the offset `ptr`.
  unfoldable pub push_item : ℕ → ℕ → Value a → M a (Unit {0})
  unfolding message_slice push_eight
  push_item c ptr v = elim (array_letter c) [
    | none ↦ pure a tt
    | some int ↦ do
      n ← check_integer a 1 (v ∷ [])
      change a (a.array_push_integer ptr n (if is_negative n then 0xffff_ffff else 0))
    | some uint ↦ do
      x ← check_number a 1 (v ∷ [])
      change a (a.array_push_integer ptr (a.to_uint64 x % word) (a.to_uint64 x / word))
    | some int64 ↦ do
      x ← check_number a 1 (v ∷ [])
      change a (a.array_push_integer ptr (a.to_int64 x % word) (a.to_int64 x / word))
    | some bool ↦ change a (a.array_push_integer ptr (if to_boolean a (some v) then 1 else 0) 0)
    | some pointer ↦ change a (a.array_push_integer ptr (to_userdata a (some v) % word) 0)
    | some bytes8 ↦ do s ← check_lstring a 1 (v ∷ []); push_eight ptr (s ++ 0 ∷ [])
    | some real ↦ do x ← check_number a 1 (v ∷ []); change a (a.array_push_real ptr x)
    | some str ↦ do s ← check_lstring a 1 (v ∷ []); change a (a.array_push_slice ptr (slice_of a s))
    | some message ↦ do s ← message_slice (some v); change a (a.array_push_slice ptr s)
  ]

  -- What `_push_array` pushes for an item of the array at the offset `ptr`; `none` is nothing.
  unfoldable pub array_item : ℕ → ℕ → ℕ → M a (Option (Value a))
  unfolding push_slice_table
  array_item c ptr i = elim (array_letter c) [
    | none ↦ pure a none
    | some int ↦ do v ← ask a (a.array_integer ptr i); pure a (some (number (a.of_int v.0)))
    | some uint ↦ do
      v ← ask a (a.array_integer ptr i)
      pure a (some (number (a.of_uint64 (joined64 v))))
    | some int64 ↦ do
      v ← ask a (a.array_integer ptr i)
      pure a (some (number (a.of_int64 (joined64 v))))
    | some bool ↦ do v ← ask a (a.array_integer ptr i); pure a (some (boolean (not (v.0 == 0))))
    | some pointer ↦ do v ← ask a (a.array_integer ptr i); pure a (some (light v.0))
    | some bytes8 ↦ do
      v ← ask a (a.array_integer ptr i)
      pure a (some (string (le_bytes 8 (joined64 v))))
    | some real ↦ do x ← ask a (a.array_real ptr i); pure a (some (number x))
    | some str ↦ do
      s ← ask a (a.array_slice ptr i)
      b ← ask a (a.bytes_at s)
      pure a (some (string b))
    | some message ↦ do s ← ask a (a.array_slice ptr i); t ← push_slice_table s; pure a (some t)
  ]
