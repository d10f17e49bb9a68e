-- ===== src/Binding/Messages.antt =====
-- pbc-lua.c: the functions for environments and messages, from `_env_new` to `_wmessage_buffer_string`,
-- and `_last_error`.
pub mod Integers
pub mod Relays
use socktestprogram.Prelude.{
  ℕ, ◌+◌, ◌*◌, ◌/◌, ◌%◌, ◌==◌, not, Bool, true, false, Option, none, some, List, String, [], ◌∷◌,
  ◌++◌, if◌then◌else◌, length, take, drop, word, is_negative, le_bytes, le_value,
}
use socktestprogram.Pbc.{Api, Slice}
use socktestprogram.Binding.{
  Value, nil, boolean, number, string, light, userdata, table, function, M, ◌>>=◌, ◌>>◌, pure,
  raise, ask, call, change, arg, to_userdata, to_lstring, to_number, check_userdata, check_lstring,
  check_string, check_number, check_integer, to_integer, slice_of, push_memory, c_string,
}

module _ (a : Api) where
  abbrev Args : Type 0
  Args = List (Value a)

  -- A C function of Lua.
  abbrev pub Function : Type 0
  Function = List (Value a) → M a (List (Value a))

  -- `_env_new`
  unfoldable pub env_new : Function
  env_new args = do env ← call a a.pbc_new; pure a (light env ∷ [])

  -- `_env_register`
  unfoldable pub env_register : Function
  env_register args = do
    env ← check_userdata a 1 args
    buffer ← check_lstring a 2 args
    ret ← call a (a.pbc_register env (slice_of a buffer))
    if not (ret == 0) then raise a "register fail" else pure a []

  -- The slice of a string, or of a pointer with a length.
  unfoldable pub slice_arg : ℕ → List (Value a) → M a Slice
  slice_arg i args = elim (to_lstring a (arg a i args)) [
    | some s ↦ pure a (slice_of a s)
    | none ↦ do
      len ← check_integer a (i + 1) args
      pure a (record { buffer = to_userdata a (arg a i args); len = len })
  ]

  -- `_rmessage_new`
  unfoldable pub rmessage_new : Function
  rmessage_new args = do
    env ← check_userdata a 1 args
    type_name ← check_string a 2 args
    slice ← slice_arg 3 args
    m ← call a (a.rmessage_new env type_name slice)
    if m == 0 then pure a [] else pure a (light m ∷ [])

  -- `_rmessage_delete`
  unfoldable pub rmessage_delete : Function
  rmessage_delete args = do m ← check_userdata a 1 args; change a (a.rmessage_delete m); pure a []

  -- The halves of an integer field: the arguments are a message, a key and an index.
  unfoldable pub integer_field : List (Value a) → M a (ℕ × ℕ)
  integer_field args = do
    m ← check_userdata a 1 args
    key ← check_string a 2 args
    index ← check_integer a 3 args
    ask a (a.rmessage_integer m key index)

  abbrev pub joined : ℕ × ℕ → ℕ
  joined v = v.1 * word + v.0

  -- `_rmessage_integer`
  unfoldable pub rmessage_integer : Function
  unfolding integer_field
  rmessage_integer args = do v ← integer_field args; pure a (number (a.of_int v.0) ∷ [])

  -- `_rmessage_int32`
  unfoldable pub rmessage_int32 : Function
  unfolding integer_field
  rmessage_int32 args = do v ← integer_field args; pure a (light v.0 ∷ [])

  -- `_rmessage_int64`
  unfoldable pub rmessage_int64 : Function
  unfolding integer_field
  rmessage_int64 args = do
    v ← integer_field args
    pure a (string (le_bytes 4 v.0 ++ le_bytes 4 v.1) ∷ [])

  -- `_rmessage_int52`
  unfoldable pub rmessage_int52 : Function
  unfolding integer_field
  rmessage_int52 args = do v ← integer_field args; pure a (number (a.of_int64 (joined v)) ∷ [])

  -- `_rmessage_uint52`
  unfoldable pub rmessage_uint52 : Function
  unfolding integer_field
  rmessage_uint52 args = do v ← integer_field args; pure a (number (a.of_uint64 (joined v)) ∷ [])

  -- `_rmessage_real`
  unfoldable pub rmessage_real : Function
  rmessage_real args = do
    m ← check_userdata a 1 args
    key ← check_string a 2 args
    index ← check_integer a 3 args
    v ← ask a (a.rmessage_real m key index)
    pure a (number v ∷ [])

  -- `_rmessage_string`
  unfoldable pub rmessage_string : Function
  rmessage_string args = do
    m ← check_userdata a 1 args
    key ← check_string a 2 args
    v ← ask a (a.rmessage_string m key (to_integer a (to_number a (arg a 3 args))))
    push_memory a v

  -- `_rmessage_message`
  unfoldable pub rmessage_message : Function
  rmessage_message args = do
    m ← check_userdata a 1 args
    key ← check_string a 2 args
    v ← ask a (a.rmessage_message m key (to_integer a (to_number a (arg a 3 args))))
    pure a (light v ∷ [])

  -- `_rmessage_size`
  unfoldable pub rmessage_size : Function
  rmessage_size args = do
    m ← check_userdata a 1 args
    key ← check_string a 2 args
    sz ← ask a (a.rmessage_size m key)
    pure a (number (a.of_int sz) ∷ [])

  abbrev pub is_nil : Option (Value a) → Bool
  is_nil none = true
  is_nil (some nil) = true
  is_nil (some other) = false

  -- What `pbc_type` answers for a key; the name of the type may be absent.
  abbrev pub type_answer : ℕ × Option (List ℕ) → List (Value a)
  type_answer (ret, none) = number (a.of_int ret) ∷ []
  type_answer (ret, some type) = number (a.of_int ret) ∷ string (c_string type) ∷ []

  -- `_env_type` without a key.
  unfoldable pub message_type : ℕ → List ℕ → M a (List (Value a))
  message_type env type_name = do
    r ← ask a (a.pbc_type env type_name none)
    pure a (boolean (not (r.0 == 0)) ∷ [])

  -- `_env_type` with a key.
  unfoldable pub field_type : ℕ → List ℕ → List (Value a) → M a (List (Value a))
  field_type env type_name args = do
    key ← check_string a 3 args
    r ← ask a (a.pbc_type env type_name (some key))
    pure a (type_answer r)

  -- `_env_type`
  unfoldable pub env_type : Function
  unfolding message_type field_type
  env_type args = do
    env ← check_userdata a 1 args
    type_name ← check_string a 2 args
    if is_nil (arg a 3 args) then message_type env type_name else field_type env type_name args

  -- `_wmessage_new`
  unfoldable pub wmessage_new : Function
  wmessage_new args = do
    env ← check_userdata a 1 args
    type_name ← check_string a 2 args
    m ← call a (a.wmessage_new env type_name)
    pure a (light m ∷ [])

  -- `_wmessage_delete`
  unfoldable pub wmessage_delete : Function
  wmessage_delete args = do change a (a.wmessage_delete (to_userdata a (arg a 1 args))); pure a []

  -- `_wmessage_integer`; the high half of a negative number is ~0.
  unfoldable pub wmessage_integer : Function
  wmessage_integer args = do
    m ← check_userdata a 1 args
    key ← check_string a 2 args
    n ← check_integer a 3 args
    change a (a.wmessage_integer m key n (if is_negative n then 0xffff_ffff else 0))
    pure a []

  -- `_wmessage_real`
  unfoldable pub wmessage_real : Function
  wmessage_real args = do
    m ← check_userdata a 1 args
    key ← check_string a 2 args
    x ← check_number a 3 args
    change a (a.wmessage_real m key x)
    pure a []

  -- `_wmessage_string`
  unfoldable pub wmessage_string : Function
  wmessage_string args = do
    m ← check_userdata a 1 args
    key ← check_string a 2 args
    v ← check_lstring a 3 args
    err ← call a (a.wmessage_string m key (slice_of a v))
    if not (err == 0) then raise a "Write string error" else pure a []

  -- `_wmessage_message`
  unfoldable pub wmessage_message : Function
  wmessage_message args = do
    m ← check_userdata a 1 args
    key ← check_string a 2 args
    v ← call a (a.wmessage_message m key)
    pure a (light v ∷ [])

  -- The pointer of a light userdata.
  abbrev pub light_arg : Option (Value a) → Option ℕ
  light_arg (some (light p)) = some p
  light_arg _ = none

  -- `_wmessage_int32`
  unfoldable pub wmessage_int32 : Function
  wmessage_int32 args = do
    m ← check_userdata a 1 args
    key ← check_string a 2 args
    elim (light_arg (arg a 3 args)) [
      | none ↦ raise a "Need a lightuserdata for int32"
      | some p ↦ do change a (a.wmessage_integer m key (p % word) 0); pure a []
    ]

  -- The two halves that `_wmessage_int64` finds in its third argument.
  abbrev pub int64_arg : Option (Value a) → Option (ℕ × ℕ)
  int64_arg (some (string s)) =
      if length s == 8 then some (le_value (take 4 s), le_value (take 4 (drop 4 s))) else none
  int64_arg (some (light p)) = some (p % word, p / word % word)
  int64_arg _ = none

  abbrev int64_error : Option (Value a) → String
  int64_error (some (string s)) = "Need an 8 length string for int64"
  int64_error _ = "Need an int64 type"

  -- `_wmessage_int64`
  unfoldable pub wmessage_int64 : Function
  wmessage_int64 args = do
    m ← check_userdata a 1 args
    key ← check_string a 2 args
    elim (int64_arg (arg a 3 args)) [
      | none ↦ raise a (int64_error (arg a 3 args))
      | some v ↦ do change a (a.wmessage_integer m key v.0 v.1); pure a []
    ]

  -- `_wmessage_int52`
  unfoldable pub wmessage_int52 : Function
  wmessage_int52 args = do
    m ← check_userdata a 1 args
    key ← check_string a 2 args
    x ← check_number a 3 args
    let v = a.to_int64 x
    change a (a.wmessage_integer m key (v % word) (v / word))
    pure a []

  -- `_wmessage_uint52`
  unfoldable pub wmessage_uint52 : Function
  wmessage_uint52 args = do
    m ← check_userdata a 1 args
    key ← check_string a 2 args
    x ← check_number a 3 args
    if a.below_zero x then raise a "negative number passed to unsigned field" else do
      let v = a.to_uint64 x
      change a (a.wmessage_integer m key (v % word) (v / word))
      pure a []

  -- `_wmessage_buffer`
  unfoldable pub wmessage_buffer : Function
  wmessage_buffer args = do
    m ← check_userdata a 1 args
    slice ← call a (a.wmessage_buffer m)
    pure a (light slice.buffer ∷ number (a.of_int slice.len) ∷ [])

  -- `_wmessage_buffer_string`
  unfoldable pub wmessage_buffer_string : Function
  wmessage_buffer_string args = do
    m ← check_userdata a 1 args
    slice ← call a (a.wmessage_buffer m)
    push_memory a slice

  -- `_last_error`
  unfoldable pub last_error : Function
  last_error args = do
    env ← check_userdata a 1 args
    err ← ask a (a.pbc_error env)
    pure a (string (c_string err) ∷ [])
