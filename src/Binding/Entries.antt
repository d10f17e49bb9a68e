-- ===== src/Binding/Entries.antt =====
-- pbc-lua.c: `luaopen_protobuf_c`, the functions under the names by which the script calls them.
pub mod Refusal
use socktestprogram.Prelude.{
  ℕ, ◌+◌, ◌==◌, ◌≡◌, ◌⊎◌, inl, inr, refl, List, [], ◌∷◌, String, if◌then◌else◌,
}
use socktestprogram.Pbc.{Api}
use socktestprogram.Binding.{
  Value, State, M, ◌>>=◌, raised, arg, to_userdata, check_userdata, raise, pure,
}
use socktestprogram.Binding.Messages.{
  Function, integer_field, env_new, env_register, env_type, rmessage_new, rmessage_delete,
  rmessage_integer, rmessage_int32, rmessage_int64, rmessage_int52, rmessage_uint52, rmessage_real,
  rmessage_string, rmessage_message, rmessage_size, wmessage_new, wmessage_delete, wmessage_integer,
  wmessage_real, wmessage_string, wmessage_message, wmessage_int32, wmessage_int64, wmessage_int52,
  wmessage_uint52, wmessage_buffer, wmessage_buffer_string, last_error,
}
use socktestprogram.Binding.Patterns.{
  pattern_new, pattern_delete, pattern_size, pattern_unpack, pattern_pack,
}
use socktestprogram.Binding.Decoding.{decode}

module _ (a : Api) where
  -- A function of the binding; `_gc` and what it returns have their own file.
  pub data Entry : Type 0 where
    binding : Function a → Entry
    of_gcobj : Entry

module _ (a : Api) (call_function : ℕ → List ℕ → List ℕ → M a (Value a)) where
  -- The table `reg`.
  abbrev pub entries : List (String × Entry a)
  entries =
      ("_env_new", binding (env_new a))
      ∷ ("_env_register", binding (env_register a))
      ∷ ("_env_type", binding (env_type a))
      ∷ ("_rmessage_new", binding (rmessage_new a))
      ∷ ("_rmessage_delete", binding (rmessage_delete a))
      ∷ ("_rmessage_integer", binding (rmessage_integer a))
      ∷ ("_rmessage_int32", binding (rmessage_int32 a))
      ∷ ("_rmessage_int64", binding (rmessage_int64 a))
      ∷ ("_rmessage_int52", binding (rmessage_int52 a))
      ∷ ("_rmessage_uint52", binding (rmessage_uint52 a))
      ∷ ("_rmessage_real", binding (rmessage_real a))
      ∷ ("_rmessage_string", binding (rmessage_string a))
      ∷ ("_rmessage_message", binding (rmessage_message a))
      ∷ ("_rmessage_size", binding (rmessage_size a))
      ∷ ("_wmessage_new", binding (wmessage_new a))
      ∷ ("_wmessage_delete", binding (wmessage_delete a))
      ∷ ("_wmessage_integer", binding (wmessage_integer a))
      ∷ ("_wmessage_real", binding (wmessage_real a))
      ∷ ("_wmessage_string", binding (wmessage_string a))
      ∷ ("_wmessage_message", binding (wmessage_message a))
      ∷ ("_wmessage_int32", binding (wmessage_int32 a))
      ∷ ("_wmessage_int64", binding (wmessage_int64 a))
      ∷ ("_wmessage_int52", binding (wmessage_int52 a))
      ∷ ("_wmessage_uint52", binding (wmessage_uint52 a))
      ∷ ("_wmessage_buffer", binding (wmessage_buffer a))
      ∷ ("_wmessage_buffer_string", binding (wmessage_buffer_string a))
      ∷ ("_pattern_new", binding (pattern_new a))
      ∷ ("_pattern_delete", binding (pattern_delete a))
      ∷ ("_pattern_size", binding (pattern_size a))
      ∷ ("_pattern_unpack", binding (pattern_unpack a))
      ∷ ("_pattern_pack", binding (pattern_pack a))
      ∷ ("_last_error", binding (last_error a))
      ∷ ("_decode", binding (decode a call_function))
      ∷ ("_gc", of_gcobj)
      ∷ ("_add_pattern", of_gcobj)
      ∷ ("_add_rmessage", of_gcobj)
      ∷ []
