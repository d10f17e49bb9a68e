-- ===== src/Binding/Entries/Refusal.antt =====
-- The functions of the binding refuse a first argument that is no pointer.
use socktestprogram.Prelude.{◌&◌, ℕ, ◌≡◌, ◌⊎◌, inl, inr, refl, List, [], ◌∷◌, String}
use socktestprogram.Pbc.{Api}
use socktestprogram.Binding.{Value, State, M, raised, arg, to_userdata, check_userdata}
use socktestprogram.Binding.Messages.{
  integer_field, env_register, env_type, rmessage_new, rmessage_delete, rmessage_integer,
  rmessage_int32, rmessage_int64, rmessage_int52, rmessage_uint52, rmessage_real, rmessage_string,
  rmessage_message, rmessage_size, wmessage_new, wmessage_integer, wmessage_real, wmessage_string,
  wmessage_message, wmessage_int32, wmessage_int64, wmessage_int52, wmessage_uint52,
  wmessage_buffer, wmessage_buffer_string, last_error,
}
use socktestprogram.Binding.Patterns.{pattern_new, pattern_unpack, pattern_pack}
use socktestprogram.Binding.Decoding.{decode}
use socktestprogram.Binding.Entries.{Entry, binding, of_gcobj, entries}

module _ (a : Api) (call_function : ℕ → List ℕ → List ℕ → M a (Value a)) where
  -- The functions that take no pointer as their first argument, and those that pbc gets NULL from.
  abbrev pub IsExempt : String → Type 0
  IsExempt n =
      (n ≡ "_env_new") ⊎ (n ≡ "_wmessage_delete") ⊎ (n ≡ "_pattern_delete") ⊎ (n ≡ "_pattern_size")

  abbrev pub Refuses : List (Value a) → State a → String × Entry a → Type 0
  Refuses args s (n, binding f) = (f args s ≡ raised "userdata 1 is nil" s) ⊎ IsExempt n
  Refuses args s (n, of_gcobj) = Unit

  abbrev pub AllRefuse : List (Value a) → State a → List (String × Entry a) → Type 0
  AllRefuse args s [] = Unit
  AllRefuse args s (e ∷ es) = Refuses args s e × AllRefuse args s es

  module _ (args : List (Value a)) (s : State a) (null : to_userdata a (arg a 1 args) ≡ 0) where
    env_register-null : env_register a args s ≡ raised "userdata 1 is nil" s
    unfolding env_register check_userdata
    env_register-null = rw null refl

    env_type-null : env_type a args s ≡ raised "userdata 1 is nil" s
    unfolding env_type check_userdata
    env_type-null = rw null refl

    rmessage_new-null : rmessage_new a args s ≡ raised "userdata 1 is nil" s
    unfolding rmessage_new check_userdata
    rmessage_new-null = rw null refl

    rmessage_delete-null : rmessage_delete a args s ≡ raised "userdata 1 is nil" s
    unfolding rmessage_delete check_userdata
    rmessage_delete-null = rw null refl

    rmessage_integer-null : rmessage_integer a args s ≡ raised "userdata 1 is nil" s
    unfolding rmessage_integer integer_field check_userdata
    rmessage_integer-null = rw null refl

    rmessage_int32-null : rmessage_int32 a args s ≡ raised "userdata 1 is nil" s
    unfolding rmessage_int32 integer_field check_userdata
    rmessage_int32-null = rw null refl

    rmessage_int64-null : rmessage_int64 a args s ≡ raised "userdata 1 is nil" s
    unfolding rmessage_int64 integer_field check_userdata
    rmessage_int64-null = rw null refl

    rmessage_int52-null : rmessage_int52 a args s ≡ raised "userdata 1 is nil" s
    unfolding rmessage_int52 integer_field check_userdata
    rmessage_int52-null = rw null refl

    rmessage_uint52-null : rmessage_uint52 a args s ≡ raised "userdata 1 is nil" s
    unfolding rmessage_uint52 integer_field check_userdata
    rmessage_uint52-null = rw null refl

    rmessage_real-null : rmessage_real a args s ≡ raised "userdata 1 is nil" s
    unfolding rmessage_real check_userdata
    rmessage_real-null = rw null refl

    rmessage_string-null : rmessage_string a args s ≡ raised "userdata 1 is nil" s
    unfolding rmessage_string check_userdata
    rmessage_string-null = rw null refl

    rmessage_message-null : rmessage_message a args s ≡ raised "userdata 1 is nil" s
    unfolding rmessage_message check_userdata
    rmessage_message-null = rw null refl

    rmessage_size-null : rmessage_size a args s ≡ raised "userdata 1 is nil" s
    unfolding rmessage_size check_userdata
    rmessage_size-null = rw null refl

    wmessage_new-null : wmessage_new a args s ≡ raised "userdata 1 is nil" s
    unfolding wmessage_new check_userdata
    wmessage_new-null = rw null refl

    wmessage_integer-null : wmessage_integer a args s ≡ raised "userdata 1 is nil" s
    unfolding wmessage_integer check_userdata
    wmessage_integer-null = rw null refl

    wmessage_real-null : wmessage_real a args s ≡ raised "userdata 1 is nil" s
    unfolding wmessage_real check_userdata
    wmessage_real-null = rw null refl

    wmessage_string-null : wmessage_string a args s ≡ raised "userdata 1 is nil" s
    unfolding wmessage_string check_userdata
    wmessage_string-null = rw null refl

    wmessage_message-null : wmessage_message a args s ≡ raised "userdata 1 is nil" s
    unfolding wmessage_message check_userdata
    wmessage_message-null = rw null refl

    wmessage_int32-null : wmessage_int32 a args s ≡ raised "userdata 1 is nil" s
    unfolding wmessage_int32 check_userdata
    wmessage_int32-null = rw null refl

    wmessage_int64-null : wmessage_int64 a args s ≡ raised "userdata 1 is nil" s
    unfolding wmessage_int64 check_userdata
    wmessage_int64-null = rw null refl

    wmessage_int52-null : wmessage_int52 a args s ≡ raised "userdata 1 is nil" s
    unfolding wmessage_int52 check_userdata
    wmessage_int52-null = rw null refl

    wmessage_uint52-null : wmessage_uint52 a args s ≡ raised "userdata 1 is nil" s
    unfolding wmessage_uint52 check_userdata
    wmessage_uint52-null = rw null refl

    wmessage_buffer-null : wmessage_buffer a args s ≡ raised "userdata 1 is nil" s
    unfolding wmessage_buffer check_userdata
    wmessage_buffer-null = rw null refl

    wmessage_buffer_string-null : wmessage_buffer_string a args s ≡ raised "userdata 1 is nil" s
    unfolding wmessage_buffer_string check_userdata
    wmessage_buffer_string-null = rw null refl

    pattern_new-null : pattern_new a args s ≡ raised "userdata 1 is nil" s
    unfolding pattern_new check_userdata
    pattern_new-null = rw null refl

    pattern_unpack-null : pattern_unpack a args s ≡ raised "userdata 1 is nil" s
    unfolding pattern_unpack check_userdata
    pattern_unpack-null = rw null refl

    pattern_pack-null : pattern_pack a args s ≡ raised "userdata 1 is nil" s
    unfolding pattern_pack check_userdata
    pattern_pack-null = rw null refl

    last_error-null : last_error a args s ≡ raised "userdata 1 is nil" s
    unfolding last_error check_userdata
    last_error-null = rw null refl

    decode-null : decode a call_function args s ≡ raised "userdata 1 is nil" s
    unfolding decode check_userdata
    decode-null = rw null refl

  -- With a first argument that is no userdata, or is NULL, every function of `reg` but those that
  -- are named in `IsExempt` and those of the collected object raises the error "userdata 1 is nil" and
  -- changes nothing: neither the tables nor what pbc has.
  pub entries-AllRefuse :
      (args : List (Value a)) (s : State a)
      → to_userdata a (arg a 1 args) ≡ 0
      → AllRefuse args s (entries a call_function)
  entries-AllRefuse args s null =
      inr (inl refl)
      & inl (env_register-null args s null)
      & inl (env_type-null args s null)
      & inl (rmessage_new-null args s null)
      & inl (rmessage_delete-null args s null)
      & inl (rmessage_integer-null args s null)
      & inl (rmessage_int32-null args s null)
      & inl (rmessage_int64-null args s null)
      & inl (rmessage_int52-null args s null)
      & inl (rmessage_uint52-null args s null)
      & inl (rmessage_real-null args s null)
      & inl (rmessage_string-null args s null)
      & inl (rmessage_message-null args s null)
      & inl (rmessage_size-null args s null)
      & inl (wmessage_new-null args s null)
      & inr (inr (inl refl))
      & inl (wmessage_integer-null args s null)
      & inl (wmessage_real-null args s null)
      & inl (wmessage_string-null args s null)
      & inl (wmessage_message-null args s null)
      & inl (wmessage_int32-null args s null)
      & inl (wmessage_int64-null args s null)
      & inl (wmessage_int52-null args s null)
      & inl (wmessage_uint52-null args s null)
      & inl (wmessage_buffer-null args s null)
      & inl (wmessage_buffer_string-null args s null)
      & inl (pattern_new-null args s null)
      & inr (inr (inr (inl refl)))
      & inr (inr (inr (inr refl)))
      & inl (pattern_unpack-null args s null)
      & inl (pattern_pack-null args s null)
      & inl (last_error-null args s null)
      & inl (decode-null args s null)
      & tt
      & tt
      & tt
      & tt
