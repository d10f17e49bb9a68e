-- ===== src/Binding/Decoding/Routes.antt =====
-- The two ways of pbc-lua.c from a field of a message to a value of the script: `_decode`, which
-- gets the fields reported, and the `_rmessage` functions, which ask for them.
use socktestprogram.Prelude.{ℕ, ◌<◌, ◌≡◌, refl, ap, ◌∙◌, some, List, [], ◌∷◌, ◌++◌, word, le_bytes}
use socktestprogram.Pbc.{Api, IsLawful, Event}
use socktestprogram.Binding.{
  Value, number, string, light, State, done, ◌>>=◌, pure, check_userdata, check_string,
  check_integer, push_memory, c_string, >>=-done,
}
use socktestprogram.Binding.Messages.{
  Function, integer_field, joined, rmessage_integer, rmessage_int32, rmessage_int64, rmessage_int52,
  rmessage_uint52, rmessage_real, rmessage_string,
}
use socktestprogram.Binding.Messages.Integers.{integer_field_lem, ==-ne}
use socktestprogram.Binding.Decoding.{
  plain_value, pbc_int, pbc_real, pbc_string, pbc_bytes, pbc_fixed64, pbc_fixed32, pbc_int64,
  pbc_uint,
}

module _ (a : Api) where
  -- pbc reports the field of a message as it answers when it is asked for it.
  pub record Reports (m : ℕ) (key : List ℕ) (i : ℕ) (p : a.Pbc) (e : Event a.Number) : Type 0 where
    pub halves : a.rmessage_integer m key i p ≡ (e.low, e.hi)
    pub real : a.rmessage_real m key i p ≡ e.real
    pub bytes : a.rmessage_string m key i p ≡ e.slice

  -- The function returns the value that the decoder gives to a field of the type.
  abbrev pub Agree : ℕ → List ℕ → ℕ → State a → Event a.Number → Function a → ℕ → Type 0
  Agree m key i s e read type =
      (v : Value a) × (read (light m ∷ string key ∷ number (a.of_int i) ∷ []) s ≡ done (v ∷ []) s)
      × (plain_value a type e s.pbc ≡ some v)

module _ (a : Api) (law : IsLawful a) (m : ℕ) (key : List ℕ) (i : ℕ) (s : State a)
    (e : Event a.Number) (present : 0 < m) (small : i < word)
    (reports : Reports a m (c_string key) i s.pbc e) where
  abbrev asked : List (Value a)
  asked = light m ∷ string key ∷ number (a.of_int i) ∷ []

  abbrev Same : Function a → ℕ → Type 0
  Same = Agree a m key i s e

  integers :
      (f : ℕ × ℕ → Value a)
      → ◌>>=◌ {a = a} (integer_field a asked) (λ h. pure a (f h ∷ [])) s
        ≡ done (f (e.low, e.hi) ∷ []) s
  integers f =
      >>=-done a (integer_field a asked) (λ h. pure a (f h ∷ []))
        (integer_field_lem a law m i key s present small)
      ∙ ap (λ h. done (f h ∷ []) s) reports.halves

  integer-Agree : Same (rmessage_integer a) pbc_int
  unfolding rmessage_integer plain_value
  integer-Agree = (_, integers (λ h. number (a.of_int h.0)), refl)

  int32-Agree : Same (rmessage_int32 a) pbc_fixed32
  unfolding rmessage_int32 plain_value
  int32-Agree = (_, integers (λ h. light h.0), refl)

  int64-Agree : Same (rmessage_int64 a) pbc_fixed64
  unfolding rmessage_int64 plain_value
  int64-Agree = (_, integers (λ h. string (le_bytes 4 h.0 ++ le_bytes 4 h.1)), refl)

  int52-Agree : Same (rmessage_int52 a) pbc_int64
  unfolding rmessage_int52 plain_value
  int52-Agree = (_, integers (λ h. number (a.of_int64 (joined a h))), refl)

  uint52-Agree : Same (rmessage_uint52 a) pbc_uint
  unfolding rmessage_uint52 plain_value
  uint52-Agree = (_, integers (λ h. number (a.of_uint64 (joined a h))), refl)

  real-Agree : Same (rmessage_real a) pbc_real
  unfolding rmessage_real plain_value check_userdata check_string check_integer
  real-Agree = (number e.real, rw (==-ne m present, law.to_int-of_int i small, reports.real), refl)

  string-Agree :
      (type : ℕ)
      → plain_value a type e s.pbc ≡ some (string (a.bytes_at e.slice s.pbc))
      → Same (rmessage_string a) type
  unfolding rmessage_string check_userdata check_string push_memory
  string-Agree type h = (
    string (a.bytes_at e.slice s.pbc),
    rw (==-ne m present, law.to_int-of_int i small, reports.bytes),
    h,
  )

  -- If pbc reports a field as it answers for it, the decoder and the functions of a message give the
  -- script the same value: for an `int`, the four integers of 32 and 64 bits, a number, a string and
  -- bytes.
  pub routes-Agree :
      Agree a m key i s e (rmessage_integer a) pbc_int
      × Agree a m key i s e (rmessage_int32 a) pbc_fixed32
      × Agree a m key i s e (rmessage_int64 a) pbc_fixed64
      × Agree a m key i s e (rmessage_int52 a) pbc_int64
      × Agree a m key i s e (rmessage_uint52 a) pbc_uint
      × Agree a m key i s e (rmessage_real a) pbc_real
      × Agree a m key i s e (rmessage_string a) pbc_string
      × Agree a m key i s e (rmessage_string a) pbc_bytes
  unfolding plain_value
  routes-Agree = (
    integer-Agree,
    int32-Agree,
    int64-Agree,
    int52-Agree,
    uint52-Agree,
    real-Agree,
    string-Agree pbc_string refl,
    string-Agree pbc_bytes refl,
  )
