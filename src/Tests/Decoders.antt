-- ===== src/Tests/Decoders.antt =====
-- The theorem on the decoder of pbc-lua.c at a pbc that reports five fields.
use socktestprogram.Prelude.{
  ℕ, ◌==◌, ◌≡◌, inl, inr, refl, Bool, true, false, none, some, List, [], ◌∷◌, arith,
}
use socktestprogram.Pbc.{Api, Event}
use socktestprogram.Binding.{
  Value, nil, boolean, number, string, light, function, table, field, State, done, M,
}
use socktestprogram.Binding.Fields.{nth_table}
use socktestprogram.Binding.Messages.{
  Function, rmessage_integer, rmessage_int32, rmessage_int64, rmessage_int52, rmessage_uint52,
  rmessage_real, rmessage_string,
}
use socktestprogram.Binding.Decoding.{
  decode, plain_value, pbc_int, pbc_real, pbc_string, pbc_bytes, pbc_fixed64, pbc_fixed32,
  pbc_int64, pbc_uint,
}
use socktestprogram.Binding.Decoding.Routes.{Agree, routes-Agree}
use socktestprogram.Binding.Decoding.Tables.{get}
use socktestprogram.Binding.Decoding.Fields.{AllConform, Shows, values}
use socktestprogram.Binding.Decoding.Target.{decode_lem}
use socktestprogram.Tests.Bindings.{Double, toy, lawful, whole, no_slice}

-- An `int` of a field, of the type 1 or, with the flag of repeated fields, 129.
abbrev report : ℕ → ℕ → ℕ → Event Double
report type id n = record {
  type = type;
  type_name = [];
  low = n;
  hi = 0;
  real = whole 0;
  enum_name = [];
  slice = no_slice;
  id = id;
  key = some (id ∷ []);
}

-- A field that is not in the schema.
abbrev unknown : Event Double
unknown = record (report 1 9 0) { key = none }

-- The field 1 comes twice, and the repeated field 2 has two values.
abbrev reports : List (Event Double)
reports = report 1 1 5 ∷ report 129 2 7 ∷ unknown ∷ report 129 2 8 ∷ report 1 1 6 ∷ []

abbrev reporting : Api
reporting = record toy { decode = λ env type s p. (reports, false) }

abbrev names : ℕ → List ℕ
names i = i ∷ []

abbrev repeated : ℕ → Bool
repeated i = i == 2

abbrev one_table : State reporting
one_table = record { tables = ((field (4 ∷ []), number (whole 1)) ∷ []) ∷ []; pbc = (0, 0) }

abbrev no_messages : ℕ → List ℕ → List ℕ → M reporting (Value reporting)
no_messages f type bytes s = done nil s

names-injective : (i j : ℕ) → names i ≡ names j → i ≡ j
names-injective i j e = cc

reports-AllConform : AllConform reporting (0, 0) names repeated reports
unfolding plain_value
reports-AllConform = (
  inr (record { key = refl; flag = refl; value = number (whole 5); plain = refl }),
  (
    inr (record { key = refl; flag = refl; value = number (whole 7); plain = refl }),
    (
      inl refl,
      (
        inr (record { key = refl; flag = refl; value = number (whole 8); plain = refl }),
        (inr (record { key = refl; flag = refl; value = number (whole 6); plain = refl }), tt),
      ),
    ),
  ),
)

decode_lem_example :
    (t : State reporting) × (decode reporting no_messages
        (light 6 ∷ function 3 ∷ table 0 ∷ string (77 ∷ []) ∷ string (1 ∷ 2 ∷ []) ∷ [])
        one_table
      ≡ done (boolean true ∷ []) t)
    × ((i : ℕ)
        → Shows reporting t.tables
            (get reporting (field (names i)) (nth_table reporting one_table.tables 0))
            (get reporting (field (names i)) (nth_table reporting t.tables 0))
            (repeated i)
            (values reporting (0, 0) i reports))
decode_lem_example =
    decode_lem reporting no_messages names repeated names-injective 6 3 0 (77 ∷ []) (1 ∷ 2 ∷ [])
      one_table (omega arith) (omega arith) reports-AllConform

-- A field with the value 5, as it is reported and as pbc answers for it.
abbrev five : State toy
five = record { tables = []; pbc = (5, 0) }

abbrev SameValue : Function toy → ℕ → Type 0
SameValue = Agree toy 2 (110 ∷ []) 0 five (report 1 1 5)

routes-Agree_example :
    SameValue (rmessage_integer toy) pbc_int
    × SameValue (rmessage_int32 toy) pbc_fixed32
    × SameValue (rmessage_int64 toy) pbc_fixed64
    × SameValue (rmessage_int52 toy) pbc_int64
    × SameValue (rmessage_uint52 toy) pbc_uint
    × SameValue (rmessage_real toy) pbc_real
    × SameValue (rmessage_string toy) pbc_string
    × SameValue (rmessage_string toy) pbc_bytes
routes-Agree_example =
    routes-Agree toy lawful 2 (110 ∷ []) 0 five (report 1 1 5) (omega arith) (omega arith)
      (record { halves = refl; real = refl; bytes = refl })
