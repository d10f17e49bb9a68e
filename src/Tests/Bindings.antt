-- ===== src/Tests/Bindings.antt =====
-- The theorems on pbc-lua.c at a concrete pbc, which keeps the last integer that was written.
use socktestprogram.Prelude.{
  ◌&◌, ℕ, ◌+◌, ◌-◌, ◌%◌, ◌==◌, ◌≤◌, ◌<◌, ◌≡◌, ◌⊎◌, inr, refl, Bool, true, false, none, some, List,
  [], ◌∷◌, arith, if◌then◌else◌, leb, le→leb, lt→leb, le_bytes, le_value, length, replicate, word,
}
use socktestprogram.Pbc.{Api, IsLawful, Slice, word64, exact}
use socktestprogram.Binding.{Value, nil, number, string, light, table, index, State, done, c_string}
use socktestprogram.Binding.Messages.{
  wmessage_integer, rmessage_integer, wmessage_int32, rmessage_int32, wmessage_int64,
  rmessage_int64, wmessage_int52, rmessage_int52, wmessage_uint52, rmessage_uint52, Function,
}
use socktestprogram.Binding.Messages.Relays.{Carries, relayed, Gives, integers-relayed}
use socktestprogram.Binding.Fields.{letter, array_letter, width}
use socktestprogram.Binding.Fields.Codec.{
  Field, int_field, uint_field, int64_field, bool_field, pointer_field, bytes8_field, real_field,
  str_field,
}
use socktestprogram.Binding.Patterns.{size_of, total_size, pack_values, unpack_values, pack_loop}
use socktestprogram.Binding.Patterns.Exchange.{format_of, values_of, values-exchanged}
use socktestprogram.Binding.Patterns.Steps.{Safe, Moved}
use socktestprogram.Binding.Patterns.Space.{pack_values-Safe}
use socktestprogram.Binding.Patterns.Growth.{Fits, pack_loop-done}
use socktestprogram.Binding.Entries.{entries}
use socktestprogram.Binding.Entries.Refusal.{AllRefuse, entries-AllRefuse}

pub data Double : Type 0 where
  whole : ℕ → Double
  below : ℕ → Double

abbrev pub no_slice : Slice
no_slice = record { buffer = 0; len = 0 }

abbrev pub of_word : ℕ → ℕ → ℕ → Double
of_word half size w = if leb half w then below (size - w) else whole w

abbrev pub to_word : ℕ → Double → ℕ
to_word size (whole n) = n % size
to_word size (below n) = size - n

abbrev pub is_below : Double → Bool
is_below (whole n) = false
is_below (below n) = true

abbrev pub double_bytes : Double → List ℕ
double_bytes (whole n) = 0 ∷ n ∷ replicate 6 0
double_bytes (below n) = 1 ∷ n ∷ replicate 6 0

abbrev pub bytes_double : List ℕ → Double
bytes_double (s ∷ n ∷ rest) = if s == 0 then whole n else below n
bytes_double _ = whole 0

abbrev pub toy : Api
toy = record {
  Number = Double;
  of_int = of_word 0x8000_0000 word;
  to_int = to_word word;
  of_int64 = of_word 0x8000_0000_0000_0000 word64;
  to_int64 = to_word word64;
  of_uint64 = whole;
  to_uint64 = to_word word64;
  below_zero = is_below;
  real_bytes = double_bytes;
  bytes_real = bytes_double;
  number_string = λ x. [];
  string_number = λ s. none;
  Pbc = ℕ × ℕ;
  address = λ s. le_value s % word64;
  bytes_at = λ s p. le_bytes s.len s.buffer;
  pbc_new = λ p. (1, p);
  pbc_register = λ env s p. (0, p);
  pbc_type = λ env type key p. (0, none);
  pbc_error = λ env p. [];
  rmessage_new = λ env type s p. (2, p);
  rmessage_delete = λ m p. p;
  rmessage_integer = λ m key i p. p;
  rmessage_real = λ m key i p. whole 0;
  rmessage_string = λ m key i p. no_slice;
  rmessage_message = λ m key i p. 3;
  rmessage_size = λ m key p. 0;
  wmessage_new = λ env type p. (4, p);
  wmessage_delete = λ m p. p;
  wmessage_integer = λ m key low hi p. (low, hi);
  wmessage_real = λ m key x p. p;
  wmessage_string = λ m key s p. (0, p);
  wmessage_message = λ m key p. (5, p);
  wmessage_buffer = λ m p. (no_slice, p);
  pattern_new = λ env message format p. (6, p);
  pattern_delete = λ pat p. p;
  array_size = λ ptr p. 0;
  array_integer = λ ptr i p. p;
  array_real = λ ptr i p. whole 0;
  array_slice = λ ptr i p. no_slice;
  array_push_integer = λ ptr low hi p. (low, hi);
  array_push_real = λ ptr x p. p;
  array_push_slice = λ ptr s p. p;
  pattern_pack = λ pat block cap p. if leb (length block) cap then (some block, p) else (none, p);
  pattern_unpack = λ pat s n p. (some (replicate n 0), p);
  close_arrays = λ pat block p. p;
  decode = λ env type s p. ([], false);
}

to_int-of_word : (w : ℕ) → w < word → to_word word (of_word 0x8000_0000 word w) ≡ w
to_int-of_word w h = ground arith

to_int64-of_word :
    (w : ℕ)
    → (w ≤ exact) ⊎ (word64 ≤ w + exact)
    → w < word64
    → to_word word64 (of_word 0x8000_0000_0000_0000 word64 w) ≡ w
to_int64-of_word w e h = ground arith

length-double_bytes : (x : Double) → length (double_bytes x) ≡ 8
length-double_bytes (whole n) = refl
length-double_bytes (below n) = refl

bytes_double-double_bytes : (x : Double) → bytes_double (double_bytes x) ≡ x
bytes_double-double_bytes (whole n) = refl
bytes_double-double_bytes (below n) = refl

pub lawful : IsLawful toy
lawful = record {
  to_int-of_int = to_int-of_word;
  to_int64-of_int64 = to_int64-of_word;
  to_uint64-of_uint64 = λ w h. omega arith;
  below_zero-of_uint64 = λ w h. refl;
  length-real_bytes = length-double_bytes;
  bytes_real-real_bytes = bytes_double-double_bytes;
  address-lt = λ s. omega arith;
}

abbrev idle : State toy
idle = record { tables = []; pbc = (0, 0) }

-- One value of every letter, with negative numbers and an empty string among them.
abbrev fields : List (Field toy)
fields =
    int_field 0xffff_fffe
    ∷ uint_field exact
    ∷ int64_field 0xffff_ffff_ffff_fffd
    ∷ bool_field true
    ∷ pointer_field 0x1234
    ∷ bytes8_field (1 ∷ 2 ∷ 3 ∷ 4 ∷ 5 ∷ 6 ∷ 7 ∷ 8 ∷ [])
    ∷ real_field (below 3)
    ∷ str_field (104 ∷ 105 ∷ [])
    ∷ str_field []
    ∷ []

values-exchanged_example :
    (block : List ℕ) × (length block ≡ total_size 0 (format_of toy fields))
    × (pack_values toy
          (format_of toy fields)
          4
          (light 6 ∷ string (format_of toy fields) ∷ nil ∷ values_of toy fields)
          (replicate (total_size 0 (format_of toy fields)) 0, 0)
          idle
        ≡ done (block, total_size 0 (format_of toy fields)) idle)
    × (unpack_values toy (format_of toy fields) (block, 0) idle
        ≡ done (values_of toy fields, total_size 0 (format_of toy fields)) idle)
unfolding width
values-exchanged_example =
    values-exchanged toy lawful fields (light 6) (string (format_of toy fields)) nil idle idle
      (omega arith
        & omega arith
        & (inr (omega arith), omega arith)
        & tt
        & omega arith
        & refl
        & tt
        & (omega arith, λ p. refl)
        & (omega arith, λ p. refl)
        & tt)
      (omega arith)

-- An `int`, an array of integers and a string, with the arguments for them.
abbrev mixed : List ℕ
mixed = b'i' ∷ b'I' ∷ b's' ∷ []

abbrev mixed_args : List (Value toy)
mixed_args =
    light 6 ∷ string mixed ∷ nil ∷ number (whole 5) ∷ table 0 ∷ string (104 ∷ 105 ∷ []) ∷ []

abbrev with_table : State toy
with_table = record {
  tables = ((index 1, number (whole 7)) ∷ (index 2, number (below 7)) ∷ []) ∷ [];
  pbc = (0, 0);
}

pack_values-Safe_example :
    Safe toy
      (Moved toy lawful (replicate (total_size 0 mixed) 0) (total_size 0 mixed))
      (pack_values toy mixed 4 mixed_args (replicate (total_size 0 mixed) 0, 0) with_table)
unfolding size_of letter array_letter
pack_values-Safe_example =
    pack_values-Safe toy lawful mixed 4 mixed_args with_table
      (λ h. cc, λ h. cc, (λ h. cc, λ h. cc, (λ h. cc, λ h. cc, tt))) (omega arith)

-- A packing of 200 bytes, which does not fit in the first 128.
abbrev large_block : List ℕ
large_block = replicate 200 1

large-Fits : Fits toy 6 large_block 200 large_block (0, 0) (0, 0)
large-Fits = record {
  small = λ cap h. rw (lt→leb 200 cap h);
  large = λ cap h. rw (le→leb 200 cap h);
}

pack_loop-done_example : pack_loop toy 25 128 6 large_block idle ≡ done large_block idle
pack_loop-done_example =
    pack_loop-done toy 6 large_block 200 large_block idle (0, 0) large-Fits (omega arith)

carries : Carries toy (λ p. p) 4 2 (c_string (110 ∷ [])) 0
carries = record { same = λ low hi p h k. refl }

-- What is written to the field `n` of the message 4 and read from the message 2.
abbrev Passes : Function toy → Function toy → Value toy → Value toy → Type 0
Passes write read v u =
    Gives toy lawful (relayed toy lawful write read (λ p. p) 4 2 (110 ∷ []) 0 v) idle u

abbrev eight : List ℕ
eight = 1 ∷ 2 ∷ 3 ∷ 4 ∷ 5 ∷ 6 ∷ 7 ∷ 8 ∷ []

integers-relayed_example :
    Passes (wmessage_int52 toy) (rmessage_int52 toy) (number (below 3)) (number (below 3))
    × Passes
        (wmessage_uint52 toy)
        (rmessage_uint52 toy)
        (number (whole exact))
        (number (whole exact))
    × Passes (wmessage_int32 toy) (rmessage_int32 toy) (light 0x1234) (light 0x1234)
    × Passes (wmessage_int64 toy) (rmessage_int64 toy) (string eight) (string eight)
    × Passes (wmessage_integer toy) (rmessage_integer toy) (number (below 2)) (number (below 2))
integers-relayed_example =
    integers-relayed toy lawful (λ p. p) 4 2 (110 ∷ []) 0 idle carries (omega arith) (omega arith)
      (omega arith) 0xffff_ffff_ffff_fffd exact 0x1234 0xffff_fffe eight (inr (omega arith))
      (omega arith) (omega arith) (omega arith) (omega arith) refl
      (omega arith
        & omega arith
        & omega arith
        & omega arith
        & omega arith
        & omega arith
        & omega arith
        & omega arith
        & tt)

entries-AllRefuse_example :
    AllRefuse toy
      (λ f type bytes. λ s. done nil s)
      (light 0 ∷ [])
      idle
      (entries toy (λ f type bytes. λ s. done nil s))
entries-AllRefuse_example =
    entries-AllRefuse toy (λ f type bytes. λ s. done nil s) (light 0 ∷ []) idle refl
