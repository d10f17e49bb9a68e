-- ===== src/Pbc.antt =====
-- What pbc-lua.c takes from pbc, from the numbers of Lua and from the memory of the process, none of
-- which is the binding's: a state that the calls read and change, the conversions of C, and strings
-- at addresses. Pointers are addresses, 0 is NULL; an `int` is its bit pattern below 2 ^ 32.
use socktestprogram.Prelude.{ℕ, ◌+◌, ◌≤◌, ◌<◌, ◌≡◌, ◌⊎◌, Bool, false, Option, List, length, word}

abbrev pub word64 : ℕ
word64 = 0x1_0000_0000_0000_0000

-- The whole numbers that a double has exactly: up to 2 ^ 53.
abbrev pub exact : ℕ
exact = 0x20_0000_0000_0000

-- struct pbc_slice
pub record Slice : Type 0 where
  pub buffer : ℕ
  pub len : ℕ

-- One call of the decoder by `pbc_decode`, with the value as it is read: `pbc_value` is a union.
pub record Event (Number : Type 0) : Type 0 where
  pub type : ℕ
  pub type_name : List ℕ
  pub low : ℕ
  pub hi : ℕ
  pub real : Number
  pub enum_name : List ℕ
  pub slice : Slice
  pub id : ℕ
  pub key : Option (List ℕ)

pub record Api : Type 1 where
  -- `lua_Number`, and its conversions from and to `int`, `int64_t` and `uint64_t`.
  pub Number : Type 0
  pub of_int : ℕ → Number
  pub to_int : Number → ℕ
  pub of_int64 : ℕ → Number
  pub to_int64 : Number → ℕ
  pub of_uint64 : ℕ → Number
  pub to_uint64 : Number → ℕ
  pub below_zero : Number → Bool
  pub real_bytes : Number → List ℕ
  pub bytes_real : List ℕ → Number
  pub number_string : Number → List ℕ
  pub string_number : List ℕ → Option Number
  -- pbc and the memory that it and Lua have.
  pub Pbc : Type 0
  pub address : List ℕ → ℕ
  pub bytes_at : Slice → Pbc → List ℕ
  pub pbc_new : Pbc → ℕ × Pbc
  pub pbc_register : ℕ → Slice → Pbc → ℕ × Pbc
  pub pbc_type : ℕ → List ℕ → Option (List ℕ) → Pbc → ℕ × Option (List ℕ)
  pub pbc_error : ℕ → Pbc → List ℕ
  pub rmessage_new : ℕ → List ℕ → Slice → Pbc → ℕ × Pbc
  pub rmessage_delete : ℕ → Pbc → Pbc
  pub rmessage_integer : ℕ → List ℕ → ℕ → Pbc → ℕ × ℕ
  pub rmessage_real : ℕ → List ℕ → ℕ → Pbc → Number
  pub rmessage_string : ℕ → List ℕ → ℕ → Pbc → Slice
  pub rmessage_message : ℕ → List ℕ → ℕ → Pbc → ℕ
  pub rmessage_size : ℕ → List ℕ → Pbc → ℕ
  pub wmessage_new : ℕ → List ℕ → Pbc → ℕ × Pbc
  pub wmessage_delete : ℕ → Pbc → Pbc
  pub wmessage_integer : ℕ → List ℕ → ℕ → ℕ → Pbc → Pbc
  pub wmessage_real : ℕ → List ℕ → Number → Pbc → Pbc
  pub wmessage_string : ℕ → List ℕ → Slice → Pbc → ℕ × Pbc
  pub wmessage_message : ℕ → List ℕ → Pbc → ℕ × Pbc
  pub wmessage_buffer : ℕ → Pbc → Slice × Pbc
  pub pattern_new : ℕ → List ℕ → List ℕ → Pbc → ℕ × Pbc
  pub pattern_delete : ℕ → Pbc → Pbc
  -- An array is known by its offset in the block of the pattern's values.
  pub array_size : ℕ → Pbc → ℕ
  pub array_integer : ℕ → ℕ → Pbc → ℕ × ℕ
  pub array_real : ℕ → ℕ → Pbc → Number
  pub array_slice : ℕ → ℕ → Pbc → Slice
  pub array_push_integer : ℕ → ℕ → ℕ → Pbc → Pbc
  pub array_push_real : ℕ → Number → Pbc → Pbc
  pub array_push_slice : ℕ → Slice → Pbc → Pbc
  -- `none` is a negative result, which for a packing is a buffer that is too small.
  pub pattern_pack : ℕ → List ℕ → ℕ → Pbc → Option (List ℕ) × Pbc
  pub pattern_unpack : ℕ → Slice → ℕ → Pbc → Option (List ℕ) × Pbc
  pub close_arrays : ℕ → List ℕ → Pbc → Pbc
  -- `pbc_decode`: the calls of the decoder, and whether the result is negative.
  pub decode : ℕ → List ℕ → Slice → Pbc → List (Event Number) × Bool

-- Documented: the conversions of C keep the values that both types have, a double has eight bytes,
-- an address has 64 bits.
pub record IsLawful (a : Api) : Type 0 where
  pub to_int-of_int : (w : ℕ) → w < word → a.to_int (a.of_int w) ≡ w
  pub to_int64-of_int64 :
      (w : ℕ) → (w ≤ exact) ⊎ (word64 ≤ w + exact) → w < word64 → a.to_int64 (a.of_int64 w) ≡ w
  pub to_uint64-of_uint64 : (w : ℕ) → w ≤ exact → a.to_uint64 (a.of_uint64 w) ≡ w
  pub below_zero-of_uint64 : (w : ℕ) → w < word64 → a.below_zero (a.of_uint64 w) ≡ false
  pub length-real_bytes : (x : a.Number) → length (a.real_bytes x) ≡ 8
  pub bytes_real-real_bytes : (x : a.Number) → a.bytes_real (a.real_bytes x) ≡ x
  pub address-lt : (s : List ℕ) → a.address s < word64

-- A string of Lua that is in use stays at its address.
abbrev pub IsPinned : Api → List ℕ → Type 0
IsPinned a s = (p : a.Pbc) → a.bytes_at (record { buffer = a.address s; len = length s }) p ≡ s
