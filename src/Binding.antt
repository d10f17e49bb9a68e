-- ===== src/Binding.antt =====
-- pbc-lua.c: the protobuf binding. A C function of Lua gets its arguments as a list, the first one
-- first, and returns the values that it pushes. This file has the values, the state and the
-- accesses to the arguments; the children have the functions.
pub mod Messages
pub mod Fields
pub mod Patterns
pub mod Decoding
pub mod Entries
use Prim.Native.String.{slice, ◌++◌ as join}
use socktestprogram.Prelude.{
  ap, ◌≡◌, ℕ, zero, suc, ◌+◌, ◌-◌, ◌*◌, ◌==◌, Bool, true, false, Option, none, some, List, [], ◌∷◌,
  ◌++◌, String, if◌then◌else◌, get_elem?, length, ◌%◌, word,
}
use socktestprogram.Pbc.{Api, Slice}

module _ (a : Api) where
  pub data Value : Type 0 where
    nil : Value
    boolean : Bool → Value
    number : a.Number → Value
    string : List ℕ → Value
    light : ℕ → Value
    userdata : ℕ → Value
    table : ℕ → Value
    function : ℕ → Value

  pub data Key : Type 0 where
    index : ℕ → Key
    field : List ℕ → Key

  -- The tables, by their numbers, and the state of pbc.
  pub record State : Type 0 where
    pub tables : List (List (Key × Value))
    pub pbc : a.Pbc

  -- `raised` is an error of Lua, `fault` an access outside a block.
  pub data Result (A : Type 0) : Type 0 where
    done : A → State → Result A
    raised : String → State → Result A
    fault : Result A

  abbrev pub M : Type 0 → Type 0
  M A = State → Result A

module _ {a : Api} where
  infixl 5 ◌>>=◌ ◌>>◌
  abbrev pub ◌>>=◌ : {A B : Type 0} → M a A → (A → M a B) → M a B
  ◌>>=◌ m f s = elim (m s) [ done x t ↦ f x t | raised e t ↦ raised e t | fault ↦ fault ]

  abbrev pub ◌>>◌ : {B : Type 0} → M a (Unit {0}) → M a B → M a B
  m >> k = m >>= λ _. k

module _ (a : Api) {A : Type 0} where
  abbrev pub pure : A → M a A
  pure x s = done x s

  abbrev pub raise : String → M a A
  raise e s = raised e s

  abbrev pub outside : M a A
  outside s = fault

  -- A call of pbc that reads, and one that returns a value and changes the state of pbc.
  abbrev pub ask : (a.Pbc → A) → M a A
  ask f s = done (f s.pbc) s

  abbrev pub call : (a.Pbc → A × a.Pbc) → M a A
  call f s = done (f s.pbc).0 (record s { pbc = (f s.pbc).1 })

  -- `none` is an error.
  abbrev pub checked : Option A → String → M a A
  checked none e s = raised e s
  checked (some x) e s = done x s

module _ (a : Api) where
  -- A call that returns a value goes on with it.
  pub >>=-done :
      {A B : Type 0} (m : M a A) (f : A → M a B) {s t : State a} {x : A}
      → m s ≡ done x t
      → ◌>>=◌ m f s ≡ f x t
  >>=-done m f e = ap (λ r. elim r [ done x t ↦ f x t | raised e t ↦ raised e t | fault ↦ fault ]) e

  abbrev pub change : (a.Pbc → a.Pbc) → M a (Unit {0})
  change f s = done tt (record s { pbc = f s.pbc })

  -- The value at a positive index of the stack; an index above the top has none.
  abbrev pub arg : ℕ → List (Value a) → Option (Value a)
  arg i args = get_elem? args (i - 1)

  -- `lua_touserdata`
  abbrev pub to_userdata : Option (Value a) → ℕ
  to_userdata (some (light p)) = p
  to_userdata (some (userdata p)) = p
  to_userdata _ = 0

  -- `lua_tolstring`
  abbrev pub to_lstring : Option (Value a) → Option (List ℕ)
  to_lstring (some (string s)) = some s
  to_lstring (some (number x)) = some (a.number_string x)
  to_lstring _ = none

  -- `lua_tonumber` with `lua_isnumber`
  abbrev pub to_number : Option (Value a) → Option a.Number
  to_number (some (number x)) = some x
  to_number (some (string s)) = a.string_number s
  to_number _ = none

  -- `lua_toboolean`
  abbrev pub to_boolean : Option (Value a) → Bool
  to_boolean none = false
  to_boolean (some nil) = false
  to_boolean (some (boolean b)) = b
  to_boolean (some other) = true

-- A `const char *` ends at the first zero byte.
unfoldable pub c_string : List ℕ → List ℕ
c_string [] = []
c_string (c ∷ cs) = let rest = c_string cs in if c == 0 then [] else c ∷ rest

module _ (a : Api) where
  -- The text of `"userdata %d is nil"` for a place among the arguments; the places that
  -- are checked are 1 and 5.
  abbrev pub nil_text : ℕ → String
  nil_text i = join "userdata " (join (slice "0123456789" i (i + 1)) " is nil")

  -- `checkuserdata`
  unfoldable pub check_userdata : ℕ → List (Value a) → M a ℕ
  check_userdata i args =
      let p = to_userdata a (arg a i args) in if p == 0 then raise a (nil_text i) else pure a p

  -- `luaL_checklstring`, `luaL_checkstring`, `luaL_checknumber` and `luaL_checkinteger` as an `int`
  unfoldable pub check_lstring : ℕ → List (Value a) → M a (List ℕ)
  check_lstring i args = checked a (to_lstring a (arg a i args)) "string expected"

  unfoldable pub check_string : ℕ → List (Value a) → M a (List ℕ)
  unfolding check_lstring
  check_string i args = do s ← check_lstring i args; pure a (c_string s)

  unfoldable pub check_number : ℕ → List (Value a) → M a a.Number
  check_number i args = checked a (to_number a (arg a i args)) "number expected"

  unfoldable pub check_integer : ℕ → List (Value a) → M a ℕ
  unfolding check_number
  check_integer i args = do x ← check_number i args; pure a (a.to_int x)

  -- `lua_tointeger`: 0 of what is no number.
  abbrev pub to_integer : Option a.Number → ℕ
  to_integer none = 0
  to_integer (some x) = a.to_int x

  -- The slice of a string of Lua.
  abbrev pub slice_of : List ℕ → Slice
  slice_of s = record { buffer = a.address s; len = length s % word }

  -- `lua_pushlightuserdata(L, p)` of an address, and `lua_pushlstring` of bytes in memory.
  unfoldable pub push_memory : Slice → M a (List (Value a))
  push_memory s = do bytes ← ask a (a.bytes_at s); pure a (string bytes ∷ [])
