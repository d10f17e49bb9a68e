-- ===== src/Lua.antt =====
-- What the bridge takes from the Lua API, which is another project's library: the values, the state
-- of the interpreter behind the stack, and `lua_pcall`. The stack is a list with its top first, as
-- the negative indices count.
use socktestprogram.Prelude.{
  ℕ, suc, ◌-◌, ◌<◌, Bool, true, false, Option, none, some, List, [], ◌∷◌, ◌++◌, String, leb,
  if◌then◌else◌, length, take, drop, get_elem?, reverse_onto,
}

pub record Lua : Type 1 where
  pub Value : Type 0
  pub Vm : Type 0
  pub integer : ℕ → Value
  pub number : ℕ → Value
  pub string : List ℕ → Value
  pub is_function : Value → Bool
  -- `lua_tolstring` and the conversions of `luaL_checklstring` and `luaL_checkint`.
  pub to_string : Value → Option (List ℕ)
  pub to_integer : Value → Option ℕ
  pub global : String → Vm → Value
  -- A call under a message handler: the message of an error, or nothing.
  pub call : Option Value → Value → List Value → Vm → Vm × Option Value
  -- `luaL_loadfile` and `luaL_loadstring`: the chunk, a function, or the message of an error.
  pub load_file : String → Vm → Value
  pub load_string : String → Vm → Value
  -- `luaL_newstate`: `none` is NULL, when there is no memory.
  pub new_state : Option Vm
  -- `luaL_openlibs`, which leaves the stack as it was.
  pub open_libs : Vm → Vm
  -- `luaL_register` of a table of functions: the global table that has them, which is pushed.
  pub register : String → Vm → Vm × Value
  -- LUAL_BUFFERSIZE
  pub buffer_size : ℕ
  -- Documented: the size of a buffer, BUFSIZ of the C library, is not 0.
  pub buffer_size-positive : 0 < buffer_size

module _ (l : Lua) where
  pub record Machine : Type 0 where
    pub stack : List l.Value
    pub vm : l.Vm
    pub printed : List String

  -- `aborted` is a failed `assert`, `fault` an access outside the stack or a buffer.
  pub data Ran (A : Type 0) : Type 0 where
    done : A → Machine → Ran A
    aborted : Ran A
    fault : Ran A

  abbrev pub Script : Type 0 → Type 0
  Script A = Machine → Ran A

module _ {l : Lua} where
  infixl 5 ◌>>=◌ ◌>>◌
  abbrev pub ◌>>=◌ : {A B : Type 0} → Script l A → (A → Script l B) → Script l B
  ◌>>=◌ m f s = elim (m s) [ done a t ↦ f a t | aborted ↦ aborted | fault ↦ fault ]

  abbrev pub ◌>>◌ : {B : Type 0} → Script l (Unit {0}) → Script l B → Script l B
  m >> k = m >>= λ _. k

module _ (l : Lua) where
  abbrev pub skip : Script l (Unit {0})
  skip s = done tt s

  abbrev pub assert : Bool → Script l (Unit {0})
  assert b s = if b then done tt s else aborted

  abbrev pub print : String → Script l (Unit {0})
  print message s = done tt (record s { printed = s.printed ++ message ∷ [] })

  abbrev pub get_top : Script l ℕ
  get_top s = done (length s.stack) s

  abbrev pub push : l.Value → Script l (Unit {0})
  push v s = done tt (record s { stack = v ∷ s.stack })

  unfoldable pub pop : ℕ → Script l (Unit {0})
  pop n s = if leb n (length s.stack) then done tt (record s { stack = drop n s.stack }) else fault

  abbrev pub get_global : String → Script l (Unit {0})
  get_global name s = done tt (record s { stack = l.global name s.vm ∷ s.stack })

  -- `lua_isfunction(L, -1)`
  abbrev pub is_function : Script l Bool
  is_function s = elim s.stack [ [] ↦ fault | v ∷ vs ↦ done (l.is_function v) s ]

  -- `luaL_loadfile`
  abbrev pub load_file : String → Script l (Unit {0})
  load_file path s = done tt (record s { stack = l.load_file path s.vm ∷ s.stack })

  -- What `lua_pcall` leaves: the message of an error is pushed.
  abbrev pub leave : List l.Value → List String → l.Vm → Option l.Value → Ran l Bool
  leave vs out vm none = done false (record { stack = vs; vm = vm; printed = out })
  leave vs out vm (some e) = done true (record { stack = e ∷ vs; vm = vm; printed = out })

  -- `luaL_loadstring`
  abbrev pub load_string : String → Script l (Unit {0})
  load_string text s = done tt (record s { stack = l.load_string text s.vm ∷ s.stack })

  -- `luaL_register`
  abbrev pub register : String → Script l (Unit {0})
  register name s =
      done tt
        (record s { vm = (l.register name s.vm).0; stack = (l.register name s.vm).1 ∷ s.stack })

  -- `lua_pcall(L, n, 0, 0)`, without a handler.
  abbrev pub p_call_bare : ℕ → Script l Bool
  p_call_bare n s = elim (get_elem? s.stack n) [
    | none ↦ fault
    | some f ↦
        let (vm, r) = l.call none f (reverse_onto (take n s.stack) []) s.vm in
        leave (drop (suc n) s.stack) s.printed vm r
  ]

  -- `lua_pcall(L, n, 0, -h)`, with the handler at the index -h; whether it failed.
  abbrev pub p_call : ℕ → ℕ → Script l Bool
  p_call n h s = elim (get_elem? s.stack n) [
    | none ↦ fault
    | some f ↦ elim (get_elem? s.stack (h - 1)) [
      | none ↦ fault
      | some handler ↦
          let (vm, r) = l.call (some handler) f (reverse_onto (take n s.stack) []) s.vm in
          leave (drop (suc n) s.stack) s.printed vm r
    ]
  ]
