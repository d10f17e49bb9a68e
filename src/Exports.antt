-- ===== src/Exports.antt =====
-- interop/exports/exports.cpp: the functions that the script calls. An argument list is the stack of
-- a C function, its first argument first.
pub mod Laws
use socktestprogram.Prelude.{
  ℕ, suc, ◌+◌, ◌-◌, ◌%◌, ◌==◌, Bool, not, Option, none, some, List, [], String, if◌then◌else◌,
  length, take, get_elem?, word, is_negative,
}
use socktestprogram.Host.{ByteOrder}
use socktestprogram.Lua.{Lua}
use socktestprogram.Script.{Filled, filled, outside, out_of_fuel, fill, concat}
use socktestprogram.Manager.{World, Outcome, manager_write, connect_to}

-- `lua_error` leaves the function by the error of luaL_error or of an argument check; `answered` has
-- what became of the call of SockSessionManager.
pub data Answer : Type 0 where
  answered : Outcome → Answer
  lua_error : String → Answer

-- `loaded` has the string that is returned and the number of blocks allocated and not freed.
pub data Loaded (V : Type 0) : Type 0 where
  loaded : V → ℕ → Loaded V
  refused : String → Loaded V
  fault : Loaded V

module _ (l : Lua) (c_string : List ℕ → String) where
  -- `lua_tolstring`, of an argument that may be absent: `none` is a null pointer.
  unfoldable pub string_arg : ℕ → List l.Value → Option (List ℕ)
  string_arg i args = elim (get_elem? args (i - 1)) [ none ↦ none | some v ↦ l.to_string v ]

  -- `luaL_checkint`
  unfoldable pub int_arg : ℕ → List l.Value → Option ℕ
  int_arg i args = elim (get_elem? args (i - 1)) [ none ↦ none | some v ↦ l.to_integer v ]

  -- A null string leaves the size at 0.
  unfoldable pub bytes_of : Option (List ℕ) → List ℕ
  bytes_of none = []
  bytes_of (some bytes) = bytes

  -- sendBuffer. The size is a `size_t` that is passed as an `int`.
  unfoldable pub send_buffer : ByteOrder → ℕ → List l.Value → World → Answer
  unfolding string_arg int_arg bytes_of
  send_buffer o now args w =
      if not (length args == 2)
      then lua_error "Missing parameters for SenderBuffer"
      else (let buffer = bytes_of (string_arg 1 args) in
          elim (int_arg 2 args) [
            | none ↦ lua_error "bad argument"
            | some typecode ↦
                answered (manager_write o now typecode buffer (length buffer % word) w)
          ])

  -- connectServer; `luaL_checkstring` gives a C string.
  unfoldable pub connect_server : (String → String → Option ℕ) → ℕ → List l.Value → World → Answer
  unfolding string_arg
  connect_server resolve now args w =
      if not (length args == 4)
      then lua_error "connect server parameter missing"
      else elim (string_arg 1 args) [
        | none ↦ lua_error "bad argument"
        | some host ↦ elim (string_arg 2 args) [
          | none ↦ lua_error "bad argument"
          | some port ↦ elim (string_arg 3 args) [
            | none ↦ lua_error "bad argument"
            | some server_id ↦ elim (string_arg 4 args) [
              | none ↦ lua_error "bad argument"
              | some descr ↦ answered (
                  connect_to resolve now (c_string host) (c_string port) (c_string server_id)
                    (c_string descr) w)
            ]
          ]
        ]
      ]

  -- The end of loadBinaryFileForLua: the block that `new` made is not deleted.
  unfoldable pub load_end : ℕ → Filled → Loaded l.Value
  load_end live (filled cs) = loaded (l.string (concat cs)) (live + 1)
  load_end live outside = fault
  load_end live out_of_fuel = fault

  -- The block has the size of the file as an `unsigned int`. The first round of the copy takes a
  -- size that is negative as an `int` for the size of its chunk.
  unfoldable pub load_content : ℕ → List ℕ → Loaded l.Value
  unfolding load_end
  load_content live content =
      let size = length content % word in
      if is_negative size
      then fault
      else load_end live (fill (suc size) l.buffer_size size (take size content))

  -- loadBinaryFileForLua. `fopen` gives what the file holds.
  unfoldable pub load_binary_file : (String → Option (List ℕ)) → List l.Value → ℕ → Loaded l.Value
  unfolding string_arg load_content
  load_binary_file fopen args live = elim (string_arg 1 args) [
    | none ↦ refused "bad argument"
    | some name ↦ elim (fopen (c_string name)) [
      | none ↦ refused "Cannot fopen"
      | some content ↦ load_content live content
    ]
  ]
