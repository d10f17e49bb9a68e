-- ===== src/Tests/Scripts.antt =====
-- The theorems on the bridge to Lua at a concrete interpreter.
use socktestprogram.Prelude.{
  ℕ, ◌≡◌, refl, Bool, true, false, Option, none, some, List, [], ◌∷◌, String, arith,
}
use socktestprogram.Host.{x86}
use socktestprogram.Lua.{Lua, Machine, done, aborted}
use socktestprogram.Script.{
  filled, fill, concat, on_decode_buffer, on_server_connection_established, frame_update, load_init,
}
use socktestprogram.Script.Chunks.{AreWithin, fill_lem}
use socktestprogram.Script.Calls.{
  on_decode_buffer_lem, on_server_connection_established_lem, frame_update_lem, load_init_lem,
}
use socktestprogram.Session.{create, post_closed}
use socktestprogram.Manager.{World, ok, service}
use socktestprogram.Manager.Connect.{with_new, new_session}
use socktestprogram.Exports.{answered, loaded, send_buffer, connect_server, load_binary_file}
use socktestprogram.Exports.Laws.{sent, send_buffer_lem, connect_server_lem, load_binary_file_lem}

pub data Value : Type 0 where
  number : ℕ → Value
  string : List ℕ → Value
  function : String → Value

abbrev pub string_of : Value → Option (List ℕ)
string_of (number n) = none
string_of (string s) = some s
string_of (function f) = none

abbrev pub number_of : Value → Option ℕ
number_of (number n) = some n
number_of (string s) = none
number_of (function f) = none

abbrev pub is_a_function : Value → Bool
is_a_function (number n) = false
is_a_function (string s) = false
is_a_function (function f) = true

-- An interpreter that remembers the calls, as the functions and arguments. A call with no argument
-- or with a string alone fails.
abbrev pub calling : Option Value → Value → List Value → List Value → List Value × Option Value
calling h f [] vm = (f ∷ vm, some (string []))
calling h f (string s ∷ []) vm = (f ∷ string s ∷ vm, some (string []))
calling h f (number n ∷ []) vm = (f ∷ number n ∷ vm, none)
calling h f (function n ∷ []) vm = (f ∷ vm, none)
calling h f (a ∷ b ∷ cs) vm = (f ∷ a ∷ b ∷ vm, none)

abbrev pub lua : Lua
lua = record {
  Value = Value;
  Vm = List Value;
  integer = number;
  number = number;
  string = string;
  is_function = is_a_function;
  to_string = string_of;
  to_integer = number_of;
  global = λ name vm. function name;
  call = calling;
  load_file = λ path vm. function path;
  load_string = λ text vm. number 0;
  new_state = some [];
  open_libs = λ vm. vm;
  register = λ name vm. (vm, string []);
  buffer_size = 2;
  buffer_size-positive = omega arith;
}

abbrev pub machine : Machine lua
machine = record { stack = number 7 ∷ []; vm = []; printed = [] }

-- Five bytes in chunks of two.
fill_lem_example :
    (cs : List (List ℕ)) × (fill 6 2 5 (1 ∷ 2 ∷ 3 ∷ 4 ∷ 5 ∷ 6 ∷ []) ≡ filled cs)
    × (concat cs ≡ 1 ∷ 2 ∷ 3 ∷ 4 ∷ 5 ∷ [])
    × AreWithin 2 cs
fill_lem_example =
    fill_lem 6 2 5 (1 ∷ 2 ∷ 3 ∷ 4 ∷ 5 ∷ 6 ∷ []) (omega arith) (omega arith) (omega arith)

on_decode_buffer_lem_example :
    on_decode_buffer lua 258 (1 ∷ 2 ∷ 3 ∷ []) 3 machine
    ≡ done tt (record machine {
      vm = function "redirectNetBuffer" ∷ number 258 ∷ string (1 ∷ 2 ∷ 3 ∷ []) ∷ [];
    })
on_decode_buffer_lem_example =
    on_decode_buffer_lem lua machine refl 258 (1 ∷ 2 ∷ 3 ∷ []) 3 (omega arith) refl

-- The call fails, so the `assert` does.
on_server_connection_established_lem_example :
    on_server_connection_established lua (1 ∷ []) machine ≡ aborted
on_server_connection_established_lem_example =
    on_server_connection_established_lem lua machine refl (1 ∷ []) refl

frame_update_lem_example :
    frame_update lua 16 machine
    ≡ done tt (record machine { vm = function "frameUpdate" ∷ number 16 ∷ [] })
frame_update_lem_example = frame_update_lem lua machine refl 16 refl

load_init_lem_example :
    load_init lua "init.lua" machine
    ≡ done tt (record machine {
      vm = function "init.lua" ∷ [];
      printed = "Error loading init script" ∷ [];
    })
load_init_lem_example = load_init_lem lua machine refl "init.lua"

abbrev pub text : List ℕ → String
text bytes = "name"

abbrev pub resolve : String → String → Option ℕ
resolve host port = some 1

abbrev pub world : World
world = record {
  manager = record { ptr = some 0; io = service; redistribute = none; server_connected = none };
  sessions = create "a" "11000" "directory" ∷ [];
  pending = [];
  calls = [];
}

send_buffer_lem_example :
    send_buffer lua text x86 5 (string (1 ∷ 2 ∷ []) ∷ number 7 ∷ []) world
    ≡ answered (ok (sent world 0 (create "a" "11000" "directory") 5 7 (1 ∷ 2 ∷ [])))
send_buffer_lem_example =
    send_buffer_lem lua text x86 5 0 world (create "a" "11000" "directory") (string (1 ∷ 2 ∷ []))
      (number 7) (1 ∷ 2 ∷ []) 7 refl refl refl refl (omega arith) (omega arith)

connect_server_lem_example :
    connect_server lua text resolve 9
      (string [] ∷ string (1 ∷ []) ∷ string (2 ∷ []) ∷ string (3 ∷ []) ∷ [])
      world
    ≡ answered (
        ok (
          with_new world
            (new_session world.manager 9 "name" "name" "name" "name")
            1
            ((0, post_closed) ∷ [])))
connect_server_lem_example =
    connect_server_lem lua text resolve 9 1 0 world (create "a" "11000" "directory") (string [])
      (string (1 ∷ [])) (string (2 ∷ [])) (string (3 ∷ [])) [] (1 ∷ []) (2 ∷ []) (3 ∷ []) refl refl
      refl refl refl refl refl refl

load_binary_file_lem_example :
    load_binary_file lua text (λ name. some (1 ∷ 2 ∷ 3 ∷ [])) (string [] ∷ []) 4
    ≡ loaded (string (1 ∷ 2 ∷ 3 ∷ [])) 5
load_binary_file_lem_example =
    load_binary_file_lem lua text (λ name. some (1 ∷ 2 ∷ 3 ∷ [])) (string []) [] (1 ∷ 2 ∷ 3 ∷ []) 4
      refl refl (omega arith)
