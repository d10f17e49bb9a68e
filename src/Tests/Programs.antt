-- ===== src/Tests/Programs.antt =====
-- The theorems on the parts of main.cpp together, at concrete scripts.
use socktestprogram.Prelude.{ℕ, ◌≡◌, refl, none, List, [], ◌∷◌, arith}
use socktestprogram.Host.{x86}
use socktestprogram.Asio.{list_reader, list_writer}
use socktestprogram.Lua.{Lua, done, aborted}
use socktestprogram.Script.Instance.{null, wild, start_script, start_script_lem}
use socktestprogram.Session.{Session, create}
use socktestprogram.Session.Stream.{Message, receive, conn, for_header}
use socktestprogram.Manager.{World}
use socktestprogram.Manager.Connect.{new_session}
use socktestprogram.Program.{install, sent, writes_of, send_all, notify}
use socktestprogram.Program.Messages.{IsListening, script-to-script}
use socktestprogram.Tests.Scripts.{Value, number, string, function, lua, machine, text, world}

abbrev messages : List Message
messages = (7, 1 ∷ 2 ∷ []) ∷ (300, []) ∷ []

abbrev calls : List (Value × Value)
calls = (string (1 ∷ 2 ∷ []), number 7) ∷ (string [], number 300) ∷ []

-- The session that the program at the other end connects to a server.
abbrev at_end : Session
at_end = new_session (install world).manager 3 "b" "11000" "world" "directory"

lua-IsListening : IsListening lua (λ vm. Unit {0})
lua-IsListening = record { handler = λ vm h. refl; redirect = λ vm h. refl; stays = λ m vm h. tt }

script-to-script_example :
    (v : World) × (bytes : List ℕ) × (z : Session) × (send_all lua text x86 list_writer 5 0 calls
        world []
      ≡ sent v bytes)
    × (receive x86 list_reader 4 (conn at_end for_header [] bytes) ≡ conn z for_header messages [])
    × (notify lua (receive x86 list_reader 4 (conn at_end for_header [] bytes)).messages machine
        ≡ done tt (record machine {
          vm =
              function "redirectNetBuffer"
              ∷ number 300
              ∷ string []
              ∷ function "redirectNetBuffer"
              ∷ number 7
              ∷ string (1 ∷ 2 ∷ [])
              ∷ [];
        }))
unfolding writes_of
script-to-script_example =
    script-to-script lua (λ vm. Unit {0}) text x86 list_reader list_writer 5 0 world
      (create "a" "11000" "directory") calls messages world 3 "b" "11000" "world" "directory"
      machine refl refl refl (refl, refl, (refl, refl, tt)) (omega arith) lua-IsListening tt

-- An interpreter whose calls succeed.
abbrev working : Lua
working = record lua { call = λ h f args vm. (f ∷ vm, none) }

start_script_lem_example :
    (start_script working null
      ≡ done tt (record {
        stack = string [] ∷ string [] ∷ [];
        vm = function "app/init.lua" ∷ number 0 ∷ [];
        printed = [];
      }))
    × (start_script working wild ≡ aborted)
start_script_lem_example = start_script_lem working [] refl refl refl
