-- ===== src/Script/Instance.antt =====
-- script/lua_script.h and script/lua_script.cpp: the one interpreter of the process, and what main.cpp
-- does with it before its loop.
use socktestprogram.Prelude.{
  ◌≡◌, refl, ap, ◌∙◌, Bool, true, false, not, Option, none, some, List, [], ◌∷◌, String,
  if◌then◌else◌,
}
use socktestprogram.Lua.{
  Lua, Machine, Ran, Script, done, aborted, fault, ◌>>=◌, ◌>>◌, assert, load_string, register,
  p_call_bare, leave,
}
use socktestprogram.Script.{load_init}
use socktestprogram.Script.Steps.{IsDefined}
use socktestprogram.Script.Calls.{load_init_lem}

-- The text that `init` loads, and which makes the handler.
abbrev pub traceback : String
traceback =
    "function __G__TRACKBACK__(msg)\n\tlocal msg = debug.traceback(msg, 3)\n\tprint(msg)\n\treturn msg\nend\n"

module _ (l : Lua) where
  -- The field `L_`. The constructor does not set it before `init` reads it: memory that holds
  -- another value than NULL is `wild`.
  pub data Pointer : Type 0 where
    null : Pointer
    wild : Pointer
    state : Machine l → Pointer

  -- `init` behind `luaL_newstate` and `luaL_openlibs`. `luaopen_protobuf_c` is called directly, so
  -- its table stays on the stack.
  unfoldable pub load_traceback : Script l (Unit {0})
  load_traceback = do
    register l "protobuf.c"
    load_string l traceback
    failed ← p_call_bare l 0
    assert l (not failed)

  unfoldable pub open_state : Option l.Vm → Ran l (Unit {0})
  unfolding load_traceback
  open_state none = fault
  open_state (some vm) = load_traceback (record { stack = []; vm = l.open_libs vm; printed = [] })

  -- LuaScript::init
  unfoldable pub init : Pointer → Ran l (Unit {0})
  unfolding open_state
  init null = open_state l.new_state
  init wild = aborted
  init (state m) = aborted

  -- LuaScript::deinit: whether `lua_close` is called, and the field afterwards.
  unfoldable pub deinit : Pointer → Bool × Pointer
  deinit null = (false, null)
  deinit wild = (true, null)
  deinit (state m) = (true, null)

  -- LuaScript::instance, with what the memory of a new object has for `L_`, and the state of the
  -- object that there is.
  unfoldable pub instance_of : Pointer → Option (Machine l) → Ran l (Unit {0})
  unfolding init
  instance_of garbage (some m) = done tt m
  instance_of garbage none = init garbage

  -- The calls into Lua of the handle `prepare` of `main`: `luaopen_mm`, which leaves its table on the
  -- stack, and `loadInit`.
  unfoldable pub prepare_script : Script l (Unit {0})
  prepare_script = do register l "mm"; load_init l "app/init.lua"

  abbrev then_run : Ran l (Unit {0}) → Script l (Unit {0}) → Ran l (Unit {0})
  then_run (done a m) k = k m
  then_run aborted k = aborted
  then_run fault k = fault

  -- What `main` does with the script before its loop, from the first call of `instance`.
  unfoldable pub start_script : Pointer → Ran l (Unit {0})
  unfolding instance_of prepare_script
  start_script garbage = then_run (instance_of garbage none) prepare_script

  traceback_end :
      (s : Machine l) (vs : List l.Value) (vm : l.Vm) (r : Option l.Value)
      → r ≡ none
      → ◌>>=◌ {A = Bool} (λ (t : Machine l). leave l vs [] vm r) (λ failed. assert l (not failed)) s
        ≡ done tt (record { stack = vs; vm = vm; printed = [] })
  traceback_end s vs vm none h = refl
  traceback_end s vs vm (some e) h = cc

  module _ (vm : l.Vm) where
    -- The interpreter with the libraries, after the text of the handler, and with the functions for
    -- the script.
    abbrev pub with_protobuf : l.Vm × l.Value
    with_protobuf = l.register "protobuf.c" (l.open_libs vm)

    abbrev pub with_traceback : l.Vm × Option l.Value
    with_traceback = l.call none (l.load_string traceback with_protobuf.0) [] with_protobuf.0

    abbrev pub with_mm : l.Vm × l.Value
    with_mm = l.register "mm" with_traceback.0

    abbrev pub opened : Machine l
    opened = record { stack = with_mm.1 ∷ with_protobuf.1 ∷ []; vm = with_mm.0; printed = [] }

    load_traceback_lem :
        with_traceback.1 ≡ none
        → load_traceback (record { stack = []; vm = l.open_libs vm; printed = [] })
          ≡ done tt (record { stack = with_protobuf.1 ∷ []; vm = with_traceback.0; printed = [] })
    unfolding load_traceback
    load_traceback_lem h =
        traceback_end (record { stack = []; vm = l.open_libs vm; printed = [] }) _ _
          with_traceback.1 h

    -- If the memory of the new LuaScript has NULL for `L_`, there is memory for the interpreter, and
    -- the text of the handler runs without an error and makes a function: `main` runs the script's
    -- file under that handler before its loop and reports a failure, and then the tables of
    -- "protobuf.c" and "mm" are still on the stack. With any other value in that memory the first
    -- `assert` of `init` fails.
    pub start_script_lem :
        l.new_state ≡ some vm
        → with_traceback.1 ≡ none
        → IsDefined l "__G__TRACKBACK__" opened
        → (start_script null ≡ (
            if l.is_function (l.load_file "app/init.lua" opened.vm)
            then (let (end, r) =
                  l.call
                    (some (l.global "__G__TRACKBACK__" opened.vm))
                    (l.load_file "app/init.lua" opened.vm)
                    []
                    opened.vm in
                done tt (record opened {
                  vm = end;
                  printed = elim r [ none ↦ [] | some e ↦ "Error loading init script" ∷ [] ];
                }))
            else done tt (record opened { printed = "Loading failed" ∷ [] })))
          × (start_script wild ≡ aborted)
    unfolding start_script open_state
    start_script_lem e h handler = (
      ap (λ s. then_run (open_state s) prepare_script) e
          ∙ (ap (λ r. then_run r prepare_script) (load_traceback_lem h)
              ∙ load_init_lem l opened handler "app/init.lua"),
      refl,
    )
