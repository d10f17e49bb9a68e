-- ===== src/Script.antt =====
-- The calls into Lua: interop/exports/L_notification.cpp, dump.cpp (frameUpdate) and
-- script/lua_script.cpp, which call global functions of the script under a message handler.
pub mod Chunks
pub mod Steps
pub mod Ends
pub mod Calls
pub mod Instance
use socktestprogram.Prelude.{
  ℕ, zero, suc, ◌+◌, ◌-◌, ◌==◌, Bool, true, false, not, List, [], ◌∷◌, ◌++◌, String, ltb,
  if◌then◌else◌, length, take, drop,
}
use socktestprogram.Lua.{
  Lua, Machine, Ran, Script, done, aborted, fault, ◌>>=◌, ◌>>◌, skip, assert, print, get_top, push,
  pop, get_global, is_function, load_file, p_call,
}

-- What a copy of a memory block into a `luaL_Buffer` adds to it, one chunk for each `memcpy`.
pub data Filled : Type 0 where
  filled : List (List ℕ) → Filled
  outside : Filled
  out_of_fuel : Filled

abbrev pub add_chunk : List ℕ → Filled → Filled
add_chunk c (filled cs) = filled (c ∷ cs)
add_chunk c outside = outside
add_chunk c out_of_fuel = out_of_fuel

-- The do-while loop, on fuel, with `n` bytes to go of the memory at `index`.
unfoldable pub fill : ℕ → ℕ → ℕ → List ℕ → Filled
fill zero rlen n memory = out_of_fuel
fill (suc fuel) rlen n memory =
    let r = if ltb n rlen then n else rlen in
    let rest = fill fuel r (n - r) (drop r memory) in
    if ltb (length memory) r
    then outside
    else if ltb 0 (n - r)
    then add_chunk (take r memory) rest
    else filled (take r memory ∷ [])

abbrev pub concat : List (List ℕ) → List ℕ
concat [] = []
concat (c ∷ cs) = c ++ concat cs

module _ (l : Lua) where
  -- From `luaL_buffinit` to `luaL_pushresult`.
  unfoldable pub push_filled : Filled → Script l (Unit {0})
  push_filled (filled cs) = push l (l.string (concat cs))
  push_filled outside = λ s. fault
  push_filled out_of_fuel = λ s. fault

  unfoldable pub push_buffer : ℕ → List ℕ → Script l (Unit {0})
  push_buffer n memory = push_filled (fill (suc n) l.buffer_size n memory)

  -- `lua_getglobal` with the `assert` that follows it.
  unfoldable pub get_function : String → Script l (Unit {0})
  get_function name = do get_global l name; b ← is_function l; assert l b

  -- `assert(top == lua_gettop(L))`
  unfoldable pub assert_top : ℕ → Script l (Unit {0})
  assert_top top = do end ← get_top l; assert l (top == end)

  -- L_onDecodeBuffer
  unfoldable pub on_decode_buffer : ℕ → List ℕ → ℕ → Script l (Unit {0})
  on_decode_buffer typecode buffer size = do
    top ← get_top l
    get_function "__G__TRACKBACK__"
    get_function "redirectNetBuffer"
    push l (l.integer typecode)
    push_buffer size buffer
    res ← p_call l 2 4
    if res then pop l 1 else skip l
    pop l 1
    assert_top top

  -- L_onServerConnectionEstablished
  unfoldable pub on_server_connection_established : List ℕ → Script l (Unit {0})
  on_server_connection_established server_id = do
    top ← get_top l
    get_function "__G__TRACKBACK__"
    get_function "serverConnectOn"
    push l (l.string server_id)
    res ← p_call l 1 3
    pop l 1
    assert_top top

  unfoldable pub frame_failed : ℕ → Script l (Unit {0})
  frame_failed top = do pop l 2; assert_top top; print l "Error running"

  -- GameCore::frameUpdate
  unfoldable pub frame_update : ℕ → Script l (Unit {0})
  unfolding frame_failed
  frame_update dt = do
    top ← get_top l
    get_function "__G__TRACKBACK__"
    get_function "frameUpdate"
    push l (l.number dt)
    res ← p_call l 1 3
    if res then frame_failed top else do pop l 1; assert_top top

  unfoldable pub load_failed : ℕ → Script l (Unit {0})
  load_failed top = do pop l 2; print l "Loading failed"; assert_top top

  unfoldable pub init_failed : Script l (Unit {0})
  init_failed = do print l "Error loading init script"; pop l 1

  -- LuaScript::loadInit
  unfoldable pub load_init : String → Script l (Unit {0})
  unfolding load_failed init_failed
  load_init path = do
    top ← get_top l
    get_function "__G__TRACKBACK__"
    load_file l path
    b ← is_function l
    if not b
        then load_failed top
        else do res ← p_call l 0 2; if res then init_failed else skip l; pop l 1; assert_top top
