-- ===== src/Lib.antt =====
-- A socket client that talks to its servers in frames and hands their messages to a Lua script.
--
-- The parts and their files, with paths from the repository's root:
--   * StreamBuffer.antt: io/StreamBuffer.h and .cc under source/, the byte buffer. The class's
--     pointers are offsets into a list of bytes; a fault is an access outside the block.
--     StreamBuffer/Block, Moves and Append are about `append`, StreamBuffer/Read about the readers,
--     StreamBuffer/Queue and its children about the buffer as a queue of bytes.
--   * Session.antt: source/socket/SockSession.h and .cpp, one connection. A member function is a
--     state-passing function that may throw, and that lists what it asks of boost::asio, of its
--     callbacks and of the console (`Effect`). Session/Frame is about `write`, Session/Handlers
--     about the handlers, Session/Stream and Session/RoundTrip about reading a stream.
--   * Manager.antt: source/socket/SockSessionManager.h and .cpp and IoServiceOwner.h. A world is the
--     manager with all sessions and the operations that asio has under way. Manager/System has the
--     steps of the program, in which asio completes the operations in any order; Manager/Requests
--     and Readers are about reads under way, Manager/Failures about failed sessions,
--     Manager/Connect about `connectTo`.
--   * Loop.antt: `ConnFw` of source/main.cpp, over the rounds of an environment whose handles and
--     poll may throw. Loop/Laws is about the master loop, Loop/Runs about `run`.
--   * Lua.antt: the Lua API as a record of functions, and its stack. Script.antt: the calls into Lua,
--     of source/interop/exports/L_notification.cpp, source/dump.cpp (frameUpdate) and
--     source/script/lua_script.cpp (loadInit); Script/Chunks is about the copy into a Lua buffer,
--     Script/Steps, Ends and Calls about the calls.
--     Script/Instance is the LuaScript of source/script, and what main does with it before its loop.
--   * Exports.antt: source/interop/exports/exports.cpp, the functions that Lua calls, which act on
--     the manager; Exports/Laws is about them.
--   * Program.antt: the callbacks that `main` installs, and the parts together; Program/Messages
--     follows messages from one script to another one, with each write completed before the next.
--   * Pbc.antt: the API of pbc and the conversions of C, as a record of functions with laws.
--   * Binding.antt: source/pbc-lua.c, a function of Lua as one of its arguments and the state of pbc.
--     Binding/Messages has the functions for environments and messages, Binding/Fields the values of
--     patterns, Binding/Patterns the functions for patterns, Binding/Decoding `_decode`, and
--     Binding/Entries the table of names. Under Messages, Integers and Relays are about integers;
--     under Fields, Codec about one value; under Patterns, Cells, Steps and Exchange are
--     about what is packed and unpacked, Space about the block, Growth about the loop of
--     `_pattern_pack`; under Decoding, Tables and Arrays are about tables of Lua, Steps to Target
--     about what `_decode` leaves in them, Routes about the other way to a field.
--   * Gcobj.antt: the garbage-collected object of source/pbc-lua.c (`_gc`, `_add_pattern`,
--     `_add_rmessage`, `_clear_gcobj`). Gcobj/Growth is about its tables, Gcobj/Laws about the object.
--   * App.antt: the script of the application, source/app. App/Dispatcher is Dispatcher.lua, with
--     Dispatcher/Queue about `check` and Dispatcher/Chains about the handlers of an event.
--     App/Handlers has the handlers of ConnectHandler.lua and GlobalMsgHolder.lua, with
--     NetworkCmd.lua and the data of model/, and App/Connector has Pumper.lua and init.lua; under it Rules is about what is
--     registered, Flow has the inputs and what is meant to be done for them, Entries is about the
--     event of each input, and Frames about all of them.
--   * Host.antt and Asio.antt: what the program takes from its host and from boost::asio, as records
--     of functions with the documented laws. Prelude.antt: shared names and lemmas.
--   * Tests.antt: the theorems at concrete inputs.
--
-- Names: C++ names are written in snake case, `handle_headerRead` as `handle_header_read`.
-- Numbers: an `int` is its bit pattern below 2 ^ 32, and additions wrap; lengths and offsets of
-- buffers are below 2 ^ 31. Times are in microseconds, as is the timeout, which the source keeps as
-- a `float` of seconds and only ever sets to 3.
-- Fuel: `append` calls itself, and `length + 2` calls are enough, since each growth adds at least one
-- byte of room; `receive` counts handlers, two to a message.
-- The copy into a Lua buffer has `n + 1` rounds, since all rounds but the last take at least one byte.
-- `check` of the application has a round for each event and one more, as its handlers dispatch none.
-- `_pattern_pack` doubles a capacity of 128 bytes at most 25 times, which is what an `int` allows.
-- The decoder takes the list of the fields that pbc reports, and needs no fuel.
--
-- Not modelled: Lua and pbc, which are copies of other projects' libraries, and the bindings under
-- external/pbc/binding; the branches of pbc-lua.c for a Lua version other than 5.1; the trial calls
-- in source/dump.cpp, which nothing calls; the handle of main.cpp that calls `executeVoidFunc`, of a header
-- that the repository does not have; in source/app the loading of the schemas (Proto.lua), `deinit` of the
-- connection handler, the timer of `frameUpdate`, and what is printed. A callback of
-- a session is recorded with its arguments: what the script does in it, and an exception of it, are
-- not followed through the handler that calls it. Console output is kept as an
-- effect, without the values printed in it; the `float` of frameUpdate is passed on as it is.
pub mod Prelude
pub mod Host
pub mod Asio
pub mod StreamBuffer
pub mod Session
pub mod Manager
pub mod Loop
pub mod Lua
pub mod Script
pub mod Exports
pub mod Program
pub mod Gcobj
pub mod Pbc
pub mod Binding
pub mod App
mod Tests
