-- ===== src/Script/Calls.antt =====
-- What the calls into Lua leave.
use socktestprogram.Prelude.{
  ℕ, ◌≤◌, ◌≡◌, ◌∙◌, none, some, List, [], ◌∷◌, ◌++◌, String, length, take, if◌then◌else◌,
}
use socktestprogram.Lua.{Lua, Machine, done, aborted}
use socktestprogram.Script.{
  push_buffer, get_function, on_decode_buffer, on_server_connection_established, frame_update,
  load_init,
}
use socktestprogram.Script.Steps.{
  IsDefined, called, in_state, push_buffer_lem, then-done, get_function_lem,
}
use socktestprogram.Script.Ends.{
  decode_end, server_end, server_end_lem, frame_end, frame_end_lem, init_report, load_rest,
}

module _ (l : Lua) where
  module _ (s : Machine l) (handler : IsDefined l "__G__TRACKBACK__" s) where
    handled : Machine l
    handled = record s { stack = l.global "__G__TRACKBACK__" s.vm ∷ s.stack }

    -- When the handler and `redirectNetBuffer` are functions and the memory has the message,
    -- `L_onDecodeBuffer` calls `redirectNetBuffer` once, with the type code and the bytes of the
    -- message, and leaves the stack as it was, whether the call fails or not.
    pub on_decode_buffer_lem :
        (typecode : ℕ) (buffer : List ℕ) (size : ℕ)
        → size ≤ length buffer
        → IsDefined l "redirectNetBuffer" s
        → on_decode_buffer l typecode buffer size s
          ≡ done tt (
              in_state l s
                (called l "redirectNetBuffer"
                  (l.integer typecode ∷ l.string (take size buffer) ∷ [])
                  s).0)
    unfolding on_decode_buffer handled
    on_decode_buffer_lem typecode buffer size h q =
        then-done l (get_function l "__G__TRACKBACK__") _
          (get_function_lem l "__G__TRACKBACK__" s handler)
        ∙ then-done l (get_function l "redirectNetBuffer") _
            (get_function_lem l "redirectNetBuffer" handled q)
        ∙ then-done l (push_buffer l size buffer) _ (
            push_buffer_lem l size buffer
              (record handled {
                stack = l.integer typecode ∷ l.global "redirectNetBuffer" s.vm ∷ handled.stack;
              })
              h)
        ∙ decode_end l (l.global "__G__TRACKBACK__" s.vm) s.stack s.printed _ _

    -- When the handler and `serverConnectOn` are functions, `L_onServerConnectionEstablished` calls
    -- `serverConnectOn` with the name of the server. The stack is as it was when the call succeeds;
    -- when it fails, the last `assert` fails.
    pub on_server_connection_established_lem :
        (server_id : List ℕ)
        → IsDefined l "serverConnectOn" s
        → on_server_connection_established l server_id s
          ≡ (elim (called l "serverConnectOn" (l.string server_id ∷ []) s).1 [
            | none ↦
                done tt (in_state l s (called l "serverConnectOn" (l.string server_id ∷ []) s).0)
            | some e ↦ aborted
          ])
    unfolding on_server_connection_established handled server_end
    on_server_connection_established_lem server_id q =
        then-done l (get_function l "__G__TRACKBACK__") _
          (get_function_lem l "__G__TRACKBACK__" s handler)
        ∙ then-done l (get_function l "serverConnectOn") _
            (get_function_lem l "serverConnectOn" handled q)
        ∙ server_end_lem l (l.global "__G__TRACKBACK__" s.vm) s.stack s.printed _ _

    -- When the handler and `frameUpdate` are functions, `frameUpdate` of the script gets the time
    -- that has passed; the stack is left as it was, and an error of the call is printed.
    pub frame_update_lem :
        (dt : ℕ)
        → IsDefined l "frameUpdate" s
        → frame_update l dt s
          ≡ done tt (record (in_state l s (called l "frameUpdate" (l.number dt ∷ []) s).0) {
            printed = elim (called l "frameUpdate" (l.number dt ∷ []) s).1 [
              | none ↦ s.printed
              | some e ↦ s.printed ++ "Error running" ∷ []
            ];
          })
    unfolding frame_update handled frame_end
    frame_update_lem dt q =
        then-done l (get_function l "__G__TRACKBACK__") _
          (get_function_lem l "__G__TRACKBACK__" s handler)
        ∙ then-done l (get_function l "frameUpdate") _ (get_function_lem l "frameUpdate" handled q)
        ∙ frame_end_lem l (l.global "__G__TRACKBACK__" s.vm) s.stack s.printed _ _

    -- When the handler is a function, `loadInit` leaves the stack as it was. A file that gives no
    -- chunk is reported and nothing is called; a chunk is called under the handler, and an error of
    -- the call is reported.
    pub load_init_lem :
        (path : String)
        → load_init l path s ≡ (
            if l.is_function (l.load_file path s.vm)
            then (let (vm, r) =
                  l.call
                    (some (l.global "__G__TRACKBACK__" s.vm))
                    (l.load_file path s.vm)
                    []
                    s.vm in
                done tt (record (in_state l s vm) {
                  printed = elim r [
                    | none ↦ s.printed
                    | some e ↦ s.printed ++ "Error loading init script" ∷ []
                  ];
                }))
            else done tt (record s { printed = s.printed ++ "Loading failed" ∷ [] }))
    unfolding load_init handled init_report
    load_init_lem path =
        then-done l (get_function l "__G__TRACKBACK__") _
          (get_function_lem l "__G__TRACKBACK__" s handler)
        ∙ load_rest l (l.load_file path s.vm) (l.global "__G__TRACKBACK__" s.vm) s.stack s.vm
            s.printed _
