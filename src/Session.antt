-- ===== src/Session.antt =====
-- socket/SockSession.h and socket/SockSession.cpp: one connection to a server, and the handlers
-- that boost::asio calls for it. A handler works on the session, and asks asio and the script
-- layer for effects.
pub mod Frame
pub mod Handlers
pub mod Stream
pub mod RoundTrip
use socktestprogram.Prelude.{
  ℕ, ◌+◌, ◌-◌, ◌≡◌, Bool, true, false, not, ◌&&◌, ◌||◌, Option, none, some, List, [], ◌∷◌, ◌++◌,
  String, ltb, leb, if◌then◌else◌, length, take, drop, replicate, add32, word, is_negative,
  word_bytes,
}
use socktestprogram.Host.{ByteOrder}
use socktestprogram.StreamBuffer.{StreamBuffer, borrow, read_int32, overwrite}

-- The fields of the class but the socket and the service, which are asio's. `std::function`
-- members are empty or hold a function, which is known by its name; times are in microseconds.
pub record Session : Type 0 where
  pub last_op : Option ℕ
  pub timeout : ℕ
  pub connecting_timeout : Bool
  pub socket_failed : Bool
  pub head_length : List ℕ
  pub buffer : List ℕ
  pub host : String
  pub port : String
  pub description : String
  pub callback : Option String
  pub on_connected : Option String
  pub connecting_server : String

-- What a member function asks of boost::asio, of its callbacks and of the console. A callback is
-- recorded with its arguments, and returns: what the script does in it is a step of its own.
pub data Effect : Type 0 where
  async_connect : ℕ → Effect
  async_read_header : Effect
  async_read_body : ℕ → Effect
  async_write : List ℕ → Effect
  post_closed : Effect
  close_socket : Effect
  pump : String → ℕ → List ℕ → Effect
  server_on : String → String → Effect
  print : String → Effect

pub data Exception : Type 0 where
  resolve_error length_error bad_function_call : Exception

pub record State : Type 0 where
  pub session : Session
  pub effects : List Effect

-- `undefined` is undefined behaviour.
pub data Result {ℓ} (A : Type ℓ) : Type ℓ where
  done : A → State → Result A
  raised : Exception → State → Result A
  undefined : Result A

abbrev pub M : Type 0 → Type 0
M A = State → Result A

infixl 5 ◌>>=◌ ◌>>◌
abbrev pub ◌>>=◌ : {A B : Type 0} → M A → (A → M B) → M B
◌>>=◌ m f s = elim (m s) [ done a t ↦ f a t | raised e t ↦ raised e t | undefined ↦ undefined ]

abbrev pub ◌>>◌ : {B : Type 0} → M (Unit {0}) → M B → M B
m >> k = m >>= λ _. k

abbrev pub skip : M (Unit {0})
skip s = done tt s

abbrev pub emit : Effect → M (Unit {0})
emit e s = done tt (record s { effects = s.effects ++ e ∷ [] })

abbrev pub this : M Session
this s = done s.session s

abbrev pub put : Session → M (Unit {0})
put x s = done tt (record s { session = x })

abbrev pub throw : Exception → M (Unit {0})
throw e s = raised e s

-- `try { m } catch (...) { std::cerr << message; }`
abbrev pub try_or_print : M (Unit {0}) → String → M (Unit {0})
try_or_print m message s = elim (m s) [
  | done a t ↦ done a t
  | raised e t ↦ done tt (record t { effects = t.effects ++ print message ∷ [] })
  | undefined ↦ undefined
]

-- A call of an asio handler or of a member function, by itself.
abbrev pub run : {A : Type 0} → M A → Session → Result A
run m x = m (record { session = x; effects = [] })

-- socket/LengthStyle.h: `_HeaderLengthFix`, the `int` -4.
abbrev pub header_length_fix : ℕ
header_length_fix = word - 4

-- SockSession::SockSession and SockSession::create
unfoldable pub create : String → String → String → Session
create host port description = record {
  last_op = none;
  timeout = 3_000_000;
  connecting_timeout = false;
  socket_failed = false;
  head_length = replicate 4 0;
  buffer = [];
  host = host;
  port = port;
  description = description;
  callback = none;
  on_connected = none;
  connecting_server = "";
}

unfoldable pub set_destination : String → String → M (Unit {0})
set_destination host port = do x ← this; put (record x { host = host; port = port })

-- `setTimeout`, of a time in microseconds.
unfoldable pub set_timeout : ℕ → M (Unit {0})
set_timeout s = do x ← this; put (record x { timeout = s })

unfoldable pub set_net_message_pumper : Option String → M (Unit {0})
set_net_message_pumper cb = do x ← this; put (record x { callback = cb })

unfoldable pub set_net_connected : Option String → M (Unit {0})
set_net_connected cb = do x ← this; put (record x { on_connected = cb })

-- The clock's reading is an argument of what calls `microsec_clock::universal_time()`.
unfoldable pub flush_op_time : ℕ → M (Unit {0})
flush_op_time now = do x ← this; put (record x { last_op = some now })

-- `none` as long as the session has done nothing: `last_op_` is then no time.
unfoldable pub is_timeout : ℕ → Session → Option Bool
is_timeout now x = elim x.last_op [ none ↦ none | some last ↦ some (ltb (last + x.timeout) now) ]

unfoldable pub is_socket_failed : Session → Bool
is_socket_failed x = x.socket_failed || x.connecting_timeout

-- `resolve` is the resolver of boost::asio: it throws, or gives an endpoint. `serverID` may be null.
unfoldable pub connect : (String → String → Option ℕ) → ℕ → Option String → M (Unit {0})
unfolding flush_op_time
connect resolve now server_id = do
  x ← this
  elim (resolve x.host x.port) [
    | none ↦ throw resolve_error
    | some endpoint ↦ do
      put (record x { connecting_server = elim server_id [ none ↦ "" | some name ↦ name ] })
      emit (async_connect endpoint)
      flush_op_time now
  ]

unfoldable pub close : M (Unit {0})
close = emit post_closed

unfoldable pub read_start : M (Unit {0})
read_start = emit async_read_header

unfoldable pub read_body : M (Unit {0})
read_body = do x ← this; emit (async_read_body (length x.buffer))

-- `std::string::resize`
unfoldable pub resize : ℕ → List ℕ → List ℕ
resize n xs = take n xs ++ replicate (n - length xs) 0

-- A `readInt32` into a variable that holds 0. The buffer is a temporary of the caller.
unfoldable pub read_value : ByteOrder → StreamBuffer → M ℕ
read_value o is s = elim (read_int32 o is) [
  | none ↦ undefined
  | some (none, _) ↦ done 0 s
  | some (some v, _) ↦ done v s
]

-- A negative size is a huge `size_t`.
unfoldable pub resize_buffer : ℕ → M (Unit {0})
unfolding resize
resize_buffer size = do
  x ← this
  if is_negative size then throw length_error else put (record x { buffer = resize size x.buffer })

unfoldable pub handle_header_read : ByteOrder → Bool → M (Unit {0})
unfolding resize_buffer read_body
handle_header_read o error = do
  x ← this
  if error then put (record x { socket_failed = true }) else do
    length ← read_value o (borrow x.head_length 4)
    resize_buffer (add32 (add32 length (word - 4)) (word - header_length_fix))
    read_body

-- `callback_(L, typecode, payload.c_str(), payload.size())`
unfoldable pub call_back : ℕ → List ℕ → M (Unit {0})
call_back typecode payload = do
  x ← this
  elim x.callback [ none ↦ throw bad_function_call | some cb ↦ emit (pump cb typecode payload) ]

-- The memory behind `&buffer_[0]` is the string and its terminator.
unfoldable pub handle_body_read : ByteOrder → Bool → M (Unit {0})
unfolding call_back read_start
handle_body_read o error = do
  x ← this
  if error then put (record x { socket_failed = true }) else do
    let payload = if ltb 4 (length x.buffer) then drop 4 x.buffer else []
    typecode ← read_value o (borrow (x.buffer ++ 0 ∷ []) 4)
    call_back typecode payload
    read_start

unfoldable pub on_server : M (Unit {0})
on_server = do
  x ← this
  elim x.on_connected [
    | none ↦ throw bad_function_call
    | some cb ↦ emit (server_on cb x.connecting_server)
  ]

unfoldable pub connect_failed : M (Unit {0})
connect_failed = do
  emit (print "Fail to connect!")
  x ← this
  put (record x { connecting_timeout = true })

unfoldable pub handle_connected : Bool → M (Unit {0})
unfolding on_server connect_failed read_start
handle_connected error =
    try_or_print (do if error then connect_failed else on_server; read_start) "Error"

-- `error` is whether `socket_.close()` throws, which is caught.
unfoldable pub handle_closed : Bool → M (Unit {0})
handle_closed error = do emit close_socket; if error then emit (print "error closing") else skip

-- The bytes of the frame belong to the write, and are freed by it.
unfoldable pub handle_written : Bool → M (Unit {0})
unfolding close
handle_written error = if error then (do emit (print "Error writing socket"); close) else skip

-- The string that `write` fills, of `length` bytes.
unfoldable pub frame : ByteOrder → ℕ → List ℕ → ℕ → ℕ → List ℕ
frame o type_code msg rlength length =
    overwrite (overwrite (overwrite (replicate length 0) 0 (word_bytes rlen)) 4 (word_bytes type)) 8
      (if is_negative rlength then [] else take rlength msg)
  where
    rlen : ℕ
    rlen = o.host_to_network_long (add32 length header_length_fix)

    type : ℕ
    type = o.host_to_network_long type_code

-- The body of the `try` of `write`: the two stores need eight bytes, and `memcpy` needs `rlength`.
unfoldable pub write_frame : ByteOrder → ℕ → ℕ → List ℕ → ℕ → ℕ → M (Unit {0})
unfolding flush_op_time
write_frame o now type_code msg rlength size =
    if is_negative size
    then throw length_error
    else if ltb size 8
    then (λ s. undefined)
    else if not (is_negative rlength) && ltb (length msg) rlength
    then (λ s. undefined)
    else do emit (async_write (frame o type_code msg rlength size)); flush_op_time now

unfoldable pub write : ByteOrder → ℕ → ℕ → List ℕ → ℕ → M (Unit {0})
unfolding write_frame
write o now type_code msg rlength =
    try_or_print (write_frame o now type_code msg rlength (add32 (add32 rlength 4) 4))
      "Error writing:"
