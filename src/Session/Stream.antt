-- ===== src/Session/Stream.antt =====
-- The reading of a session, from one handler to the next, over the bytes that a server sends.
use socktestprogram.Prelude.{
  ℕ, zero, suc, ◌+◌, ◌<◌, Bool, true, false, Option, none, some, List, [], ◌∷◌, ◌++◌, length, word,
  int_limit,
}
use socktestprogram.Host.{ByteOrder}
use socktestprogram.Asio.{Reader}
use socktestprogram.Session.{
  Session, Result, Effect, done, raised, undefined, run, async_read_header, async_read_body,
  async_write, pump, handle_header_read, handle_body_read, write,
}
use socktestprogram.Session.Frame.{network_bytes, wire}

abbrev pub Message : Type 0
Message = ℕ × List ℕ

-- The read that a session has under way.
pub data Wait : Type 0 where
  for_header : Wait
  for_body : ℕ → Wait
  for_nothing : Wait

-- The read that a handler asked for, if it asked for one.
unfoldable pub wanted : List Effect → Wait
wanted [] = for_nothing
wanted (async_read_header ∷ es) = for_header
wanted (async_read_body n ∷ es) = for_body n
wanted (_ ∷ es) = wanted es

-- The messages that a handler passed to the callback.
unfoldable pub pumped : List Effect → List Message
pumped [] = []
pumped (pump cb t m ∷ es) = (t, m) ∷ pumped es
pumped (_ ∷ es) = pumped es

-- A session with its read, the messages delivered so far, and whether a handler threw.
pub record Conn : Type 0 where
  pub session : Session
  pub wait : Wait
  pub messages : List Message
  pub stream : List ℕ
  pub failed : Bool

-- After a handler: its session, its read, and its messages behind the others.
abbrev pub continue : Conn → List ℕ → Result (Unit {0}) → Conn
continue c rest (done a t) = record {
  session = t.session;
  wait = wanted t.effects;
  messages = c.messages ++ pumped t.effects;
  stream = rest;
  failed = false;
}
continue c rest (raised e t) = record c {
  session = t.session;
  wait = for_nothing;
  stream = rest;
  failed = true;
}
continue c rest undefined = record c { wait = for_nothing; stream = rest; failed = true }

-- asio fills the buffer of the read, and calls its handler.
module _ (o : ByteOrder) (r : Reader) where
  abbrev pub deliver : Conn → Wait → Option (List ℕ × List ℕ) → Conn
  deliver c w none = c
  deliver c for_header (some (bytes, rest)) =
      continue c rest (run (handle_header_read o false) (record c.session { head_length = bytes }))
  deliver c (for_body n) (some (bytes, rest)) =
      continue c rest (run (handle_body_read o false) (record c.session { buffer = bytes }))
  deliver c for_nothing (some got) = c

  abbrev pub next : Conn → Conn
  next c = elim c.wait [
    | for_header ↦ deliver c for_header (r.read 4 c.stream)
    | for_body n ↦ deliver c (for_body n) (r.read n c.stream)
    | for_nothing ↦ c
  ]

  unfoldable pub receive : ℕ → Conn → Conn
  receive zero c = c
  receive (suc n) c = receive n (next c)

-- The bytes that a member function asks asio to write.
unfoldable pub written : List Effect → List ℕ
written [] = []
written (async_write bytes ∷ es) = bytes ++ written es
written (_ ∷ es) = written es

-- The bytes that the calls of `write` for some messages put on the wire, one call after the other.
unfoldable pub send : ByteOrder → ℕ → Session → List Message → List ℕ
send o now x [] = []
send o now x (m ∷ ms) = elim (run (write o now m.0 m.1 (length m.1)) x) [
  | done a t ↦ written t.effects ++ send o now t.session ms
  | raised e t ↦ []
  | undefined ↦ []
]

abbrev pub conn : Session → Wait → List Message → List ℕ → Conn
conn x w ms stream = record {
  session = x;
  wait = w;
  messages = ms;
  stream = stream;
  failed = false;
}

-- A message whose frame has an `int` for a length.
abbrev pub Fits : Message → Type 0
Fits m = (m.0 < word) × (length m.1 + 8 < int_limit)

abbrev pub AllFit : List Message → Type 0
AllFit [] = Unit
AllFit (m ∷ ms) = Fits m × AllFit ms

abbrev pub wires : List Message → List ℕ
wires [] = []
wires (m ∷ ms) = wire m.0 m.1 ++ wires ms

-- A session that has read the frame of a message.
abbrev pub after_frame : Session → Message → Session
after_frame x m = record x {
  head_length = network_bytes (length m.1 + 4);
  buffer = network_bytes m.0 ++ m.1;
}
