-- ===== src/Program/Messages.antt =====
-- The messages of one script reach another one.
use socktestprogram.Prelude.{
  Option, none, set, ℕ, ◌*◌, ◌≡◌, refl, ap, sym, ◌∙◌, ◌==◌, true, some, List, [], ◌∷◌, ◌++◌, String,
  arith, length, take, get_elem?, append-nil, append_assoc, take-all, lt-of-get_elem?,
  get_elem?-set_self,
}
use socktestprogram.Host.{ByteOrder}
use socktestprogram.Asio.{Reader, Writer}
use socktestprogram.Lua.{Lua, Machine, done}
use socktestprogram.Script.{on_decode_buffer}
use socktestprogram.Script.Steps.{called, in_state, then-done}
use socktestprogram.Script.Calls.{on_decode_buffer_lem}
use socktestprogram.Session.{Session, Effect, async_write, handle_written, M, run}
use socktestprogram.Session.Frame.{wire}
use socktestprogram.Session.Stream.{Message, Conn, AllFit, wires, conn, for_header, receive}
use socktestprogram.Session.RoundTrip.{receive-wires}
use socktestprogram.Manager.{
  World, on_session, handler, finished, after, settle, operations, immediate,
  set_default_redistribute, set_default_server_on,
}
use socktestprogram.Manager.Connect.{new_session}
use socktestprogram.Exports.{answered}
use socktestprogram.Exports.Laws.{sent as with_frame, send_buffer_lem}
use socktestprogram.Program.{
  sent, after_call, then_sent, complete, writes_of, no_writes, write_of, with_write, unless_write,
  install, send_all, notify,
}

-- Writes among more operations.
writes_of-append :
    (i : ℕ) (ps qs : List (ℕ × Effect))
    → writes_of i ps ≡ []
    → writes_of i (ps ++ qs) ≡ writes_of i qs
unfolding writes_of
writes_of-append i [] qs h = refl
writes_of-append i (p ∷ ps) qs h = split (write_of i p) (λ k. writes_of-append i ps qs k) h
  where
    split :
        (b : Option (List ℕ))
        → (writes_of i ps ≡ [] → writes_of i (ps ++ qs) ≡ writes_of i qs)
        → with_write b (writes_of i ps) ≡ []
        → with_write b (writes_of i (ps ++ qs)) ≡ writes_of i qs
    split none on h = on h
    split (some b) on h = cc

writes_of-no_writes : (i : ℕ) (ps : List (ℕ × Effect)) → writes_of i (no_writes i ps) ≡ []
unfolding writes_of no_writes
writes_of-no_writes i [] = refl
writes_of-no_writes i (p ∷ ps) = split (write_of i p) refl (writes_of-no_writes i ps)
  where
    split :
        (b : Option (List ℕ))
        → write_of i p ≡ b
        → writes_of i (no_writes i ps) ≡ []
        → writes_of i (unless_write b p (no_writes i ps)) ≡ []
    split none e h = ap (λ b. with_write b (writes_of i (no_writes i ps))) e ∙ h
    split (some b) e h = h

one_write : (i : ℕ) (b : List ℕ) → writes_of i ((i, async_write b) ∷ []) ≡ b ∷ []
unfolding writes_of
one_write i b = let same : (i == i) ≡ true = ground arith in rw same refl

abbrev wire_of : Message → List ℕ
wire_of m = wire m.0 m.1

module _ (l : Lua) where
  -- The arguments of the calls of `SendBuffer` are those of the messages.
  abbrev pub AreOf : List (l.Value × l.Value) → List Message → Type 0
  AreOf [] [] = Unit
  AreOf [] (m ∷ ms) = ⊥
  AreOf (c ∷ cs) [] = ⊥
  AreOf (c ∷ cs) (m ∷ ms) =
      (l.to_string c.0 ≡ some m.1) × (l.to_integer c.1 ≡ some m.0) × AreOf cs ms

  -- The world when the write of session `i` has completed.
  abbrev written : ℕ → World → Session → World
  written i w x = record w {
    sessions = set w.sessions i x;
    pending = no_writes i w.pending ++ [];
    calls = w.calls ++ [];
  }

  found :
      (w : World) (i : ℕ) (m : M (Unit {0})) (x : Session)
      → get_elem? w.sessions i ≡ some x
      → on_session i m w ≡ after w i (run m x)
  unfolding on_session
  found w i m x g = rw (g, on_session) refl

  complete-one :
      (wr : Writer) (o : ByteOrder) (i : ℕ) (b : List ℕ) (w : World) (line : List ℕ) (x : Session)
      → get_elem? w.sessions i ≡ some x
      → complete wr o i (b ∷ []) w line ≡ sent (written i w x) (line ++ b)
  unfolding complete on_session handler handle_written after settle operations immediate
  complete-one wr o i b w line x g =
      let rest : World = record w { pending = no_writes i w.pending } in
      ap (λ r. after_call (answered r) (λ v. sent v (wr.write line b)))
        (found rest i (handler o (async_write b) (finished [])) x g)
      ∙ ap (sent (written i w x)) (wr.writes_all line b)

  -- The calls of `SendBuffer` put the frames of the messages on the line.
  send_all-wires :
      (c_string : List ℕ → String) (o : ByteOrder) (wr : Writer) (now i : ℕ) (w : World)
      (x : Session) (calls : List (l.Value × l.Value)) (ms : List Message) (line : List ℕ)
      → w.manager.ptr ≡ some i
      → get_elem? w.sessions i ≡ some x
      → writes_of i w.pending ≡ []
      → AreOf calls ms
      → AllFit ms
      → (v : World) × (send_all l c_string o wr now i calls w line ≡ sent v (line ++ wires ms))
  unfolding send_all
  send_all-wires c_string o wr now i w x [] [] line p g q e h =
      (w, ap (sent w) (sym (append-nil line)))
  send_all-wires c_string o wr now i w x [] (m ∷ ms) line p g q e h = absurd e
  send_all-wires c_string o wr now i w x (c ∷ calls) [] line p g q e h = absurd e
  send_all-wires c_string o wr now i w x (c ∷ calls) (m ∷ ms) line p g q e h =
      let u : World = with_frame w i x now m.0 m.1 in
      let y : Session = record x { last_op = some now } in
      let at = get_elem?-set_self w.sessions i y (lt-of-get_elem? w.sessions i g) in
      let one =
        writes_of-append i w.pending ((i, async_write (wire_of m)) ∷ []) q
        ∙ one_write i (wire_of m) in
      let (v, r) =
        send_all-wires c_string o wr now i (written i u y) y calls ms (line ++ wire_of m) p
          (get_elem?-set_self u.sessions i y (lt-of-get_elem? u.sessions i at))
          (ap (writes_of i) (append-nil (no_writes i u.pending)) ∙ writes_of-no_writes i u.pending)
          e.2 h.1 in
      (
        v,
        ap
              (λ a.
                then_sent (after_call a (λ v. complete wr o i (writes_of i v.pending) v line))
                  (send_all l c_string o wr now i calls))
              (send_buffer_lem l c_string o now i w x c.0 c.1 m.1 m.0 p g e.0 e.1 h.0.0 h.0.1)
            ∙ ap
                (λ bs. then_sent (complete wr o i bs u line) (send_all l c_string o wr now i calls))
                one
            ∙ ap (λ r. then_sent r (send_all l c_string o wr now i calls))
                (complete-one wr o i (wire_of m) u line y at)
            ∙ r
            ∙ ap (sent v) (append_assoc line (wire_of m) (wires ms)),
      )

  -- What the interpreter is after the calls of `redirectNetBuffer` for some messages.
  abbrev pub heard : List Message → l.Vm → l.Vm
  heard [] vm = vm
  heard (m ∷ ms) vm =
      heard ms
        (l.call (some (l.global "__G__TRACKBACK__" vm)) (l.global "redirectNetBuffer" vm)
          (l.integer m.0 ∷ l.string m.1 ∷ []) vm).0

  -- The script has the two functions, and a message leaves it with them.
  pub record IsListening (P : l.Vm → Type 0) : Type 0 where
    pub handler : (vm : l.Vm) → P vm → l.is_function (l.global "__G__TRACKBACK__" vm) ≡ true
    pub redirect : (vm : l.Vm) → P vm → l.is_function (l.global "redirectNetBuffer" vm) ≡ true
    pub stays : (m : Message) (vm : l.Vm) → P vm → P (heard (m ∷ []) vm)

  notify_lem :
      (P : l.Vm → Type 0)
      → IsListening P
      → (ms : List Message) (s : Machine l) → P s.vm
      → notify l ms s ≡ done tt (in_state l s (heard ms s.vm))
  unfolding notify
  notify_lem P li [] s h = refl
  notify_lem P li (m ∷ ms) s h =
      let whole : take (length m.1) m.1 ≡ m.1 = take-all (length m.1) m.1 (omega arith) in
      then-done l (on_decode_buffer l m.0 m.1 (length m.1)) _ (
        on_decode_buffer_lem l s (li.handler s.vm h) m.0 m.1 (length m.1) (omega arith)
          (li.redirect s.vm h)
        ∙ ap
            (λ b.
              done tt
                (in_state l s (called l "redirectNetBuffer" (l.integer m.0 ∷ l.string b ∷ []) s).0))
            whole)
      ∙ notify_lem P li ms (in_state l s (heard (m ∷ []) s.vm)) (li.stays m s.vm h)

  -- From script to script: what a script sends by `SendBuffer` over the current session, for any
  -- messages whose frames fit an `int`, when no write of that session is under way and each write
  -- completes before the next call, a session that `connectTo` has set up in a program that `main`
  -- has prepared gets through its two reading handlers; the callback calls `redirectNetBuffer` of a
  -- script that listens for each of them once, in order, with the type code and the bytes of the
  -- message, and leaves the Lua stack as it was. Neither the calls of `SendBuffer` nor the handlers
  -- nor the callback fail.
  pub script-to-script :
      (P : l.Vm → Type 0) (c_string : List ℕ → String) (o : ByteOrder) (r : Reader) (wr : Writer)
      (now i : ℕ) (w : World) (x : Session) (calls : List (l.Value × l.Value)) (ms : List Message)
      (u : World) (later : ℕ) (host port server_id descr : String) (s : Machine l)
      → w.manager.ptr ≡ some i
      → get_elem? w.sessions i ≡ some x
      → writes_of i w.pending ≡ []
      → AreOf calls ms
      → AllFit ms
      → IsListening P
      → P s.vm
      → (v : World) × (bytes : List ℕ) × (z : Session) × (send_all l c_string o wr now i calls w []
          ≡ sent v bytes)
        × (receive o r (2 * length ms) (
              conn
                (new_session (install u).manager later host port server_id descr)
                for_header
                []
                bytes)
            ≡ conn z for_header ms [])
        × (notify l
              (receive o r (2 * length ms) (
                conn
                  (new_session (install u).manager later host port server_id descr)
                  for_header
                  []
                  bytes)).messages
              s
            ≡ done tt (in_state l s (heard ms s.vm)))
  unfolding install set_default_redistribute set_default_server_on
  script-to-script P c_string o r wr now i w x calls ms u later host port server_id descr s p g q e
        h li k =
      let y : Session = new_session (install u).manager later host port server_id descr in
      let (v, sends) = send_all-wires c_string o wr now i w x calls ms [] p g q e h in
      let (z, receives) = receive-wires o r y [] ms "L_onDecodeBuffer" h refl in
      (
        v,
        wires ms,
        z,
        sends,
        receives,
        ap (λ (k : Conn). notify l k.messages s) receives ∙ notify_lem P li ms s k,
      )
