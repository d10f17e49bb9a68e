-- ===== src/Session/RoundTrip.antt =====
-- Frames that are sent are the messages that are received.
use socktestprogram.Prelude.{
  ℕ, suc, ◌+◌, ◌*◌, ◌<◌, ◌≡◌, refl, sym, ap, ap₂, ◌∙◌, true, some, List, [], ◌∷◌, ◌++◌, arith,
  String, length, word, int_limit, append_assoc, append-nil,
}
use socktestprogram.Host.{ByteOrder}
use socktestprogram.Asio.{Reader}
use socktestprogram.Session.{Session, resize}
use socktestprogram.Session.Frame.{network_bytes, wire, write_lem}
use socktestprogram.Session.Handlers.{
  header_read-fits, handle_body_read_lem, handle_body_read-short,
}
use socktestprogram.Session.Stream.{
  Message, for_header, for_body, for_nothing, Conn, wanted, pumped, continue, deliver, next,
  receive, conn, Fits, AllFit, wires, after_frame, written, send,
}

module _ (o : ByteOrder) (r : Reader) where
  next-header :
      (x : Session) (ms : List Message) (n : ℕ) (rest : List ℕ)
      → n < int_limit
      → next o r (conn x for_header ms (network_bytes n ++ rest))
        ≡ conn
            (record x { head_length = network_bytes n; buffer = resize n x.buffer })
            (for_body n)
            ms
            rest
  unfolding wanted pumped
  next-header x ms n rest h =
      let at : Conn = conn x for_header ms (network_bytes n ++ rest) in
      let head : Session = record x { head_length = network_bytes n } in
      ap (deliver o r at for_header) (r.read_exact (network_bytes n) rest)
      ∙ (ap (continue at rest) (header_read-fits o head n h refl)
          ∙ ap
              (λ l.
                conn (record x { head_length = network_bytes n; buffer = resize n x.buffer })
                  (for_body n) l rest)
              (append-nil ms))

  next-body :
      (x : Session) (ms : List Message) (m : Message) (cb : String) (rest : List ℕ)
      → m.0 < word
      → x.callback ≡ some cb
      → next o r (conn x (for_body (length m.1 + 4)) ms ((network_bytes m.0 ++ m.1) ++ rest))
        ≡ conn (record x { buffer = network_bytes m.0 ++ m.1 }) for_header (ms ++ m ∷ []) rest
  unfolding wanted pumped
  next-body x ms m cb rest h c =
      let body : List ℕ = network_bytes m.0 ++ m.1 in
      let at : Conn = conn x (for_body (length m.1 + 4)) ms (body ++ rest) in
      let size : length m.1 + 4 ≡ length body = omega arith in
      ap (deliver o r at (for_body (length m.1 + 4)))
        (ap (λ n. r.read n (body ++ rest)) size ∙ r.read_exact body rest)
      ∙ ap (continue at rest)
          (handle_body_read_lem o (record x { buffer = body }) m.0 m.1 cb h refl c)

  -- Two handlers read a frame.
  next-frame :
      (x : Session) (ms : List Message) (m : Message) (cb : String) (rest : List ℕ)
      → Fits m
      → x.callback ≡ some cb
      → next o r (next o r (conn x for_header ms (wire m.0 m.1 ++ rest)))
        ≡ conn (after_frame x m) for_header (ms ++ m ∷ []) rest
  next-frame x ms m cb rest h c =
      let n : ℕ = length m.1 + 4 in
      let body : List ℕ = network_bytes m.0 ++ m.1 in
      ap (next o r) (next-header x ms n (body ++ rest) (omega (arith, h)))
      ∙ next-body (record x { head_length = network_bytes n; buffer = resize n x.buffer }) ms m cb
          rest h.0 c

  -- The messages whose frames a server sends are the messages that the callback gets, in order and
  -- whole, for every number of frames, when each fits; the session then waits for a header.
  pub receive-wires :
      (x : Session) (before ms : List Message) (cb : String)
      → AllFit ms
      → x.callback ≡ some cb
      → (y : Session) × (receive o r (2 * length ms) (conn x for_header before (wires ms))
          ≡ conn y for_header (before ++ ms) [])
  unfolding receive
  receive-wires x before [] cb h c = (x, ap (λ l. conn x for_header l []) (sym (append-nil before)))
  receive-wires x before (m ∷ ms) cb h c =
      let (y, e) = receive-wires (after_frame x m) (before ++ m ∷ []) ms cb h.1 c in
      let rounds : 2 * length (m ∷ ms) ≡ suc (suc (2 * length ms)) = omega arith in
      (
        y,
        ap (λ n. receive o r n (conn x for_header before (wires (m ∷ ms)))) rounds
            ∙ (ap (receive o r (2 * length ms)) (next-frame x before m cb (wires ms) h.0 c)
                ∙ (e ∙ ap (λ l. conn y for_header l []) (append_assoc before (m ∷ []) ms))),
      )

-- A session whose handler did not return, and that reads nothing more.
abbrev pub stopped : Session → List Message → List ℕ → Conn
stopped x ms rest = record {
  session = x;
  wait = for_nothing;
  messages = ms;
  stream = rest;
  failed = true;
}

-- The calls of `write` put the frames of their messages on the wire.
pub send-wires :
    (o : ByteOrder) (now : ℕ) (x : Session) (ms : List Message)
    → AllFit ms
    → send o now x ms ≡ wires ms
unfolding send written
send-wires o now x [] h = refl
send-wires o now x (m ∷ ms) h =
    rw (write_lem o now m.0 m.1 x h.0.0 h.0.1, send)
      (ap₂ ◌++◌ (append-nil (wire m.0 m.1))
        (send-wires o now (record x { last_op = some now }) ms h.1))

-- What one session writes another one receives: the messages that fit, in order and whole.
pub receive-send :
    (o : ByteOrder) (r : Reader) (now : ℕ) (x y : Session) (ms : List Message) (cb : String)
    → AllFit ms
    → y.callback ≡ some cb
    → (z : Session) × (receive o r (2 * length ms) (conn y for_header [] (send o now x ms))
        ≡ conn z for_header ms [])
receive-send o r now x y ms cb h c =
    let (z, e) = receive-wires o r y [] ms cb h c in
    (
      z,
      ap (λ l. receive o r (2 * length ms) (conn y for_header [] l)) (send-wires o now x ms h) ∙ e,
    )

-- A header below three stops the session: the body is read behind its string.
pub bad_header-short :
    (o : ByteOrder) (r : Reader) (x : Session) (ms : List Message) (bytes rest : List ℕ)
    → length bytes < 3
    → next o r (next o r (conn x for_header ms (network_bytes (length bytes) ++ (bytes ++ rest))))
      ≡ stopped
          (record x {
            head_length = network_bytes (length bytes);
            buffer = resize (length bytes) x.buffer;
          })
          ms
          rest
bad_header-short o r x ms bytes rest h =
    let n : ℕ = length bytes in
    let head : Session = record x { head_length = network_bytes n; buffer = resize n x.buffer } in
    let at : Conn = conn head (for_body n) ms (bytes ++ rest) in
    ap (next o r) (next-header o r x ms n (bytes ++ rest) (omega arith))
    ∙ (ap (deliver o r at (for_body n)) (r.read_exact bytes rest)
        ∙ ap (continue at rest) (handle_body_read-short o (record head { buffer = bytes }) h))
