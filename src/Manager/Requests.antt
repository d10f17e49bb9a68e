-- ===== src/Manager/Requests.antt =====
-- Which operations of asio a member function of a session asks for.
use socktestprogram.Prelude.{
  ℕ, ◌+◌, ◌≤◌, ◌<◌, ◌≡◌, refl, Bool, true, false, Option, List, [], ◌∷◌, ◌++◌, String, arith, ◌==◌,
  if◌then◌else◌,
}
use socktestprogram.Host.{ByteOrder}
use socktestprogram.Session.{
  Session, Result, Effect, done, raised, undefined, run, async_connect, async_read_header,
  async_read_body, async_write, post_closed, close_socket, pump, server_on, print, handle_connected,
  handle_header_read, handle_body_read, handle_closed, handle_written, read_value, write, close,
  connect, set_timeout, set_net_connected, set_net_message_pumper,
}
use socktestprogram.Manager.{
  Manager, is_operation, operations, set_up, Completion, failed, finished, handler,
}

-- An operation whose handler asks for the next read.
abbrev pub is_reading : Effect → ℕ
is_reading (async_connect e) = 1
is_reading async_read_header = 1
is_reading (async_read_body n) = 1
is_reading (async_write bytes) = 0
is_reading post_closed = 0
is_reading close_socket = 0
is_reading (pump cb t m) = 0
is_reading (server_on cb name) = 0
is_reading (print message) = 0

abbrev pub readings : List Effect → ℕ
readings [] = 0
readings (e ∷ es) = is_reading e + readings es

-- The reading operations of session `i`.
abbrev pub readers : ℕ → List (ℕ × Effect) → ℕ
readers i [] = 0
readers i ((j, e) ∷ es) = (if i == j then is_reading e else 0) + readers i es

-- What a call leaves to asio, at most `n` reading operations.
abbrev pub Asks : Result (Unit {0}) → ℕ → Type 0
Asks (done a t) n = readings t.effects ≤ n
Asks (raised e t) n = Unit
Asks undefined n = Unit

header-Asks : (o : ByteOrder) (x : Session) → Asks (run (handle_header_read o false) x) 1
unfolding handle_header_read read_value
header-Asks o x = ground arith

body-Asks : (o : ByteOrder) (x : Session) → Asks (run (handle_body_read o false) x) 1
unfolding handle_body_read read_value
body-Asks o x = ground arith

connected-Asks : (b : Bool) (x : Session) → Asks (run (handle_connected b) x) 1
unfolding handle_connected
connected-Asks b x = ground arith

-- A handler asks for at most as many reads as it completes.
pub handler-Asks :
    (o : ByteOrder) (e : Effect) (c : Completion) (x : Session)
    → Asks (run (handler o e c) x) (is_reading e)
unfolding handler handle_header_read handle_body_read handle_written handle_closed
handler-Asks o (async_connect e) failed x = connected-Asks true x
handler-Asks o (async_connect e) (finished bytes) x = connected-Asks false x
handler-Asks o async_read_header failed x = omega arith
handler-Asks o async_read_header (finished bytes) x =
    header-Asks o (record x { head_length = bytes })
handler-Asks o (async_read_body n) failed x = omega arith
handler-Asks o (async_read_body n) (finished bytes) x = body-Asks o (record x { buffer = bytes })
handler-Asks o (async_write bytes) failed x = omega arith
handler-Asks o (async_write bytes) (finished got) x = omega arith
handler-Asks o post_closed failed x = omega arith
handler-Asks o post_closed (finished bytes) x = omega arith
handler-Asks o close_socket c x = omega arith
handler-Asks o (pump cb t m) c x = omega arith
handler-Asks o (server_on cb name) c x = omega arith
handler-Asks o (print message) c x = omega arith

pub write-Asks :
    (o : ByteOrder) (now t : ℕ) (msg : List ℕ) (n : ℕ) (x : Session)
    → Asks (run (write o now t msg n) x) 0
unfolding write
write-Asks o now t msg n x = ground arith

pub set_up-Asks :
    (resolve : String → String → Option ℕ) (now : ℕ) (name : String) (m : Manager) (x : Session)
    → Asks (run (set_up resolve now name m) x) 1
unfolding set_up set_timeout set_net_message_pumper set_net_connected connect
set_up-Asks resolve now name m x = ground arith

pub close-Asks : (x : Session) → Asks (run close x) 0
unfolding close
close-Asks x = omega arith

pub readers-append :
    (i : ℕ) (ps qs : List (ℕ × Effect)) → readers i (ps ++ qs) ≡ readers i ps + readers i qs
readers-append i [] qs = omega arith
readers-append i ((j, e) ∷ ps) qs = omega (arith, readers-append i ps qs)

readers-cons :
    (i j : ℕ) (e : Effect) (es : List Effect)
    → readers i (operations j (e ∷ es))
      ≡ (if i == j then is_reading e else 0) + readers i (operations j es)
unfolding operations is_operation
readers-cons i j (async_connect e) es = refl
readers-cons i j async_read_header es = refl
readers-cons i j (async_read_body n) es = refl
readers-cons i j (async_write bytes) es = refl
readers-cons i j post_closed es = refl
readers-cons i j _ es = ground arith

pub readers-operations :
    (i j : ℕ) (es : List Effect) → readers i (operations j es) ≡ (if i == j then readings es else 0)
unfolding operations
readers-operations i j [] = ground arith
readers-operations i j (e ∷ es) = ground (arith, readers-cons i j e es, readers-operations i j es)

-- Only sessions that there are have operations.
abbrev pub AllBelow : ℕ → List (ℕ × Effect) → Type 0
AllBelow n [] = Unit
AllBelow n ((j, e) ∷ ps) = (j < n) × AllBelow n ps

pub AllBelow-append :
    (n : ℕ) (ps qs : List (ℕ × Effect)) → AllBelow n ps → AllBelow n qs → AllBelow n (ps ++ qs)
AllBelow-append n [] qs h k = k
AllBelow-append n ((j, e) ∷ ps) qs h k = (h.0, AllBelow-append n ps qs h.1 k)

pub AllBelow-split :
    (n : ℕ) (ps qs : List (ℕ × Effect)) → AllBelow n (ps ++ qs) → AllBelow n ps × AllBelow n qs
AllBelow-split n [] qs h = (tt, h)
AllBelow-split n ((j, e) ∷ ps) qs h = let (a, b) = AllBelow-split n ps qs h.1 in ((h.0, a), b)

pub AllBelow-mono : (m n : ℕ) (ps : List (ℕ × Effect)) → m ≤ n → AllBelow m ps → AllBelow n ps
AllBelow-mono m n [] l h = tt
AllBelow-mono m n ((j, e) ∷ ps) l h = (omega (arith, h.0), AllBelow-mono m n ps l h.1)

pub AllBelow-operations : (n j : ℕ) (es : List Effect) → j < n → AllBelow n (operations j es)
unfolding operations is_operation
AllBelow-operations n j [] h = tt
AllBelow-operations n j (async_connect e ∷ es) h = (h, AllBelow-operations n j es h)
AllBelow-operations n j (async_read_header ∷ es) h = (h, AllBelow-operations n j es h)
AllBelow-operations n j (async_read_body k ∷ es) h = (h, AllBelow-operations n j es h)
AllBelow-operations n j (async_write bytes ∷ es) h = (h, AllBelow-operations n j es h)
AllBelow-operations n j (post_closed ∷ es) h = (h, AllBelow-operations n j es h)
AllBelow-operations n j (_ ∷ es) h = AllBelow-operations n j es h

pub readers-fresh : (n i : ℕ) (ps : List (ℕ × Effect)) → n ≤ i → AllBelow n ps → readers i ps ≡ 0
readers-fresh n i [] l h = refl
readers-fresh n i ((j, e) ∷ ps) l h = ground (arith, readers-fresh n i ps l h.1, h.0)
