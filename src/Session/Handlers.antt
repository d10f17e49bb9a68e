-- ===== src/Session/Handlers.antt =====
-- What the handlers of socket/SockSession.cpp do, on each of their branches.
use socktestprogram.Prelude.{
  ℕ, ◌-◌, ◌≤◌, ◌<◌, ◌≡◌, leb, Bool, dec_lt, refl, ap, ◌∙◌, true, false, some, List, [], ◌∷◌, ◌++◌,
  arith, String, length, take, drop, replicate, le→leb, lt→leb, lt→ltb, word, int_limit,
  length-append, length-take, length-replicate, add32, from_bytes, byte0, byte1, byte2, byte3,
  append_assoc, from_bytes-of_word, ltb, if◌then◌else◌,
}
use socktestprogram.Host.{ByteOrder}
use socktestprogram.StreamBuffer.{StreamBuffer, borrow, read_int32, le_sum}
use socktestprogram.StreamBuffer.Read.{Took, read_int32_lem, borrow_lem}
use socktestprogram.Session.{
  Session, State, ◌>>=◌, done, raised, undefined, run, async_read_header, async_read_body, pump,
  length_error, read_value, resize, resize_buffer, handle_header_read, handle_body_read, call_back,
  header_length_fix,
}
use socktestprogram.Session.Frame.{network_bytes}

-- Four bytes at the start of a memory are read as a number, the highest first.
read_value-borrow :
    (o : ByteOrder) (a b c d : ℕ) (rest : List ℕ) (s : State)
    → a < 256
    → b < 256
    → c < 256
    → d < 256
    → read_value o (borrow (a ∷ b ∷ c ∷ d ∷ rest) 4) s ≡ done (from_bytes d c b a) s
unfolding read_value
read_value-borrow o a b c d rest s ha hb hc hd =
    let is : StreamBuffer = borrow (a ∷ b ∷ c ∷ d ∷ rest) 4 in
    let (v, held) = borrow_lem (a ∷ b ∷ c ∷ d ∷ rest) 4 (omega arith) (omega arith) in
    let t : Took is (read_int32 o is) (from_bytes d c b a) [] =
      read_int32_lem o is a b c d [] v ha hb hc hd held in
    rw (t.result, read_value)

-- ... so the network order of a word is read as that word.
pub read_value-network :
    (o : ByteOrder) (w : ℕ) (rest : List ℕ) (s : State)
    → w < word
    → read_value o (borrow (network_bytes w ++ rest) 4) s ≡ done w s
read_value-network o w rest s h =
    read_value-borrow o (byte3 w) (byte2 w) (byte1 w) (byte0 w) rest s (omega arith) (omega arith)
      (omega arith) (omega arith)
    ∙ ap (λ k. done k s) (from_bytes-of_word w h)

pub length-resize : (n : ℕ) (xs : List ℕ) → length (resize n xs) ≡ n
unfolding resize
length-resize n xs = omega (
  arith,
  length-append (take n xs) (replicate (n - length xs) 0),
  length-take n xs,
  length-replicate {A = ℕ} (n - length xs) 0,
)

header_value :
    (o : ByteOrder) (x : Session) (n : ℕ)
    → n < word
    → x.head_length ≡ network_bytes n
    → read_value o (borrow x.head_length 4) (record { session = x; effects = [] })
      ≡ done n (record { session = x; effects = [] })
header_value o x n h e =
    let start : State = record { session = x; effects = [] } in
    ap (λ l. read_value o (borrow l 4) start) e ∙ read_value-network o n [] start h

-- `handle_headerRead` of a length below 2 ^ 31.
pub header_read-fits :
    (o : ByteOrder) (x : Session) (n : ℕ)
    → n < int_limit
    → x.head_length ≡ network_bytes n
    → run (handle_header_read o false) x
      ≡ done tt (record {
        session = record x { buffer = resize n x.buffer };
        effects = async_read_body n ∷ [];
      })
unfolding handle_header_read resize_buffer
header_read-fits o x n k e =
    let size : add32 (add32 n (word - 4)) (word - header_length_fix) ≡ n = omega arith in
    let value : read_value o (borrow x.head_length 4) (record { session = x; effects = [] })
        ≡ done n (record { session = x; effects = [] }) =
      header_value o x n (omega arith) e in
    rw (value, ◌>>=◌, size, lt→leb int_limit n k, length-resize n x.buffer)

-- `handle_headerRead` of a negative length.
pub header_read-negative :
    (o : ByteOrder) (x : Session) (n : ℕ)
    → n < word
    → int_limit ≤ n
    → x.head_length ≡ network_bytes n
    → run (handle_header_read o false) x
      ≡ raised length_error (record { session = x; effects = [] })
unfolding handle_header_read resize_buffer
header_read-negative o x n h k e =
    let size : add32 (add32 n (word - 4)) (word - header_length_fix) ≡ n = omega arith in
    let value : read_value o (borrow x.head_length 4) (record { session = x; effects = [] })
        ≡ done n (record { session = x; effects = [] }) =
      header_value o x n h e in
    rw (value, ◌>>=◌, size, le→leb int_limit n k)

-- `handle_headerRead`. On an error the session is marked and nothing more is read. On a length
-- below 2 ^ 31 the buffer gets that length, and a body of that length is asked for. Any other
-- length, a negative `int`, is thrown out of the handler by `resize`, with the session unchanged.
pub handle_header_read_lem :
    (o : ByteOrder) (error : Bool) (x : Session) (n : ℕ)
    → n < word
    → x.head_length ≡ network_bytes n
    → run (handle_header_read o error) x ≡ (
        if error
        then done tt (record { session = record x { socket_failed = true }; effects = [] })
        else if leb int_limit n
        then raised length_error (record { session = x; effects = [] })
        else done tt (record {
          session = record x { buffer = resize n x.buffer };
          effects = async_read_body n ∷ [];
        }))
unfolding handle_header_read
handle_header_read_lem o true x n h e = refl
handle_header_read_lem o false x n h e = elim (dec_lt n int_limit) [
  | yes k ↦ rw (lt→leb int_limit n k) (header_read-fits o x n k e)
  | no k ↦ rw (le→leb int_limit n (omega arith)) (header_read-negative o x n h (omega arith) e)
]

body-payload :
    (w : ℕ) (msg : List ℕ)
    → (if ltb 4 (length (network_bytes w ++ msg)) then drop 4 (network_bytes w ++ msg) else [])
      ≡ msg
body-payload w [] = refl
body-payload w (c ∷ msg) = rw (lt→ltb 4 (length (network_bytes w ++ c ∷ msg)) (omega arith))

-- `handle_bodyRead` of a body that begins with a type code: the callback gets the code and the
-- rest, and the next header is asked for.
pub handle_body_read_lem :
    (o : ByteOrder) (x : Session) (type_code : ℕ) (msg : List ℕ) (cb : String)
    → type_code < word
    → x.buffer ≡ network_bytes type_code ++ msg
    → x.callback ≡ some cb
    → run (handle_body_read o false) x
      ≡ done tt (record { session = x; effects = pump cb type_code msg ∷ async_read_header ∷ [] })
unfolding handle_body_read call_back
handle_body_read_lem o x type_code msg cb h e c =
    let start : State = record { session = x; effects = [] } in
    let value : read_value o (borrow (x.buffer ++ 0 ∷ []) 4) start ≡ done type_code start =
      ap (λ l. read_value o (borrow l 4) start)
        (ap (λ l. l ++ 0 ∷ []) e ∙ append_assoc (network_bytes type_code) msg (0 ∷ []))
      ∙ read_value-network o type_code (msg ++ 0 ∷ []) start h in
    let body : (if ltb 4 (length x.buffer) then drop 4 x.buffer else []) ≡ msg =
      ap (λ l. if ltb 4 (length l) then drop 4 l else []) e ∙ body-payload type_code msg in
    rw (value, ◌>>=◌) (simp (c, body))

-- Fewer than four bytes of memory cannot be read as a number.
read_value-short :
    (o : ByteOrder) (memory : List ℕ) (s : State)
    → length memory < 4
    → read_value o (borrow memory 4) s ≡ undefined
unfolding read_value borrow read_int32 le_sum
read_value-short o [] s h = refl
read_value-short o (a ∷ []) s h = refl
read_value-short o (a ∷ b ∷ []) s h = refl
read_value-short o (a ∷ b ∷ c ∷ []) s h = refl
read_value-short o (a ∷ b ∷ c ∷ d ∷ memory) s h = absurd (omega arith)

-- A body of fewer than three bytes is read behind the string: `handle_bodyRead` takes four bytes
-- from `&buffer_[0]` whatever the size, and the string with its terminator has fewer.
pub handle_body_read-short :
    (o : ByteOrder) (x : Session)
    → length x.buffer < 3
    → run (handle_body_read o false) x ≡ undefined
unfolding handle_body_read
handle_body_read-short o x h =
    let value : read_value o (borrow (x.buffer ++ 0 ∷ []) 4) (record { session = x; effects = [] })
        ≡ undefined =
      read_value-short o (x.buffer ++ 0 ∷ []) (record { session = x; effects = [] })
        (omega (arith, length-append x.buffer (0 ∷ []))) in
    rw (value, ◌>>=◌)
