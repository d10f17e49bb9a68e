-- ===== src/Session/Frame.antt =====
-- The frames of the protocol on the wire, and that `write` of socket/SockSession.cpp makes them.
use socktestprogram.Prelude.{
  ℕ, suc, ◌+◌, ◌≤◌, ◌<◌, ◌≡◌, refl, sym, ap, ap₂, ◌∙◌, some, List, [], ◌∷◌, ◌++◌, arith, length,
  take, replicate, append-nil, le→leb, lt→leb, le→ltb, take-all, drop-replicate, word, int_limit,
  is_negative, add32, word_bytes, from_bytes, byte0, byte1, byte2, byte3, from_bytes-of_word,
  if◌then◌else◌,
}
use socktestprogram.Host.{ByteOrder}
use socktestprogram.StreamBuffer.{overwrite}
use socktestprogram.Session.{
  Session, done, run, async_write, frame, write, write_frame, header_length_fix, print,
}

-- A word in network order.
abbrev pub network_bytes : ℕ → List ℕ
network_bytes w = byte3 w ∷ byte2 w ∷ byte1 w ∷ byte0 w ∷ []

-- What a message is on the wire: its length with that of the type code, the type code, its bytes.
abbrev pub wire : ℕ → List ℕ → List ℕ
wire type_code msg = network_bytes (length msg + 4) ++ (network_bytes type_code ++ msg)

-- Storing a converted word puts its bytes in network order.
pub word_bytes-network :
    (o : ByteOrder) (w : ℕ) → w < word → word_bytes (o.host_to_network_long w) ≡ network_bytes w
word_bytes-network o w h =
    ap word_bytes (
      ap o.host_to_network_long (sym (from_bytes-of_word w h))
      ∙ o.host_to_network_long_reverses (byte0 w) (byte1 w) (byte2 w) (byte3 w) (omega arith)
          (omega arith) (omega arith) (omega arith))
    ∙ same (byte3 w) (byte2 w) (byte1 w) (byte0 w) (omega arith) (omega arith) (omega arith)
        (omega arith)
  where
    same :
        (a b c d : ℕ)
        → a < 256
        → b < 256
        → c < 256
        → d < 256
        → word_bytes (from_bytes a b c d) ≡ a ∷ b ∷ c ∷ d ∷ []
    same a b c d ha hb hc hd = grind arith

-- Eight bytes of header and then the message, stored into a string of zeros.
stores :
    (a b c d e f g h n : ℕ) (msg : List ℕ)
    → n ≡ length msg
    → overwrite
        (overwrite (overwrite (replicate (n + 8) 0) 0 (a ∷ b ∷ c ∷ d ∷ [])) 4 (e ∷ f ∷ g ∷ h ∷ []))
        8
        msg
      ≡ (a ∷ b ∷ c ∷ d ∷ []) ++ ((e ∷ f ∷ g ∷ h ∷ []) ++ msg)
unfolding overwrite
stores a b c d e f g h n msg p =
    let size : n + 8 ≡ suc (suc (suc (suc (suc (suc (suc (suc n))))))) = omega arith in
    let end : 8 + length msg ≡ suc (suc (suc (suc (suc (suc (suc (suc n))))))) = omega arith in
    rw (size, end, drop-replicate {A = ℕ} n 0, append-nil)

-- The string that `write` makes of a message that fits an `int`.
frame-wire :
    (o : ByteOrder) (type_code : ℕ) (msg : List ℕ)
    → type_code < word
    → length msg + 8 < int_limit
    → frame o type_code msg (length msg) (length msg + 8) ≡ wire type_code msg
unfolding frame
frame-wire o type_code msg ht hl =
    let n : ℕ = length msg in
    let zeros : List ℕ = replicate (n + 8) 0 in
    let whole : (if is_negative n then [] else take n msg) ≡ msg =
      rw (lt→leb int_limit n (omega arith)) (take-all n msg (omega arith)) in
    let head : add32 (n + 8) header_length_fix ≡ n + 4 = omega arith in
    ap₂
      (λ a b.
        overwrite (overwrite (overwrite zeros 0 a) 4 b) 8
          (if is_negative n then [] else take n msg))
      (ap (λ w. word_bytes (o.host_to_network_long w)) head
        ∙ word_bytes-network o (n + 4) (omega arith))
      (word_bytes-network o type_code ht)
    ∙ (ap
          (λ c.
            overwrite
              (overwrite (overwrite zeros 0 (network_bytes (n + 4))) 4 (network_bytes type_code)) 8
              c)
          whole
        ∙ stores _ _ _ _ _ _ _ _ n msg refl)

-- `write` of a message of at most 2 ^ 31 - 9 bytes asks asio for one write, of the frame of the
-- message, and records the time; nothing else of the session changes and nothing is thrown.
pub write_lem :
    (o : ByteOrder) (now type_code : ℕ) (msg : List ℕ) (x : Session)
    → type_code < word
    → length msg + 8 < int_limit
    → run (write o now type_code msg (length msg)) x
      ≡ done tt (record {
        session = record x { last_op = some now };
        effects = async_write (wire type_code msg) ∷ [];
      })
unfolding write write_frame
write_lem o now type_code msg x ht hl =
    let n : ℕ = length msg in
    let size : add32 (add32 n 4) 4 ≡ n + 8 = omega arith in
    rw (
      size,
      lt→leb int_limit (n + 8) hl,
      le→ltb (n + 8) 8 (omega arith),
      lt→leb int_limit n (omega arith),
      le→ltb n n (omega arith),
      frame-wire o type_code msg ht hl,
    )

-- A negative length that leaves the size negative, and a length whose size does not fit an `int`,
-- end in the handler of `write`: nothing is sent and the session does not change.
pub write-refused :
    (o : ByteOrder) (now type_code rlength : ℕ) (msg : List ℕ) (x : Session)
    → int_limit ≤ rlength + 8
    → rlength + 8 < word
    → run (write o now type_code msg rlength) x
      ≡ done tt (record { session = x; effects = print "Error writing:" ∷ [] })
unfolding write write_frame
write-refused o now type_code rlength msg x low high =
    let size : add32 (add32 rlength 4) 4 ≡ rlength + 8 = omega arith in
    rw (size, le→leb int_limit (rlength + 8) low)
