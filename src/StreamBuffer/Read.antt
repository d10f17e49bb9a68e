-- ===== src/StreamBuffer/Read.antt =====
-- What the readers of io/StreamBuffer.cc return, and what they leave.
use socktestprogram.Prelude.{
  ℕ, ◌+◌, ◌-◌, ◌*◌, ◌≤◌, ◌<◌, ◌≡◌, true, ltb, refl, sym, ap, ◌∙◌, Option, none, some, List, [], ◌∷◌,
  ◌++◌, arith, length, take, drop, length-append, length-take, take-append, take-all, drop-append,
  lt→ltb, le→ltb, from_bytes, add32, mul32, append_assoc, subst,
}
use socktestprogram.Host.{ByteOrder}
use socktestprogram.StreamBuffer.{
  StreamBuffer, borrow, pay_length, payload, slice, commit, le_sum, read_int, read_int32,
  read_int16, read_string,
}
use socktestprogram.StreamBuffer.Block.{IsValid, Parts, parts}

-- The reading returned `value` and took the bytes before `rest`.
pub record Took {A : Type 0} (s : StreamBuffer) (r : Option (Option A × StreamBuffer)) (value : A)
    (rest : List ℕ) : Type 0 where
  pub after : StreamBuffer
  pub result : r ≡ some (some value, after)
  pub valid : IsValid after
  pub remains : payload after ≡ rest
  pub same_block : after.bytes ≡ s.bytes
  pub same_owner : after.owned ≡ s.owned

-- `commit` of bytes that are held leaves the others.
commit_lem :
    (s : StreamBuffer) (xs rest : List ℕ)
    → IsValid s
    → payload s ≡ xs ++ rest
    → IsValid (commit s (length xs)) × (payload (commit s (length xs)) ≡ rest)
unfolding commit payload slice pay_length
commit_lem s xs rest v e =
    let n : ℕ = length xs in
    let pay : ℕ = s.write - s.read in
    let p : Parts s = parts s v in
    let size : length p.held ≡ n + length rest =
      omega (arith, ap length (sym p.is_payload ∙ e), length-append xs rest) in
    let at : length p.before + n ≡ s.read + n = omega (arith, p.at_read) in
    let shape : s.bytes ≡ (p.before ++ xs) ++ (rest ++ p.room) =
      p.is_bytes
      ∙ ap (λ h. p.before ++ (h ++ p.room)) (sym p.is_payload ∙ e)
      ∙ (ap (◌++◌ p.before) (append_assoc xs rest p.room)
          ∙ sym (append_assoc p.before xs (rest ++ p.room))) in
    (
      record {
        ordered = omega (arith, v, size, p.at_write);
        inside = omega (arith, v);
        not_empty = omega (arith, v);
      },
      ap (λ m. take (s.write - (s.read + n)) (drop (s.read + n) m)) shape
          ∙ ap (take (s.write - (s.read + n))) (
              drop-append (p.before ++ xs) (rest ++ p.room) (s.read + n)
                (omega (arith, p.at_read, length-append p.before xs)))
          ∙ take-append rest p.room (s.write - (s.read + n)) (omega (arith, v, size, p.at_write)),
    )

-- The memory at `read_ptr_` begins with the held bytes.
memory :
    (s : StreamBuffer) → IsValid s → (room : List ℕ) × (drop s.read s.bytes ≡ payload s ++ room)
memory s v =
    let p : Parts s = parts s v in
    (
      p.room,
      ap (drop s.read) p.is_bytes
          ∙ drop-append p.before (p.held ++ p.room) s.read (sym p.at_read)
          ∙ ap (λ h. h ++ p.room) (sym p.is_payload),
    )

pub length-payload : (s : StreamBuffer) → IsValid s → length (payload s) ≡ pay_length s
length-payload s v = let p : Parts s = parts s v in ap length p.is_payload ∙ p.at_write

pay_length_lem : (s : StreamBuffer) → pay_length s ≡ s.write - s.read
unfolding pay_length
pay_length_lem s = refl

-- A reader of `length xs` bytes, on a buffer that holds them.
read_int-Took :
    (to_host : ℕ → ℕ) (s : StreamBuffer) (xs rest : List ℕ) (v : ℕ)
    → IsValid s
    → payload s ≡ xs ++ rest
    → ((room : List ℕ) → le_sum (length xs) (xs ++ room) 0 1 ≡ some v)
    → Took s (read_int (length xs) to_host s) (to_host v) rest
unfolding read_int commit
read_int-Took to_host s xs rest v ok e sum =
    let n : ℕ = length xs in
    let (room, m) = memory s ok in
    let enough : s.read + n ≤ s.write =
      omega
        (arith, ok, ap length e, length-payload s ok, length-append xs rest, pay_length_lem s) in
    let value : le_sum n (drop s.read s.bytes) 0 1 ≡ some v =
      ap (λ l. le_sum n l 0 1) (m ∙ ap (λ l. l ++ room) e ∙ append_assoc xs rest room)
      ∙ sum (rest ++ room) in
    record {
      after = commit s n;
      result = rw (le→ltb s.write (s.read + n) enough, value);
      valid = (commit_lem s xs rest ok e).0;
      remains = (commit_lem s xs rest ok e).1;
      same_block = refl;
      same_owner = refl;
    }

le_sum_four :
    (a b c d : ℕ) (room : List ℕ)
    → a < 256
    → b < 256
    → c < 256
    → d < 256
    → le_sum 4 (a ∷ b ∷ c ∷ d ∷ room) 0 1 ≡ some (from_bytes a b c d)
unfolding le_sum
le_sum_four a b c d room ha hb hc hd =
    let e : add32 (add32 (add32 (add32 0 (mul32 a 1)) (mul32 b 256)) (mul32 c 65536))
          (mul32 d 16777216)
        ≡ from_bytes a b c d =
      omega arith in
    ap some e

le_sum_two :
    (a b : ℕ) (room : List ℕ) → a < 256 → b < 256 → le_sum 2 (a ∷ b ∷ room) 0 1 ≡ some (a + 256 * b)
unfolding le_sum
le_sum_two a b room ha hb =
    let e : add32 (add32 0 (mul32 a 1)) (mul32 b 256) ≡ a + 256 * b = omega arith in ap some e

-- `readInt32` on a buffer that holds at least four bytes returns the number that the first four
-- make, the highest first, leaves the others, and does not touch the block.
pub read_int32_lem :
    (o : ByteOrder) (s : StreamBuffer) (a b c d : ℕ) (rest : List ℕ)
    → IsValid s
    → a < 256
    → b < 256
    → c < 256
    → d < 256
    → payload s ≡ a ∷ b ∷ c ∷ d ∷ rest
    → Took s (read_int32 o s) (from_bytes d c b a) rest
unfolding read_int32
read_int32_lem o s a b c d rest v ha hb hc hd e =
    subst (λ n. Took s (read_int 4 o.network_to_host_long s) n rest)
      (o.network_to_host_long_reverses a b c d ha hb hc hd)
      (read_int-Took o.network_to_host_long s (a ∷ b ∷ c ∷ d ∷ []) rest (from_bytes a b c d) v e
        (λ room. le_sum_four a b c d room ha hb hc hd))

-- `readInt16` on a buffer that holds at least two bytes returns the number that they make, the
-- highest first, leaves the others, and does not touch the block.
pub read_int16_lem :
    (o : ByteOrder) (s : StreamBuffer) (a b : ℕ) (rest : List ℕ)
    → IsValid s
    → a < 256
    → b < 256
    → payload s ≡ a ∷ b ∷ rest
    → Took s (read_int16 o s) (b + 256 * a) rest
unfolding read_int16
read_int16_lem o s a b rest v ha hb e =
    subst (λ n. Took s (read_int 2 o.network_to_host_short s) n rest)
      (o.network_to_host_short_reverses a b ha hb)
      (read_int-Took o.network_to_host_short s (a ∷ b ∷ []) rest (a + 256 * b) v e
        (λ room. le_sum_two a b room ha hb))

-- `readString` of the first bytes that a buffer holds returns them and leaves the others.
pub read_string_lem :
    (s : StreamBuffer) (xs rest : List ℕ)
    → IsValid s
    → payload s ≡ xs ++ rest
    → Took s (read_string (length xs) s) xs rest
unfolding read_string slice commit
read_string_lem s xs rest v e =
    let n : ℕ = length xs in
    let (room, m) = memory s v in
    let enough : s.read + n ≤ s.write =
      omega (arith, v, ap length e, length-payload s v, length-append xs rest, pay_length_lem s) in
    let value : take n (drop s.read s.bytes) ≡ xs =
      ap (take n) (m ∙ ap (λ l. l ++ room) e ∙ append_assoc xs rest room)
      ∙ take-append xs (rest ++ room) n refl in
    record {
      after = commit s n;
      result = rw (
        le→ltb s.write (s.read + n) enough,
        le→ltb (length s.bytes) (s.read + n) (omega (arith, v, enough)),
        value,
      );
      valid = (commit_lem s xs rest v e).0;
      remains = (commit_lem s xs rest v e).1;
      same_block = refl;
      same_owner = refl;
    }

-- A reader that finds fewer bytes than it wants returns `false` and changes nothing.
pub read-refused :
    (to_host : ℕ → ℕ) (s : StreamBuffer) (n : ℕ)
    → IsValid s
    → pay_length s < n
    → (read_int n to_host s ≡ some (none, s)) × (read_string n s ≡ some (none, s))
unfolding read_int pay_length read_string
read-refused to_host s n v h =
    let short : ltb s.write (s.read + n) ≡ true =
      lt→ltb s.write (s.read + n) (omega (arith, v, h)) in
    (rw short, rw short)

-- A buffer over the first `n` bytes at `start` holds those bytes.
pub borrow_lem :
    (start : List ℕ) (n : ℕ)
    → 0 < n
    → n ≤ length start
    → IsValid (borrow start n) × (payload (borrow start n) ≡ take n start)
unfolding borrow payload slice pay_length
borrow_lem start n h k =
    let size : length (take n start) ≡ n = omega (arith, length-take n start) in
    let all : n - 0 ≡ n = omega arith in
    (
      record {
        ordered = omega arith;
        inside = omega (arith, size);
        not_empty = omega (arith, size);
      },
      rw all (take-all n (take n start) (omega (arith, size))),
    )
