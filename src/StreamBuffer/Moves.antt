-- ===== src/StreamBuffer/Moves.antt =====
-- The three ways in which `append` of io/StreamBuffer.cc moves the held bytes.
use socktestprogram.Prelude.{
  ℕ, ◌+◌, ◌-◌, ◌*◌, ◌≤◌, ◌≡◌, refl, ap, ap₂, sym, ◌∙◌, List, ◌++◌, arith, length, take, drop,
  length-append, length-take, length-drop, take-append, take-append_split, take-take_comm,
  take-take_le,
}
use socktestprogram.StreamBuffer.{
  Malloc, StreamBuffer, Store, slice, overwrite, pay_length, left, total_left, copy_in, compact,
  grow, payload,
}
use socktestprogram.StreamBuffer.Block.{
  IsValid, Parts, parts, slice-parts, copy-bytes, length-overwrite,
}

-- With room behind the held bytes, `memcpy` appends `src` to them.
pub copy_in_lem :
    (s : Store) (src : List ℕ)
    → IsValid s.buffer
    → length src ≤ left s.buffer
    → IsValid (copy_in s src).buffer × (payload (copy_in s src).buffer ≡ payload s.buffer ++ src)
unfolding copy_in left pay_length payload
copy_in_lem s src v h =
    let b : StreamBuffer = s.buffer in
    let p : Parts b = parts b v in
    let total : length b.bytes ≡ length p.before + (length p.held + length p.room) = omega (
      arith,
      ap length p.is_bytes,
      length-append p.before (p.held ++ p.room),
      length-append p.held p.room,
    ) in
    let size : length (overwrite b.bytes b.write src) ≡ length b.bytes =
      length-overwrite b.bytes src b.write (omega (arith, v)) in
    (
      record {
        ordered = omega (arith, v);
        inside = omega (arith, v, size);
        not_empty = omega (arith, v, size);
      },
      ap (λ xs. slice (overwrite xs b.write src) b.read (b.write + length src - b.read)) p.is_bytes
          ∙ ap (λ xs. slice xs b.read (b.write + length src - b.read))
              (copy-bytes p.before p.held p.room src b.write (omega (arith, v, p))
                (omega (arith, v, p)))
          ∙ slice-parts p.before (p.held ++ src) (drop (length src) p.room) b.read
              (b.write + length src - b.read) (omega (arith, p))
              (omega (arith, v, p, length-append p.held src))
          ∙ ap (λ xs. xs ++ src) (sym p.is_payload),
    )

-- `memmove` of `offset` bytes: the held bytes come out whole when they are at most `offset`, and
-- otherwise their first `offset` bytes stand before a second copy of the others.
pub compact_lem :
    (s : Store)
    → IsValid s.buffer
    → s.buffer.read + s.buffer.read ≤ length s.buffer.bytes
    → IsValid (compact s).buffer
      × (payload (compact s).buffer
          ≡ take s.buffer.read (payload s.buffer)
            ++ take (pay_length s.buffer - s.buffer.read) (payload s.buffer))
unfolding compact payload pay_length slice overwrite
compact_lem s v h =
    let b : StreamBuffer = s.buffer in
    let r : ℕ = b.read in
    let pay : ℕ = b.write - b.read in
    let d : List ℕ = drop r b.bytes in
    let moved_size : length (take r d) ≡ r =
      omega (arith, length-take r d, length-drop r b.bytes) in
    let size : length (overwrite b.bytes 0 (slice b.bytes r r)) ≡ length b.bytes =
      length-overwrite b.bytes (slice b.bytes r r) 0 (omega (arith, moved_size)) in
    let all : pay - 0 ≡ pay = omega arith in
    let tail : 0 + length (take r d) ≡ r = omega (arith, moved_size) in
    (
      record {
        ordered = omega arith;
        inside = omega (arith, v, size);
        not_empty = omega (arith, v, size);
      },
      ap₂ (λ k n. take k (take r d ++ drop n b.bytes)) all tail
          ∙ take-append_split pay (take r d) d
          ∙ ap₂ ◌++◌ (take-take_comm pay r d) (
              ap (λ n. take (pay - n) d) moved_size
              ∙ sym (take-take_le (pay - r) pay d (omega arith))),
    )

-- A new block keeps the held bytes, at its start.
pub grow_lem :
    (m : Malloc) (s : Store)
    → IsValid s.buffer
    → IsValid (grow m s).buffer × (payload (grow m s).buffer ≡ payload s.buffer)
unfolding grow payload pay_length slice overwrite
grow_lem m s v =
    let b : StreamBuffer = s.buffer in
    let pay : ℕ = b.write - b.read in
    let held : List ℕ = take pay (drop b.read b.bytes) in
    let held_size : length held ≡ pay =
      omega (arith, v, length-take pay (drop b.read b.bytes), length-drop b.read b.bytes) in
    let all : pay - 0 ≡ pay = omega arith in
    let block : List ℕ = m.block (length b.bytes * 2) in
    let size : length (overwrite block 0 held) ≡ length b.bytes * 2 =
      length-overwrite block held 0
        (omega (arith, v, held_size, m.length-block (length b.bytes * 2)))
      ∙ m.length-block (length b.bytes * 2) in
    (
      record {
        ordered = omega arith;
        inside = omega (arith, v, size);
        not_empty = omega (arith, v, size);
      },
      ap (λ k. take k (held ++ drop (0 + length held) block)) all
          ∙ take-append held (drop (0 + length held) block) pay (sym held_size),
    )

pub live-grow : (m : Malloc) (s : Store) → s.live + 1 ≡ (grow m s).live
unfolding grow
live-grow m s = refl

pub read-grow : (m : Malloc) (s : Store) → (grow m s).buffer.read ≡ 0
unfolding grow
read-grow m s = refl

pub pay_length-grow : (m : Malloc) (s : Store) → pay_length (grow m s).buffer ≡ pay_length s.buffer
unfolding grow pay_length
pay_length-grow m s = omega arith

pub total_left-parts :
    (s : Store)
    → IsValid s.buffer
    → total_left s.buffer + pay_length s.buffer ≡ length s.buffer.bytes
unfolding total_left left pay_length
total_left-parts s v = omega (arith, v)

pub length-grow :
    (m : Malloc) (s : Store)
    → IsValid s.buffer
    → length (grow m s).buffer.bytes ≡ length s.buffer.bytes * 2
unfolding grow pay_length slice
length-grow m s v =
    let b : StreamBuffer = s.buffer in
    let block : List ℕ = m.block (length b.bytes * 2) in
    let pay : ℕ = b.write - b.read in
    length-overwrite block (take pay (drop b.read b.bytes)) 0 (
      omega (
        arith,
        v,
        m.length-block (length b.bytes * 2),
        length-take pay (drop b.read b.bytes),
        length-drop b.read b.bytes,
      ))
    ∙ m.length-block (length b.bytes * 2)

-- A growth adds the block's size to the room.
pub total_left-grow :
    (m : Malloc) (s : Store)
    → IsValid s.buffer
    → total_left (grow m s).buffer ≡ total_left s.buffer + length s.buffer.bytes
total_left-grow m s v = omega (
  arith,
  total_left-parts s v,
  total_left-parts (grow m s) (grow_lem m s v).0,
  length-grow m s v,
  pay_length-grow m s,
)

pub live-compact : (s : Store) → s.live ≤ (compact s).live
unfolding compact
live-compact s = omega arith

-- After `memmove` all the room of the block is behind the held bytes.
pub left-compact :
    (s : Store)
    → IsValid s.buffer
    → s.buffer.read + s.buffer.read ≤ length s.buffer.bytes
    → left (compact s).buffer ≡ total_left s.buffer
unfolding compact left total_left slice
left-compact s v h =
    let b : StreamBuffer = s.buffer in
    let r : ℕ = b.read in
    omega (
      arith,
      v,
      length-overwrite b.bytes (take r (drop r b.bytes)) 0
          (omega (arith, length-take r (drop r b.bytes), length-drop r b.bytes)),
    )
