-- ===== src/StreamBuffer/Block.antt =====
-- The block of a buffer as the bytes before `read_ptr_`, those held and the room behind them, and
-- what `memcpy` does to it.
use socktestprogram.Prelude.{
  ℕ, ◌+◌, ◌-◌, ◌≤◌, ◌<◌, ◌≡◌, refl, ap, ap₂, sym, ◌∙◌, List, ◌++◌, arith, length, take, drop,
  append_assoc, length-append, length-take, length-drop, take-append-drop, take-append, drop-append,
}
use socktestprogram.StreamBuffer.{StreamBuffer, slice, overwrite, pay_length, payload}

-- The pointers are in order, inside a block that is not empty.
pub record IsValid (s : StreamBuffer) : Type 0 where
  pub ordered : s.read ≤ s.write
  pub inside : s.write ≤ length s.bytes
  pub not_empty : 0 < length s.bytes

-- The bytes before `read_ptr_`, those held, and the room behind them.
pub record Parts (s : StreamBuffer) : Type 0 where
  pub before : List ℕ
  pub held : List ℕ
  pub room : List ℕ
  pub is_bytes : s.bytes ≡ before ++ (held ++ room)
  pub at_read : length before ≡ s.read
  pub at_write : length held ≡ pay_length s
  pub is_payload : payload s ≡ held

pub parts : (s : StreamBuffer) → IsValid s → Parts s
unfolding payload pay_length slice
parts s v = record {
  before = take s.read s.bytes;
  held = payload s;
  room = drop (s.write - s.read) (drop s.read s.bytes);
  is_bytes = sym (
      ap (◌++◌ (take s.read s.bytes)) (take-append-drop (s.write - s.read) (drop s.read s.bytes))
      ∙ take-append-drop s.read s.bytes);
  at_read = omega (arith, v, length-take s.read s.bytes);
  at_write =
      omega (
        arith,
        v,
        length-take (s.write - s.read) (drop s.read s.bytes),
        length-drop s.read s.bytes,
      );
  is_payload = refl;
}

-- `memcpy` of `src` over the middle of a block.
pub overwrite-parts :
    (a b c src : List ℕ) (i : ℕ)
    → i ≡ length a
    → length src ≡ length b
    → overwrite (a ++ (b ++ c)) i src ≡ a ++ (src ++ c)
unfolding overwrite
overwrite-parts a b c src i p q = ap₂ ◌++◌ (take-append a (b ++ c) i p) (ap (◌++◌ src) tail)
  where
    tail : drop (i + length src) (a ++ (b ++ c)) ≡ c
    tail =
        ap (drop (i + length src)) (sym (append_assoc a b c))
        ∙ drop-append (a ++ b) c (i + length src) (omega (arith, length-append a b))

pub slice-parts :
    (a b c : List ℕ) (i n : ℕ) → i ≡ length a → n ≡ length b → slice (a ++ (b ++ c)) i n ≡ b
unfolding slice
slice-parts a b c i n p q = ap (take n) (drop-append a (b ++ c) i p) ∙ take-append b c n q

-- The block that `memcpy` leaves when it writes behind the held bytes.
pub copy-bytes :
    (a held room src : List ℕ) (i : ℕ)
    → i ≡ length a + length held
    → length src ≤ length room
    → overwrite (a ++ (held ++ room)) i src ≡ a ++ ((held ++ src) ++ drop (length src) room)
copy-bytes a held room src i p q =
    ap (λ xs. overwrite xs i src) (ap (λ r. a ++ (held ++ r)) (sym split) ∙ regroup)
    ∙ overwrite-parts (a ++ held) (take (length src) room) (drop (length src) room) src i
        (omega (arith, length-append a held)) (omega (arith, length-take (length src) room))
    ∙ (append_assoc a held (src ++ drop (length src) room)
        ∙ ap (◌++◌ a) (sym (append_assoc held src (drop (length src) room))))
  where
    split : take (length src) room ++ drop (length src) room ≡ room
    split = take-append-drop (length src) room

    regroup :
        a ++ (held ++ (take (length src) room ++ drop (length src) room))
        ≡ (a ++ held) ++ (take (length src) room ++ drop (length src) room)
    regroup = sym (append_assoc a held (take (length src) room ++ drop (length src) room))

pub length-overwrite :
    (xs src : List ℕ) (i : ℕ) → i + length src ≤ length xs → length (overwrite xs i src) ≡ length xs
unfolding overwrite
length-overwrite xs src i h = omega (
  arith,
  length-append (take i xs) (src ++ drop (i + length src) xs),
  length-append src (drop (i + length src) xs),
  length-take i xs,
  length-drop (i + length src) xs,
)
