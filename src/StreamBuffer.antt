-- ===== src/StreamBuffer.antt =====
-- io/StreamBuffer.h and io/StreamBuffer.cc: the byte buffer that frames are read from.
-- The three other pointers of the class are offsets from `begin_ptr_`; the block
-- [begin_ptr_, end_ptr_) is the list of its bytes. Lengths and offsets are below 2 ^ 31.
pub mod Block
pub mod Moves
pub mod Append
pub mod Read
pub mod Queue
use socktestprogram.Prelude.{
  ℕ, zero, suc, ◌+◌, ◌-◌, ◌*◌, ◌≡◌, Bool, true, false, Option, none, some, List, [], ◌∷◌, ◌++◌, ltb,
  leb, if◌then◌else◌, length, take, drop, replicate, add32, mul32, int_limit, is_negative,
}
use socktestprogram.Host.{ByteOrder}

-- `malloc` of the C library: the bytes of a fresh block are not determined.
pub record Malloc : Type 0 where
  pub block : ℕ → List ℕ
  pub length-block : (n : ℕ) → length (block n) ≡ n

pub record StreamBuffer : Type 0 where
  pub bytes : List ℕ
  pub read : ℕ
  pub write : ℕ
  pub owned : Bool

-- A buffer, with the number of blocks that are allocated and not freed.
pub record Store : Type 0 where
  pub buffer : StreamBuffer
  pub live : ℕ

-- `fault` is undefined behaviour: an access outside a block, or a failed `malloc` that is used.
pub data Outcome : Type 0 where
  ok : Store → Outcome
  fault : Outcome
  out_of_fuel : Outcome

-- [p, p + n), from the offset of `p`.
unfoldable pub slice : List ℕ → ℕ → ℕ → List ℕ
slice xs i n = take n (drop i xs)

-- `memcpy` and `memmove` to the offset `i` of a block.
unfoldable pub overwrite : List ℕ → ℕ → List ℕ → List ℕ
overwrite xs i src = take i xs ++ (src ++ drop (i + length src) xs)

-- StreamBuffer::StreamBuffer()
unfoldable pub create : Malloc → ℕ → Store
create m live = record {
  buffer = record { bytes = m.block 2; read = 0; write = 0; owned = true };
  live = live + 1;
}

-- StreamBuffer::StreamBuffer(const char *start, int length), on the memory from `start` on.
unfoldable pub borrow : List ℕ → ℕ → StreamBuffer
borrow start n = record { bytes = take n start; read = 0; write = n; owned = false }

-- StreamBuffer::~StreamBuffer()
pub destroy : Store → ℕ
destroy s = if s.buffer.owned then s.live - 1 else s.live

unfoldable pub pay_length : StreamBuffer → ℕ
pay_length s = s.write - s.read

unfoldable pub left : StreamBuffer → ℕ
left s = length s.bytes - s.write

unfoldable pub total_left : StreamBuffer → ℕ
unfolding left
total_left s = left s + s.read

unfoldable pub copy_in : Store → List ℕ → Store
copy_in s src = record s {
  buffer = record b { bytes = overwrite b.bytes b.write src; write = b.write + length src };
}
  where
    b : StreamBuffer
    b = s.buffer

-- `memmove(begin_ptr_, read_ptr_, offset * sizeof(char))`: `offset` bytes, not the payload's.
unfoldable pub compact : Store → Store
compact s = record s {
  buffer = record b {
    bytes = overwrite b.bytes 0 (slice b.bytes b.read b.read);
    read = 0;
    write = b.write - b.read;
  };
}
  where
    b : StreamBuffer
    b = s.buffer

-- The old block is not freed.
unfoldable pub grow : Malloc → Store → Store
unfolding pay_length
grow m s = record {
  buffer = record b {
    bytes = overwrite (m.block (length b.bytes * 2)) 0 (slice b.bytes b.read (pay_length b));
    read = 0;
    write = pay_length b;
  };
  live = s.live + 1;
}
  where
    b : StreamBuffer
    b = s.buffer

-- Which of the three branches of `append` is taken for `n` bytes.
pub data Room : Type 0 where
  ready : Room
  moved : Store → Room
  bad : Room

-- The read of `memmove` must stay inside the block, and the size of a new block is an `int`.
unfoldable pub make_room : Malloc → Store → ℕ → Room
make_room m s n =
    if leb n (left b)
    then ready
    else if leb n (total_left b)
    then (if leb (b.read + b.read) cap then moved (compact s) else bad)
    else (if is_negative (mul32 cap 2) then bad else moved (grow m s))
  where
    b : StreamBuffer
    b = s.buffer

    cap : ℕ
    cap = length b.bytes

-- The recursion of `append`, on fuel.
unfoldable pub append_fuel : Malloc → ℕ → Store → List ℕ → Outcome
append_fuel m zero s src = out_of_fuel
append_fuel m (suc f) s src = elim (make_room m s (length src)) [
  | ready ↦ ok (copy_in s src)
  | moved t ↦ append_fuel m f t src
  | bad ↦ fault
]

-- void StreamBuffer::append(char *start, int length), on the `length` bytes at `start`. The empty
-- list stands for every length that is not positive.
unfoldable pub append : Malloc → Store → List ℕ → Outcome
append m s [] = ok s
append m s (c ∷ src) =
    if s.buffer.owned then append_fuel m (length (c ∷ src) + 2) s (c ∷ src) else ok s

-- The loop of `readInt32` and `readInt16` over the memory at `read_ptr_`: `none` when it leaves
-- the block.
unfoldable pub le_sum : ℕ → List ℕ → ℕ → ℕ → Option ℕ
le_sum zero memory v b = some v
le_sum (suc n) [] v b = none
le_sum (suc n) (c ∷ memory) v b = le_sum n memory (add32 v (mul32 c b)) (mul32 b 256)

-- void StreamBuffer::commit(int offset), for the offsets that are not negative.
unfoldable pub commit : StreamBuffer → ℕ → StreamBuffer
commit s offset = record s { read = s.read + offset }

-- The result of a reading: `none` is a fault, `some (none, s)` is `return false`.
abbrev pub Reading : Type 0 → Type 0
Reading A = Option (Option A × StreamBuffer)

unfoldable pub read_int : ℕ → (ℕ → ℕ) → StreamBuffer → Reading ℕ
read_int n to_host s =
    if ltb s.write (s.read + n) then some (none, s) else elim (le_sum n (drop s.read s.bytes) 0 1) [
      | none ↦ none
      | some v ↦ some (some (to_host v), commit s n)
    ]

-- bool StreamBuffer::readInt32(int &value)
unfoldable pub read_int32 : ByteOrder → StreamBuffer → Reading ℕ
unfolding read_int
read_int32 o = read_int 4 o.network_to_host_long

-- bool StreamBuffer::readInt16(int &value)
unfoldable pub read_int16 : ByteOrder → StreamBuffer → Reading ℕ
unfolding read_int
read_int16 o = read_int 2 o.network_to_host_short

-- bool StreamBuffer::readString(std::string &str, int length), for a length that is not negative.
unfoldable pub read_string : ℕ → StreamBuffer → Reading (List ℕ)
read_string n s =
    if ltb s.write (s.read + n)
    then some (none, s)
    else if ltb (length s.bytes) (s.read + n)
    then none
    else some (some (slice s.bytes s.read n), commit s n)

-- The bytes that are written and not yet read.
unfoldable pub payload : StreamBuffer → List ℕ
unfolding slice pay_length
payload s = slice s.bytes s.read (pay_length s)
