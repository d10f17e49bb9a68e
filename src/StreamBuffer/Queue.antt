-- ===== src/StreamBuffer/Queue.antt =====
-- The contract of io/StreamBuffer.h: a buffer that owns its block is a queue of bytes.
pub mod Readers
pub mod Refinement
use socktestprogram.Prelude.{
  ℕ, zero, suc, ◌+◌, ◌-◌, ◌*◌, ◌/◌, ◌≤◌, ◌<◌, ◌≡◌, ◌⊎◌, inl, inr, refl, ap, subst, sym, ◌∙◌, Bool,
  true, false, ◌&&◌, ◌||◌, Bool-cases, Option, none, some, List, [], ◌∷◌, ◌++◌, arith, append-nil,
  ltb, leb, if◌then◌else◌, length, length-take, take-all, take-append-drop, take, drop, int_limit,
  le→leb, lt→leb, dec_le, AreBytes, AreBytes-drop, from_bytes,
}
use socktestprogram.Host.{ByteOrder}
use socktestprogram.StreamBuffer.{
  Malloc, StreamBuffer, Store, Outcome, ok, fault, out_of_fuel, ready, moved, bad, pay_length, left,
  total_left, copy_in, compact, grow, make_room, Room, append_fuel, append, read_int, read_int32,
  read_int16, read_string, Reading, payload,
}
use socktestprogram.StreamBuffer.Block.{IsValid}
use socktestprogram.StreamBuffer.Append.{
  Holds, append-owned, append_fuel-ready, append_fuel-grow, append_fuel-compact,
}
use socktestprogram.StreamBuffer.Read.{
  Took, read_int32_lem, read_int16_lem, read_string_lem, read-refused, length-payload,
}

-- A call of a member function, and what it answers.
pub data Call : Type 0 where
  put : List ℕ → Call
  get_int32 get_int16 : Call
  get_string : ℕ → Call

pub data Answer : Type 0 where
  silent refused : Answer
  number : ℕ → Answer
  text : List ℕ → Answer

-- The number that bytes make, the highest first.
abbrev pub big_endian : ℕ → List ℕ → ℕ
big_endian v [] = v
big_endian v (c ∷ cs) = big_endian (v * 256 + c) cs

abbrev pub number_of : List ℕ → Answer
number_of b = number (big_endian 0 b)

-- The queue: bytes are put behind the others and taken from the front, all that is asked for or none.
unfoldable pub take_first : ℕ → (List ℕ → Answer) → List ℕ → Answer × List ℕ
take_first n f q = if leb n (length q) then (f (take n q), drop n q) else (refused, q)

unfoldable pub queue_step : Call → List ℕ → Answer × List ℕ
unfolding take_first
queue_step (put src) q = (silent, q ++ src)
queue_step get_int32 q = take_first 4 number_of q
queue_step get_int16 q = take_first 2 number_of q
queue_step (get_string n) q = take_first n text q

unfoldable pub queue_run : List Call → List ℕ → List Answer × List ℕ
unfolding queue_step
queue_run [] q = ([], q)
queue_run (c ∷ cs) q =
    let (a, r) = queue_step c q in let (as', end) = queue_run cs r in (a ∷ as', end)

-- The same calls on the buffer; `none` is undefined behaviour.
unfoldable pub answer_of : {A : Type 0} → Store → (A → Answer) → Reading A → Option (Answer × Store)
answer_of s f none = none
answer_of s f (some (none, b)) = some (refused, record s { buffer = b })
answer_of s f (some (some v, b)) = some (f v, record s { buffer = b })

unfoldable pub put_answer : Outcome → Option (Answer × Store)
put_answer (ok s) = some (silent, s)
put_answer fault = none
put_answer out_of_fuel = none

unfoldable pub buffer_step : Malloc → ByteOrder → Call → Store → Option (Answer × Store)
unfolding answer_of put_answer
buffer_step m o (put src) s = put_answer (append m s src)
buffer_step m o get_int32 s = answer_of s number (read_int32 o s.buffer)
buffer_step m o get_int16 s = answer_of s number (read_int16 o s.buffer)
buffer_step m o (get_string n) s = answer_of s text (read_string n s.buffer)

abbrev pub add_answer : Answer → Option (List Answer × Store) → Option (List Answer × Store)
add_answer a none = none
add_answer a (some (as', s)) = some (a ∷ as', s)

unfoldable pub buffer_run : Malloc → ByteOrder → List Call → Store → Option (List Answer × Store)
buffer_run m o [] s = some ([], s)
buffer_run m o (c ∷ cs) s = elim (buffer_step m o c s) [
  | none ↦ none
  | some (a, t) ↦ add_answer a (buffer_run m o cs t)
]

-- Whether `append` of `n` bytes keeps all that is held: it calls no `memmove`, or the bytes that
-- `memmove` is asked for are at least those held and inside the block.
unfoldable pub keeps : StreamBuffer → ℕ → Bool
keeps b n =
    leb n (left b)
    || (ltb (total_left b) n
        || (leb (pay_length b) b.read && leb (b.read + b.read) (length b.bytes)))

unfoldable pub is_kept : Call → StreamBuffer → Bool
unfolding keeps left total_left pay_length
is_kept (put src) b = leb (pay_length b + length src) (int_limit / 2) && keeps b (length src)
is_kept other b = true

-- Each `append` of the run keeps what is held then, and 2 ^ 30 bytes are never exceeded.
unfoldable pub all_kept : Malloc → ByteOrder → List Call → Store → Bool
unfolding is_kept
all_kept m o [] s = true
all_kept m o (c ∷ cs) s =
    is_kept c s.buffer
    && elim (buffer_step m o c s) [ none ↦ true | some (a, t) ↦ all_kept m o cs t ]

-- What is put are bytes.
abbrev pub ArePut : List Call → Type 0
ArePut [] = Unit
ArePut (put src ∷ cs) = AreBytes src × ArePut cs
ArePut (c ∷ cs) = ArePut cs

-- The buffer holds what is in the queue.
pub record Agrees (s : Store) (q : List ℕ) : Type 0 where
  pub valid : IsValid s.buffer
  pub owned : s.buffer.owned ≡ true
  pub holds : payload s.buffer ≡ q
  pub bytes : AreBytes q
