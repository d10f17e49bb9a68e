-- ===== src/StreamBuffer/Queue/Refinement.antt =====
-- io/StreamBuffer.cc keeps the contract of a queue.
use socktestprogram.Prelude.{
  ℕ, zero, suc, ◌+◌, ◌-◌, ◌/◌, ◌≤◌, ◌<◌, ◌≡◌, inr, refl, ap, subst, sym, ◌∙◌, true, some, List, [],
  ◌∷◌, ◌++◌, arith, append-nil, length, take-all, take, int_limit, dec_le, AreBytes,
}
use socktestprogram.Host.{ByteOrder}
use socktestprogram.StreamBuffer.{
  Malloc, Store, ok, fault, ready, moved, bad, pay_length, left, total_left, copy_in, compact, grow,
  make_room, Room, append_fuel, append, payload,
}
use socktestprogram.StreamBuffer.Block.{IsValid}
use socktestprogram.StreamBuffer.Append.{
  Holds, append-owned, append_fuel-ready, append_fuel-grow, append_fuel-compact,
}
use socktestprogram.StreamBuffer.Read.{length-payload}
use socktestprogram.StreamBuffer.Queue.{
  Call, put, get_int32, get_int16, get_string, Answer, queue_step, queue_run, put_answer,
  buffer_step, buffer_run, is_kept, all_kept, ArePut, Agrees,
}
use socktestprogram.StreamBuffer.Queue.Readers.{
  Follows, get_int32-Follows, get_int16-Follows, get_string-Follows,
}

-- `append` neither takes nor gives away the block.
make_room-owned :
    (m : Malloc) (s t : Store) (n : ℕ) → make_room m s n ≡ moved t → t.buffer.owned ≡ s.buffer.owned
unfolding make_room compact grow
make_room-owned m s t n e = ground arith

append_fuel-owned :
    (m : Malloc) (f : ℕ) (s t : Store) (src : List ℕ)
    → append_fuel m f s src ≡ ok t
    → t.buffer.owned ≡ s.buffer.owned
unfolding append_fuel copy_in
append_fuel-owned m zero s t src e = cc
append_fuel-owned m (suc f) s t src e =
    go (append_fuel-owned m f) (make_room m s (length src)) refl e
  where
    go :
        ((u v : Store) (bs : List ℕ)
          → append_fuel m f u bs ≡ ok v
          → v.buffer.owned ≡ u.buffer.owned)
        → (r : Room) → make_room m s (length src) ≡ r
        → elim r [ ready ↦ ok (copy_in s src) | moved u ↦ append_fuel m f u src | bad ↦ fault ]
          ≡ ok t
        → t.buffer.owned ≡ s.buffer.owned
    go ih ready q h = ground arith
    go ih (moved u) q h = ih u t src h ∙ make_room-owned m s u (length src) q
    go ih bad q h = cc

ok-injective : {s t : Store} → ok s ≡ ok t → s ≡ t
ok-injective e = cc

AreBytes-append : (xs ys : List ℕ) → AreBytes xs → AreBytes ys → AreBytes (xs ++ ys)
AreBytes-append [] ys h k = k
AreBytes-append (x ∷ xs) ys h k = (h.0, AreBytes-append xs ys h.1 k)

is_kept-small :
    (s : Store) (src : List ℕ)
    → is_kept (put src) s.buffer ≡ true
    → pay_length s.buffer + length src ≤ int_limit / 2
unfolding is_kept
is_kept-small s src h = ground arith

-- What `is_kept` says of an `append` that calls `memmove`.
moved_inside :
    (s : Store) (src : List ℕ)
    → left s.buffer < length src
    → length src ≤ total_left s.buffer
    → is_kept (put src) s.buffer ≡ true
    → (pay_length s.buffer ≤ s.buffer.read)
      × (s.buffer.read + s.buffer.read ≤ length s.buffer.bytes)
unfolding is_kept
moved_inside s src h k e = ground arith

-- Then `memmove` moves all that is held, and nothing twice.
moved_whole :
    (s : Store)
    → IsValid s.buffer
    → pay_length s.buffer ≤ s.buffer.read
    → take s.buffer.read (payload s.buffer)
        ++ take (pay_length s.buffer - s.buffer.read) (payload s.buffer)
      ≡ payload s.buffer
moved_whole s v h =
    let size : length (payload s.buffer) ≤ s.buffer.read =
      omega (arith, h, length-payload s.buffer v) in
    let none_left : pay_length s.buffer - s.buffer.read ≡ 0 = omega arith in
    rw (take-all s.buffer.read (payload s.buffer) size, none_left) (append-nil (payload s.buffer))

-- An `append` that keeps all that is held.
append_fuel-keeps :
    (m : Malloc) (s : Store) (src : List ℕ)
    → IsValid s.buffer
    → is_kept (put src) s.buffer ≡ true
    → Holds (append_fuel m (suc (suc (length src))) s src) (payload s.buffer ++ src) s.live
append_fuel-keeps m s src v h = elim (dec_le n (left s.buffer)) [
  | yes fits ↦ append_fuel-ready m (suc n) s src v fits
  | no tight ↦ elim (dec_le n (total_left s.buffer)) [
    | yes room ↦
        let (small, inside) = moved_inside s src (omega arith) room h in
        subst (λ held. Holds (append_fuel m (suc (suc n)) s src) (held ++ src) s.live)
          (moved_whole s v small) (append_fuel-compact m n s src v (omega arith) room inside)
    | no full ↦
        append_fuel-grow m (suc (suc n)) s src v (inr (omega arith)) (omega arith) (omega arith)
          (is_kept-small s src h)
  ]
]
  where
    n : ℕ
    n = length src

append-Follows :
    (m : Malloc) (o : ByteOrder) (src : List ℕ) (s : Store) (q : List ℕ)
    → Agrees s q
    → AreBytes src
    → is_kept (put src) s.buffer ≡ true
    → Follows (buffer_step m o (put src) s) (queue_step (put src) q)
unfolding buffer_step queue_step append
append-Follows m o [] s q w b h = record {
  next = s;
  result = refl;
  agrees = subst (Agrees s) (sym (append-nil q)) w;
}
append-Follows m o (c ∷ src) s q w b h =
    let k : Holds (append m s (c ∷ src)) (payload s.buffer ++ (c ∷ src)) s.live =
      rw (append-owned m s c src w.owned) (append_fuel-keeps m s (c ∷ src) w.valid h) in
    record {
      next = k.store;
      result = ap put_answer k.is_ok;
      agrees = record {
        valid = k.valid;
        owned =
            append_fuel-owned m (suc (suc (length (c ∷ src)))) s k.store (c ∷ src)
              (sym (append-owned m s c src w.owned) ∙ k.is_ok)
            ∙ w.owned;
        holds = k.holds ∙ ap (λ p. p ++ (c ∷ src)) w.holds;
        bytes = AreBytes-append q (c ∷ src) w.bytes b;
      };
    }

step-Follows :
    (m : Malloc) (o : ByteOrder) (c : Call) (s : Store) (q : List ℕ)
    → Agrees s q
    → ArePut (c ∷ [])
    → is_kept c s.buffer ≡ true
    → Follows (buffer_step m o c s) (queue_step c q)
step-Follows m o (put src) s q w b h = append-Follows m o src s q w b.0 h
step-Follows m o get_int32 s q w b h = get_int32-Follows m o s q w
step-Follows m o get_int16 s q w b h = get_int16-Follows m o s q w
step-Follows m o (get_string n) s q w b h = get_string-Follows m o n s q w

ArePut-split : (c : Call) (cs : List Call) → ArePut (c ∷ cs) → ArePut (c ∷ []) × ArePut cs
ArePut-split (put src) cs h = ((h.0, tt), h.1)
ArePut-split get_int32 cs h = (tt, h)
ArePut-split get_int16 cs h = (tt, h)
ArePut-split (get_string n) cs h = (tt, h)

kept-first :
    (m : Malloc) (o : ByteOrder) (c : Call) (cs : List Call) (s : Store)
    → all_kept m o (c ∷ cs) s ≡ true
    → is_kept c s.buffer ≡ true
unfolding all_kept
kept-first m o c cs s h = ground arith

kept-rest :
    (m : Malloc) (o : ByteOrder) (c : Call) (cs : List Call) (s : Store) {a : Answer} {t : Store}
    → all_kept m o (c ∷ cs) s ≡ true
    → buffer_step m o c s ≡ some (a, t)
    → all_kept m o cs t ≡ true
unfolding all_kept
kept-rest m o c cs s h e = ground arith

run-step :
    (m : Malloc) (o : ByteOrder) (c : Call) (cs : List Call) (s : Store) {a : Answer} {t u : Store}
    {as' : List Answer}
    → buffer_step m o c s ≡ some (a, t)
    → buffer_run m o cs t ≡ some (as', u)
    → buffer_run m o (c ∷ cs) s ≡ some (a ∷ as', u)
unfolding buffer_run
run-step m o c cs s e h = rw (e, buffer_run, h) refl

-- The buffer is a queue: for every valid buffer that owns its block and holds bytes, and every
-- sequence of calls of `append`, `readInt32`, `readInt16` and `readString` in which each `append`
-- keeps what is held, the calls return without an access outside a block, each answers as the queue
-- does that holds the same bytes, and in the end the buffer holds what is in the queue.
pub run-refines :
    (m : Malloc) (o : ByteOrder) (cs : List Call) (s : Store) (q : List ℕ)
    → Agrees s q
    → ArePut cs
    → all_kept m o cs s ≡ true
    → (t : Store) × (buffer_run m o cs s ≡ some ((queue_run cs q).0, t))
      × Agrees t (queue_run cs q).1
unfolding buffer_run queue_run all_kept
run-refines m o [] s q w b h = (s, refl, w)
run-refines m o (c ∷ cs) s q w b h =
    let parts : ArePut (c ∷ []) × ArePut cs = ArePut-split c cs b in
    let f : Follows (buffer_step m o c s) (queue_step c q) =
      step-Follows m o c s q w parts.0 (kept-first m o c cs s h) in
    let (t, e, u) =
      run-refines m o cs f.next (queue_step c q).1 f.agrees parts.1
        (kept-rest m o c cs s h f.result) in
    (t, run-step m o c cs s f.result e, u)
