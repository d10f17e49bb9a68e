-- ===== src/StreamBuffer/Queue/Readers.antt =====
-- The readers of io/StreamBuffer.cc answer as the queue does.
use socktestprogram.Prelude.{
  ℕ, ◌+◌, ◌*◌, ◌≤◌, ◌<◌, ◌≡◌, refl, ap, subst, sym, ◌∙◌, Option, none, some, List, [], ◌∷◌, arith,
  length, length-take, take-append-drop, take, drop, le→leb, lt→leb, dec_le, AreBytes-drop,
  from_bytes,
}
use socktestprogram.Host.{ByteOrder}
use socktestprogram.StreamBuffer.{
  Malloc, Store, pay_length, read_int, read_int32, read_int16, read_string, Reading,
}
use socktestprogram.StreamBuffer.Read.{
  Took, read_int32_lem, read_int16_lem, read_string_lem, read-refused, length-payload,
}
use socktestprogram.StreamBuffer.Queue.{
  get_int32, get_int16, get_string, Answer, refused, number, text, big_endian, number_of,
  take_first, queue_step, answer_of, buffer_step, Agrees,
}

-- A call that answers as the queue does, and agrees with it afterwards.
pub record Follows (r : Option (Answer × Store)) (e : Answer × List ℕ) : Type 0 where
  pub next : Store
  pub result : r ≡ some (e.0, next)
  pub agrees : Agrees next e.1

take_first-some :
    (n : ℕ) (f : List ℕ → Answer) (q : List ℕ)
    → n ≤ length q
    → take_first n f q ≡ (f (take n q), drop n q)
unfolding take_first
take_first-some n f q h = rw (le→leb n (length q) h)

take_first-none :
    (n : ℕ) (f : List ℕ → Answer) (q : List ℕ) → length q < n → take_first n f q ≡ (refused, q)
unfolding take_first
take_first-none n f q h = rw (lt→leb n (length q) h)

-- A reader that took the bytes that the queue gives.
taken :
    {A : Type 0} (s : Store) (f : A → Answer) (r : Reading A) (v : A) (n : ℕ) (g : List ℕ → Answer)
    (q : List ℕ)
    → Agrees s q
    → n ≤ length q
    → Took s.buffer r v (drop n q)
    → f v ≡ g (take n q)
    → Follows (answer_of s f r) (take_first n g q)
unfolding answer_of
taken s f r v n g q w h t e =
    subst (Follows (answer_of s f r)) (sym (take_first-some n g q h)) (record {
      next = record s { buffer = t.after };
      result = rw t.result (ap (λ (x : Answer). some (x, record s { buffer = t.after })) e);
      agrees = record {
        valid = t.valid;
        owned = t.same_owner ∙ w.owned;
        holds = t.remains;
        bytes = AreBytes-drop n q w.bytes;
      };
    })

-- A reader that finds too few bytes.
not_taken :
    {A : Type 0} (s : Store) (f : A → Answer) (r : Reading A) (n : ℕ) (g : List ℕ → Answer)
    (q : List ℕ)
    → Agrees s q
    → length q < n
    → r ≡ some (none, s.buffer)
    → Follows (answer_of s f r) (take_first n g q)
unfolding answer_of
not_taken s f r n g q w h e =
    subst (Follows (answer_of s f r)) (sym (take_first-none n g q h))
      (record { next = s; result = rw e; agrees = w })

held-length : (s : Store) (q : List ℕ) → Agrees s q → pay_length s.buffer ≡ length q
held-length s q w = sym (length-payload s.buffer w.valid) ∙ ap length w.holds

short :
    (to_host : ℕ → ℕ) (s : Store) (q : List ℕ) (n : ℕ)
    → Agrees s q
    → length q < n
    → (read_int n to_host s.buffer ≡ some (none, s.buffer))
      × (read_string n s.buffer ≡ some (none, s.buffer))
short to_host s q n w h =
    read-refused to_host s.buffer n w.valid (omega (arith, h, held-length s q w))

pub get_int32-Follows :
    (m : Malloc) (o : ByteOrder) (s : Store) (q : List ℕ)
    → Agrees s q
    → Follows (buffer_step m o get_int32 s) (queue_step get_int32 q)
unfolding buffer_step queue_step read_int32
get_int32-Follows m o s (a ∷ b ∷ c ∷ d ∷ rest) w =
    let e : from_bytes d c b a ≡ big_endian 0 (a ∷ b ∷ c ∷ d ∷ []) = omega arith in
    taken s number (read_int32 o s.buffer) (from_bytes d c b a) 4 number_of (a ∷ b ∷ c ∷ d ∷ rest) w
      (omega arith)
      (read_int32_lem o s.buffer a b c d rest w.valid w.bytes.0 w.bytes.1.0 w.bytes.1.1.0
        w.bytes.1.1.1.0 w.holds)
      (ap number e)
get_int32-Follows m o s q w =
    not_taken s number (read_int32 o s.buffer) 4 number_of q w (omega arith)
      (short o.network_to_host_long s q 4 w (omega arith)).0

pub get_int16-Follows :
    (m : Malloc) (o : ByteOrder) (s : Store) (q : List ℕ)
    → Agrees s q
    → Follows (buffer_step m o get_int16 s) (queue_step get_int16 q)
unfolding buffer_step queue_step read_int16
get_int16-Follows m o s (a ∷ b ∷ rest) w =
    let e : b + 256 * a ≡ big_endian 0 (a ∷ b ∷ []) = omega arith in
    taken s number (read_int16 o s.buffer) (b + 256 * a) 2 number_of (a ∷ b ∷ rest) w (omega arith)
      (read_int16_lem o s.buffer a b rest w.valid w.bytes.0 w.bytes.1.0 w.holds) (ap number e)
get_int16-Follows m o s q w =
    not_taken s number (read_int16 o s.buffer) 2 number_of q w (omega arith)
      (short o.network_to_host_short s q 2 w (omega arith)).0

pub get_string-Follows :
    (m : Malloc) (o : ByteOrder) (n : ℕ) (s : Store) (q : List ℕ)
    → Agrees s q
    → Follows (buffer_step m o (get_string n) s) (queue_step (get_string n) q)
unfolding buffer_step queue_step
get_string-Follows m o n s q w = elim (dec_le n (length q)) [
  | yes h ↦
      let size : length (take n q) ≡ n = omega (arith, length-take n q) in
      taken s text (read_string n s.buffer) (take n q) n text q w h
        (subst (λ k. Took s.buffer (read_string k s.buffer) (take n q) (drop n q)) size
          (read_string_lem s.buffer (take n q) (drop n q) w.valid
            (w.holds ∙ sym (take-append-drop n q))))
        refl
  | no h ↦
      not_taken s text (read_string n s.buffer) n text q w (omega arith)
        (short (λ v. v) s q n w (omega arith)).1
]
