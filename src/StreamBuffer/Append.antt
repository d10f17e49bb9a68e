-- ===== src/StreamBuffer/Append.antt =====
-- What `append` does to the bytes that a buffer holds.
use socktestprogram.Prelude.{
  ℕ, zero, suc, ◌+◌, ◌-◌, ◌*◌, ◌/◌, ◌≤◌, ◌<◌, ◌≡◌, ap, true, List, ◌∷◌, ◌++◌, arith, leb,
  if◌then◌else◌, length, take, int_limit, le→leb, lt→leb, subst, dec_le, inl, inr, ◌⊎◌,
}
use socktestprogram.StreamBuffer.{
  Malloc, Store, Outcome, ok, fault, ready, moved, bad, pay_length, left, total_left, copy_in,
  compact, grow, make_room, append_fuel, append, destroy, payload,
}
use socktestprogram.StreamBuffer.Block.{IsValid}
use socktestprogram.StreamBuffer.Moves.{
  copy_in_lem, compact_lem, grow_lem, live-grow, read-grow, pay_length-grow, total_left-parts,
  total_left-grow, live-compact, left-compact,
}

-- What `append` of `n` bytes leaves of the held bytes: `memmove` is called when the room behind
-- them is too small and the room of the whole block is not.
abbrev pub kept : Store → ℕ → List ℕ
kept s n =
    if leb n (left s.buffer)
    then payload s.buffer
    else if leb n (total_left s.buffer)
    then take s.buffer.read (payload s.buffer)
      ++ take (pay_length s.buffer - s.buffer.read) (payload s.buffer)
    else payload s.buffer

-- A result of `append` that holds `held`, with no fewer live blocks than `live`.
pub record Holds (o : Outcome) (held : List ℕ) (live : ℕ) : Type 0 where
  pub store : Store
  pub is_ok : o ≡ ok store
  pub valid : IsValid store.buffer
  pub holds : payload store.buffer ≡ held
  pub blocks : live ≤ store.live

make_room-ready : (m : Malloc) (s : Store) (n : ℕ) → n ≤ left s.buffer → make_room m s n ≡ ready
unfolding make_room
make_room-ready m s n h = ground arith

make_room-compact :
    (m : Malloc) (s : Store) (n : ℕ)
    → left s.buffer < n
    → n ≤ total_left s.buffer
    → s.buffer.read + s.buffer.read ≤ length s.buffer.bytes
    → make_room m s n ≡ moved (compact s)
unfolding make_room
make_room-compact m s n h k e = ground arith

make_room-bad :
    (m : Malloc) (s : Store) (n : ℕ)
    → left s.buffer < n
    → n ≤ total_left s.buffer
    → length s.buffer.bytes < s.buffer.read + s.buffer.read
    → make_room m s n ≡ bad
unfolding make_room
make_room-bad m s n h k e = ground arith

make_room-grow :
    (m : Malloc) (s : Store) (n : ℕ)
    → total_left s.buffer < n
    → length s.buffer.bytes * 2 < int_limit
    → make_room m s n ≡ moved (grow m s)
unfolding make_room total_left
make_room-grow m s n h e = ground arith

cap_small :
    (s : Store)
    → IsValid s.buffer
    → (n : ℕ) → total_left s.buffer < n
    → pay_length s.buffer + n ≤ int_limit / 2
    → length s.buffer.bytes * 2 < int_limit
cap_small s v n h k = omega (arith, total_left-parts s v)

start_decides :
    (s : Store) (n : ℕ) → s.buffer.read ≡ 0 → (n ≤ left s.buffer) ⊎ (total_left s.buffer < n)
unfolding total_left
start_decides s n e = elim (dec_le n (left s.buffer)) [ yes h ↦ inl h | no h ↦ inr (omega arith) ]

pub append_fuel-ready :
    (m : Malloc) (f : ℕ) (s : Store) (src : List ℕ)
    → IsValid s.buffer
    → length src ≤ left s.buffer
    → Holds (append_fuel m (suc f) s src) (payload s.buffer ++ src) s.live
unfolding append_fuel copy_in
append_fuel-ready m f s src v h = record {
  store = copy_in s src;
  is_ok = rw (make_room-ready m s (length src) h, append_fuel);
  valid = (copy_in_lem s src v h).0;
  holds = (copy_in_lem s src v h).1;
  blocks = omega arith;
}

-- The recursion continues on the buffer that a `moved` step leaves.
append_fuel-moved :
    (m : Malloc) (f : ℕ) (s t : Store) (src held : List ℕ)
    → make_room m s (length src) ≡ moved t
    → s.live ≤ t.live
    → Holds (append_fuel m f t src) held t.live
    → Holds (append_fuel m (suc f) s src) held s.live
unfolding append_fuel
append_fuel-moved m f s t src held e l k = record {
  store = k.store;
  is_ok = rw (e, append_fuel) k.is_ok;
  valid = k.valid;
  holds = k.holds;
  blocks = omega (arith, l, k.blocks);
}

-- From the start of the block on, `append` only ever grows it, until `src` fits.
pub append_fuel-grow :
    (m : Malloc) (f : ℕ) (s : Store) (src : List ℕ)
    → IsValid s.buffer
    → (length src ≤ left s.buffer) ⊎ (total_left s.buffer < length src)
    → 2 ≤ f
    → length src + 2 ≤ total_left s.buffer + f
    → pay_length s.buffer + length src ≤ int_limit / 2
    → Holds (append_fuel m f s src) (payload s.buffer ++ src) s.live
append_fuel-grow m zero s src v c h k b = absurd (omega arith)
append_fuel-grow m (suc f) s src v (inl fits) h k b = append_fuel-ready m f s src v fits
append_fuel-grow m (suc f) s src v (inr more) h k b =
    append_fuel-moved m f s (grow m s) src (payload s.buffer ++ src)
      (make_room-grow m s (length src) more (cap_small s v (length src) more b))
      (omega (arith, live-grow m s))
      (subst (λ held. Holds (append_fuel m f (grow m s) src) (held ++ src) (grow m s).live)
        (grow_lem m s v).1
        (append_fuel-grow m f (grow m s) src (grow_lem m s v).0
          (start_decides (grow m s) (length src) (read-grow m s))
          (omega (arith, total_left-grow m s v, v.not_empty))
          (omega (arith, total_left-grow m s v, v.not_empty)) (omega (arith, pay_length-grow m s))))

pub append_fuel-compact :
    (m : Malloc) (f : ℕ) (s : Store) (src : List ℕ)
    → IsValid s.buffer
    → left s.buffer < length src
    → length src ≤ total_left s.buffer
    → s.buffer.read + s.buffer.read ≤ length s.buffer.bytes
    → Holds
        (append_fuel m (suc (suc f)) s src)
        ((take s.buffer.read (payload s.buffer)
            ++ take (pay_length s.buffer - s.buffer.read) (payload s.buffer))
          ++ src)
        s.live
append_fuel-compact m f s src v h k e =
    append_fuel-moved m (suc f) s (compact s) src _ (make_room-compact m s (length src) h k e)
      (live-compact s)
      (subst (λ held. Holds (append_fuel m (suc f) (compact s) src) (held ++ src) (compact s).live)
        (compact_lem s v e).1
        (append_fuel-ready m f (compact s) src (compact_lem s v e).0
          (omega (arith, k, left-compact s v e))))

pub append-owned :
    (m : Malloc) (s : Store) (c : ℕ) (src : List ℕ)
    → s.buffer.owned ≡ true
    → append m s (c ∷ src) ≡ append_fuel m (suc (suc (length (c ∷ src)))) s (c ∷ src)
unfolding append
append-owned m s c src own =
    let fuel : length (c ∷ src) + 2 ≡ suc (suc (length (c ∷ src))) = omega arith in
    simp own (ap (λ f. append_fuel m f s (c ∷ src)) fuel)

-- `memmove` is called, and is asked to read behind the block: the count that it gets is the offset.
abbrev pub ReadsBehind : Store → ℕ → Type 0
ReadsBehind s n =
    (left s.buffer < n)
    × (n ≤ total_left s.buffer)
    × (length s.buffer.bytes < s.buffer.read + s.buffer.read)

append_fuel-bad :
    (m : Malloc) (f : ℕ) (s : Store) (src : List ℕ)
    → ReadsBehind s (length src)
    → append_fuel m (suc f) s src ≡ fault
unfolding append_fuel
append_fuel-bad m f s src h = rw (make_room-bad m s (length src) h.0 h.1 h.2, append_fuel)

-- The recursion of `append` on each of its branches.
append_fuel-kept :
    (m : Malloc) (s : Store) (src : List ℕ)
    → IsValid s.buffer
    → pay_length s.buffer + length src ≤ int_limit / 2
    → (ReadsBehind s (length src) × (append_fuel m (suc (suc (length src))) s src ≡ fault))
      ⊎ ((ReadsBehind s (length src) → ⊥)
          × Holds
              (append_fuel m (suc (suc (length src))) s src)
              (kept s (length src) ++ src)
              s.live)
append_fuel-kept m s src v small = elim (dec_le n (left s.buffer)) [
  | yes fits ↦ rw (le→leb n (left s.buffer) fits) (
      inr (
        (λ (h : ReadsBehind s n). absurd (omega (arith, h.0, h.1, h.2))),
        append_fuel-ready m (suc n) s src v fits,
      ))
  | no tight ↦ elim (dec_le n (total_left s.buffer)) [
    | yes room ↦ elim (dec_le (s.buffer.read + s.buffer.read) (length s.buffer.bytes)) [
      | yes e ↦
          rw (lt→leb n (left s.buffer) (omega arith), le→leb n (total_left s.buffer) room)
            (inr (
              (λ (h : ReadsBehind s n). absurd (omega (arith, h.0, h.1, h.2))),
              append_fuel-compact m n s src v (omega arith) room e,
            ))
      | no e ↦
          let behind : ReadsBehind s n = (omega arith, room, omega arith) in
          inl (behind, append_fuel-bad m (suc n) s src behind)
    ]
    | no full ↦
        rw (lt→leb n (left s.buffer) (omega arith), lt→leb n (total_left s.buffer) (omega arith))
          (inr (
            (λ (h : ReadsBehind s n). absurd (omega (arith, h.0, h.1, h.2))),
            append_fuel-grow m (suc (suc n)) s src v (inr (omega arith)) (omega arith) (omega arith)
                small,
          ))
  ]
]
  where
    n : ℕ
    n = length src

-- `append` of a list that is not empty to a buffer that owns its block, when what is held and the
-- list together have at most 2 ^ 30 bytes: either `memmove` is called and reads behind the block, or
-- that is not so, and `append` returns a valid buffer that holds the `kept` bytes and then the list.
pub append_lem :
    (m : Malloc) (s : Store) (c : ℕ) (src : List ℕ)
    → IsValid s.buffer
    → s.buffer.owned ≡ true
    → pay_length s.buffer + length (c ∷ src) ≤ int_limit / 2
    → (ReadsBehind s (length (c ∷ src)) × (append m s (c ∷ src) ≡ fault))
      ⊎ ((ReadsBehind s (length (c ∷ src)) → ⊥)
          × Holds (append m s (c ∷ src)) (kept s (length (c ∷ src)) ++ (c ∷ src)) s.live)
append_lem m s c src v own small =
    rw (append-owned m s c src own) (append_fuel-kept m s (c ∷ src) v small)

-- A growth leaves the old block allocated: when the bytes do not fit in the whole block, there is
-- at least one live block more after `append`, and the destructor frees one block only.
pub append-leaks :
    (m : Malloc) (s : Store) (c : ℕ) (src : List ℕ)
    → IsValid s.buffer
    → s.buffer.owned ≡ true
    → total_left s.buffer < length (c ∷ src)
    → pay_length s.buffer + length (c ∷ src) ≤ int_limit / 2
    → (t : Store) × (append m s (c ∷ src) ≡ ok t) × (s.live < t.live) × (s.live ≤ destroy t)
unfolding destroy append_fuel
append-leaks m s c src v own full small =
    let n : ℕ = length (c ∷ src) in
    let k : Holds (append_fuel m (suc n) (grow m s) (c ∷ src)) _ (grow m s).live =
      append_fuel-grow m (suc n) (grow m s) (c ∷ src) (grow_lem m s v).0
        (start_decides (grow m s) n (read-grow m s)) (omega arith)
        (omega (arith, total_left-grow m s v, v.not_empty)) (omega (arith, pay_length-grow m s)) in
    (
      k.store,
      rw (append-owned m s c src own)
          (rw (make_room-grow m s n full (cap_small s v n full small), append_fuel) k.is_ok),
      omega (arith, k.blocks, live-grow m s),
      ground (arith, k.blocks, live-grow m s),
    )
