-- ===== src/Binding/Patterns/Exchange.antt =====
-- The values that `_pattern_pack` puts into a block are those that `_pattern_unpack` finds in it.
use socktestprogram.Prelude.{
  ℕ, suc, ◌+◌, ◌-◌, ◌≤◌, ◌<◌, ◌≡◌, refl, ap, ap₂, subst, sym, ◌∙◌, some, List, [], ◌∷◌, ◌++◌, map,
  arith, length, take, drop, replicate, get_elem?, int_limit, add32, word, length-append,
  length-drop, length-replicate, drop-replicate, append_assoc, append-nil, take-append, drop-append,
  le→leb,
}
use socktestprogram.StreamBuffer.{slice, overwrite}
use socktestprogram.Pbc.{Api, IsLawful}
use socktestprogram.Binding.{>>=-done, Value, State, done}
use socktestprogram.Binding.Fields.{width, encode, store, get_value, decode_value, push_value}
use socktestprogram.Binding.Fields.Codec.{
  Field, int_field, uint_field, int64_field, bool_field, pointer_field, bytes8_field, real_field,
  str_field, code_of, letter_of, value_of, IsCarried, field_bytes, letter-code_of, is_small-code_of,
  encode_lem, decode_lem, length-field_bytes,
}
use socktestprogram.Binding.Patterns.{size_of, total_size, pack_values, unpack_values}
use socktestprogram.Binding.Patterns.Cells.{
  drop-drop, overwrite-append, cell, length-cell, cell-split,
}

module _ (a : Api) where
  store_lem :
      (b pre rest : List ℕ) (n : ℕ) (s : State a)
      → length b ≤ n
      → n ≤ length rest
      → store a b n (pre ++ rest, length pre) s
        ≡ done ((pre ++ cell b n rest) ++ drop n rest, length (pre ++ cell b n rest)) s
  unfolding store
  store_lem b pre rest n s h k =
      let inside : length pre + n ≤ length (pre ++ rest) = omega (arith, length-append pre rest) in
      let block : overwrite (pre ++ rest) (length pre) b ≡ (pre ++ cell b n rest) ++ drop n rest =
        overwrite-append pre rest b
        ∙ (ap (λ r. pre ++ r) (cell-split b n rest h)
            ∙ sym (append_assoc pre (cell b n rest) (drop n rest))) in
      let moved : length pre + n ≡ length (pre ++ cell b n rest) =
        omega (arith, length-append pre (cell b n rest), length-cell b n rest h k) in
      rw (le→leb (length pre + n) (length (pre ++ rest)) inside)
        (ap₂ (λ x y. done (x, y) s) block moved)

  -- A cell is read where it stands.
  slice-append :
      (pre c rest : List ℕ) (n : ℕ) → length c ≡ n → slice (pre ++ (c ++ rest)) (length pre) n ≡ c
  unfolding slice
  slice-append pre c rest n e =
      ap (take n) (drop-append pre (c ++ rest) (length pre) refl) ∙ take-append c rest n (sym e)

  abbrev pub sizes : List (Field a) → ℕ
  sizes [] = 0
  sizes (f ∷ fs) = width (letter_of a f) + sizes fs

  abbrev pub AreCarried : List (Field a) → Type 0
  AreCarried [] = Unit
  AreCarried (f ∷ fs) = IsCarried a f × AreCarried fs

  abbrev pub format_of : List (Field a) → List ℕ
  format_of = map (code_of a)

  abbrev pub values_of : List (Field a) → List (Value a)
  values_of = map (value_of a)

get_elem?-append_cons :
    {A : Type 0} (xs ys : List A) (y : A) → get_elem? (xs ++ y ∷ ys) (length xs) ≡ some y
get_elem?-append_cons [] ys y = refl
get_elem?-append_cons (x ∷ xs) ys y = get_elem?-append_cons xs ys y

module _ (a : Api) (law : IsLawful a) where
  abbrev cell_of : Field a → List ℕ → List ℕ
  cell_of f rest = cell (field_bytes a f) (width (letter_of a f)) rest

  size_of_lem : (f : Field a) → size_of (code_of a f) ≡ width (letter_of a f)
  unfolding size_of width
  size_of_lem (int_field n) = refl
  size_of_lem (uint_field w) = refl
  size_of_lem (int64_field w) = refl
  size_of_lem (bool_field b) = refl
  size_of_lem (pointer_field p) = refl
  size_of_lem (bytes8_field s) = refl
  size_of_lem (real_field x) = refl
  size_of_lem (str_field s) = refl

  get_value_lem :
      (f : Field a) (i : ℕ) (args : List (Value a)) (pre rest : List ℕ) (s : State a)
      → IsCarried a f
      → get_elem? args (i - 1) ≡ some (value_of a f)
      → width (letter_of a f) ≤ length rest
      → get_value a i args (code_of a f) (pre ++ rest, length pre) s
        ≡ done
            (
              (pre ++ cell_of f rest) ++ drop (width (letter_of a f)) rest,
              length (pre ++ cell_of f rest),
            )
            s
  unfolding get_value
  get_value_lem f i args pre rest s h e k =
      rw (letter-code_of a f, get_value)
        (>>=-done a (encode a (letter_of a f) i args) _ (encode_lem a law f i args s h e)
          ∙ store_lem a (field_bytes a f) pre rest (width (letter_of a f)) s
              (length-field_bytes a law f h) k)

  push_value_lem :
      (f : Field a) (rest pre tail : List ℕ) (t : State a)
      → IsCarried a f
      → width (letter_of a f) ≤ length rest
      → push_value a (code_of a f) (pre ++ (cell_of f rest ++ tail), length pre) t
        ≡ done (value_of a f ∷ [], length (pre ++ cell_of f rest)) t
  unfolding push_value
  push_value_lem f rest pre tail t h k =
      let w : ℕ = width (letter_of a f) in
      let b : List ℕ = field_bytes a f in
      let c : List ℕ = cell_of f rest in
      let pad : List ℕ = take (w - length b) (drop (length b) rest) in
      let long : length b ≤ w = length-field_bytes a law f h in
      let size : length c ≡ w = length-cell b w rest long k in
      let inside : length pre + w ≤ length (pre ++ (c ++ tail)) =
        omega (arith, length-append pre (c ++ tail), length-append c tail, size) in
      let padding : length b + length pad ≡ w = omega (arith, length-append b pad, size) in
      let read : decode_value a (letter_of a f) (slice (pre ++ (c ++ tail)) (length pre) w) t
          ≡ done (value_of a f) t =
        ap (λ x. decode_value a (letter_of a f) x t) (slice-append a pre c tail w size)
        ∙ decode_lem a law f pad t h padding in
      let moved : length pre + w ≡ length (pre ++ c) = omega (arith, length-append pre c, size) in
      rw
        (
          letter-code_of a f,
          push_value,
          le→leb (length pre + w) (length (pre ++ (c ++ tail))) inside,
        )
        (>>=-done a (decode_value a (letter_of a f) (slice (pre ++ (c ++ tail)) (length pre) w)) _
            read
          ∙ ap (λ n. done (value_of a f ∷ [], n) t) moved)

  -- What `_pattern_pack` makes of the values: the bytes of a body, which `_pattern_unpack` reads
  -- wherever they stand.
  record Packed (fs : List (Field a)) (pre rest : List ℕ) (i : ℕ) (args : List (Value a))
      (s : State a) : Type 0 where
    body : List ℕ
    size : length body ≡ sizes a fs
    packs :
        pack_values a (format_of a fs) i args (pre ++ rest, length pre) s
        ≡ done ((pre ++ body) ++ drop (sizes a fs) rest, length (pre ++ body)) s
    reads :
        (front tail : List ℕ) (t : State a)
        → unpack_values a (format_of a fs) (front ++ (body ++ tail), length front) t
          ≡ done (values_of a fs, length (front ++ body)) t

  packed :
      (fs : List (Field a)) (pre rest : List ℕ) (i : ℕ) (before args : List (Value a)) (s : State a)
      → AreCarried a fs
      → sizes a fs ≤ length rest
      → i ≡ suc (length before)
      → args ≡ before ++ values_of a fs
      → Packed fs pre rest i args s
  unfolding pack_values unpack_values
  packed [] pre rest i before args s h k ei ea = record {
    body = [];
    size = refl;
    packs = ap (λ p. done (p ++ rest, length p) s) (sym (append-nil pre));
    reads = λ front tail t. ap (λ p. done ([], length p) t) (sym (append-nil front));
  }
  packed (f ∷ fs) pre rest i before args s h k ei ea =
      let w : ℕ = width (letter_of a f) in
      let c : List ℕ = cell_of f rest in
      let vs : List (Value a) = values_of a fs in
      let size : length c ≡ w =
        length-cell (field_bytes a f) w rest (length-field_bytes a law f h.0) (omega arith) in
      let here : get_elem? args (i - 1) ≡ some (value_of a f) =
        ap₂ get_elem? ea (omega arith) ∙ get_elem?-append_cons before vs (value_of a f) in
      let r : Packed fs (pre ++ c) (drop w rest) (suc i) args s =
        packed fs (pre ++ c) (drop w rest) (suc i) (before ++ value_of a f ∷ []) args s h.1
          (omega (arith, length-drop w rest))
          (omega (arith, length-append before (value_of a f ∷ [])))
          (ea ∙ sym (append_assoc before (value_of a f ∷ []) vs)) in
      record {
        body = c ++ r.body;
        size = omega (arith, length-append c r.body, size, r.size);
        packs = rw (is_small-code_of a f) (
            >>=-done a (get_value a i args (code_of a f) (pre ++ rest, length pre)) _
              (get_value_lem f i args pre rest s h.0 here (omega arith))
            ∙ (r.packs
                ∙ ap₂ (λ x y. done (x ++ y, length x) s) (append_assoc pre c r.body)
                    (drop-drop (sizes a fs) w rest)));
        reads = λ front tail t.
            let later : List ℕ = r.body ++ tail in
            let flat : front ++ ((c ++ r.body) ++ tail) ≡ front ++ (c ++ later) =
              ap (λ x. front ++ x) (append_assoc c r.body tail) in
            let inner : unpack_values a (format_of a fs)
                  (front ++ (c ++ later), length (front ++ c)) t
                ≡ done (vs, length ((front ++ c) ++ r.body)) t =
              ap (λ x. unpack_values a (format_of a fs) (x, length (front ++ c)) t)
                (sym (append_assoc front c later))
              ∙ r.reads (front ++ c) tail t in
            ap (λ x. unpack_values a (format_of a (f ∷ fs)) (x, length front) t) flat
            ∙ rw (is_small-code_of a f) (
                >>=-done a (push_value a (code_of a f) (front ++ (c ++ later), length front)) _
                  (push_value_lem f rest front later t h.0 (omega arith))
                ∙ (>>=-done a
                      (unpack_values a (format_of a fs)
                        (front ++ (c ++ later), length (front ++ c)))
                      _ inner
                    ∙ ap (λ x. done (values_of a (f ∷ fs), length x) t)
                        (append_assoc front c r.body)));
      }

  -- The sum of `_pattern_size` is the size of the values.
  total_size_lem :
      (fs : List (Field a)) (n : ℕ)
      → n + sizes a fs < word
      → total_size n (format_of a fs) ≡ n + sizes a fs
  unfolding total_size
  total_size_lem [] n h = omega arith
  total_size_lem (f ∷ fs) n h =
      let w : ℕ = width (letter_of a f) in
      let one : size_of (code_of a f) ≡ w = size_of_lem f in
      let sum : add32 n (size_of (code_of a f)) ≡ n + w = omega (arith, one) in
      ap (λ k. total_size k (format_of a fs)) sum
      ∙ (total_size_lem fs (n + w) (omega arith) ∙ omega arith)

  -- Values that their letters can carry, in a cleared block of the size that `_pattern_size` gives
  -- for the format, behind the three other arguments: they are packed without an error and fill the
  -- block, and what is unpacked from that block are the same values.
  pub values-exchanged :
      (fs : List (Field a)) (pat format size : Value a) (s t : State a)
      → AreCarried a fs
      → sizes a fs < int_limit
      → (block : List ℕ) × (length block ≡ total_size 0 (format_of a fs))
        × (pack_values a
              (format_of a fs)
              4
              (pat ∷ format ∷ size ∷ values_of a fs)
              (replicate (total_size 0 (format_of a fs)) 0, 0)
              s
            ≡ done (block, total_size 0 (format_of a fs)) s)
        × (unpack_values a (format_of a fs) (block, 0) t
            ≡ done (values_of a fs, total_size 0 (format_of a fs)) t)
  values-exchanged fs pat format size s t h k =
      let n : ℕ = sizes a fs in
      let sum : total_size 0 (format_of a fs) ≡ n =
        total_size_lem fs 0 (omega arith) ∙ omega arith in
      let zeros : List ℕ = replicate n 0 in
      let args : List (Value a) = pat ∷ format ∷ size ∷ values_of a fs in
      let r : Packed fs [] zeros 4 args s =
        packed fs [] zeros 4 (pat ∷ format ∷ size ∷ []) args s h
          (omega (arith, length-replicate {A = ℕ} n 0)) refl refl in
      let full : r.body ++ drop n zeros ≡ r.body =
        ap (λ x. r.body ++ x) (drop-replicate n 0) ∙ append-nil r.body in
      subst
        (λ m.
          (block : List ℕ) × (length block ≡ m)
          × (pack_values a (format_of a fs) 4 args (replicate m 0, 0) s ≡ done (block, m) s)
          × (unpack_values a (format_of a fs) (block, 0) t ≡ done (values_of a fs, m) t))
        (sym sum)
        (
          r.body,
          r.size,
          r.packs ∙ ap₂ (λ x y. done (x, y) s) full r.size,
          ap (λ x. unpack_values a (format_of a fs) (x, 0) t) (sym (append-nil r.body))
              ∙ (r.reads [] [] t ∙ ap (λ x. done (values_of a fs, x) t) r.size),
        )
