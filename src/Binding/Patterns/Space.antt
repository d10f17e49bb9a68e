-- ===== src/Binding/Patterns/Space.antt =====
-- The values of a pattern stay inside the block of the size that `_pattern_size` gives.
use socktestprogram.Prelude.{
  ℕ, suc, ◌+◌, ◌≤◌, ◌<◌, ◌≡◌, ◌≢◌, inl, inr, refl, ap, subst, sym, ◌∙◌, Bool-cases, some, List, [],
  ◌∷◌, arith, length, replicate, int_limit, add32, word, if◌then◌else◌, length-replicate,
}
use socktestprogram.Pbc.{Api, IsLawful}
use socktestprogram.Binding.{Value, State, arg, to_lstring}
use socktestprogram.Binding.Fields.{bytes8, array_size, letter, array_letter, is_small, get_value}
use socktestprogram.Binding.Patterns.{size_of, total_size, pack_array, pack_values}
use socktestprogram.Binding.Patterns.Steps.{
  Safe, Safe-then, Safe-map, IsLong, Moved, get_value-Safe, not_small, pack_array-Safe,
  size_of-none,
}

module _ (a : Api) (law : IsLawful a) where
  -- The sizes of a format's values, and the condition on the strings of eight bytes.
  abbrev pub sizes : List ℕ → ℕ
  sizes [] = 0
  sizes (c ∷ cs) = size_of c + sizes cs

  abbrev pub AreLong : List ℕ → ℕ → List (Value a) → Type 0
  AreLong [] i args = Unit
  AreLong (c ∷ cs) i args =
      (letter c ≡ some bytes8 → IsLong a (to_lstring a (arg a i args)))
      × (array_letter c ≢ some bytes8)
      × AreLong cs (suc i) args

  step-Safe :
      (c i : ℕ) (args : List (Value a)) (block : List ℕ) (ptr : ℕ) (s : State a)
      → (letter c ≡ some bytes8 → IsLong a (to_lstring a (arg a i args)))
      → array_letter c ≢ some bytes8
      → ptr + size_of c ≤ length block
      → Safe a (Moved a law block (ptr + size_of c)) (
          (if is_small c
              then get_value a i args c (block, ptr)
              else pack_array a i args c (block, ptr))
            s)
  step-Safe c i args block ptr s long short k = elim (Bool-cases (is_small c)) [
    | inl e ↦ rw e (get_value-Safe a law c i args block ptr s long k)
    | inr e ↦
        let size : size_of c ≡ array_size = size_of-none a law c (not_small a law c e) in
        rw e (
          subst (λ n. Safe a (Moved a law block (ptr + n)) (pack_array a i args c (block, ptr) s))
            (sym size) (pack_array-Safe a law c i args block ptr s short (omega (arith, size))))
  ]

  values-Safe :
      (cs : List ℕ) (i : ℕ) (args : List (Value a)) (block : List ℕ) (ptr : ℕ) (s : State a)
      → AreLong cs i args
      → ptr + sizes cs ≤ length block
      → Safe a (Moved a law block (ptr + sizes cs)) (pack_values a cs i args (block, ptr) s)
  unfolding pack_values
  values-Safe [] i args block ptr s h k = (refl, omega arith)
  values-Safe (c ∷ cs) i args block ptr s h k =
      Safe-then a (Moved a law block (ptr + size_of c)) _
        ((if is_small c
            then get_value a i args c (block, ptr)
            else pack_array a i args c (block, ptr))
          s)
        _ (step-Safe c i args block ptr s h.0 h.1 (omega arith))
        (λ r t q.
          Safe-map a (Moved a law r.0 (r.1 + sizes cs)) (Moved a law block (ptr + sizes (c ∷ cs)))
            (λ x y. (y.0 ∙ q.0, omega (arith, y.1, q.1))) (pack_values a cs (suc i) args r t)
            (values-Safe cs (suc i) args r.0 r.1 t h.2 (omega (arith, q.0, q.1))))

  total_size-sizes : (cs : List ℕ) (n : ℕ) → n + sizes cs < word → total_size n cs ≡ n + sizes cs
  unfolding total_size
  total_size-sizes [] n h = omega arith
  total_size-sizes (c ∷ cs) n h =
      let sum : add32 n (size_of c) ≡ n + size_of c = omega arith in
      ap (λ k. total_size k cs) sum
      ∙ (total_size-sizes cs (n + size_of c) (omega arith) ∙ omega arith)

  -- For every format and all arguments whose strings under `x` have eight bytes with the terminator
  -- and that have no array of `x`, when the sizes of the format's values have a sum below 2 ^ 31:
  -- packing into the block of the size that `_pattern_size` gives makes no access outside the block.
  -- It stops with an error of Lua, or the pointer is at the end of the block, which has its length.
  pub pack_values-Safe :
      (cs : List ℕ) (i : ℕ) (args : List (Value a)) (s : State a)
      → AreLong cs i args
      → sizes cs < int_limit
      → Safe a
          (Moved a law (replicate (total_size 0 cs) 0) (total_size 0 cs))
          (pack_values a cs i args (replicate (total_size 0 cs) 0, 0) s)
  pack_values-Safe cs i args s h k =
      let sum : total_size 0 cs ≡ sizes cs = total_size-sizes cs 0 (omega arith) ∙ omega arith in
      subst
        (λ n. Safe a (Moved a law (replicate n 0) n) (pack_values a cs i args (replicate n 0, 0) s))
        (sym sum)
        (Safe-map a (Moved a law (replicate (sizes cs) 0) (0 + sizes cs))
          (Moved a law (replicate (sizes cs) 0) (sizes cs)) (λ x y. (y.0, omega (arith, y.1)))
          (pack_values a cs i args (replicate (sizes cs) 0, 0) s)
          (values-Safe cs i args (replicate (sizes cs) 0) 0 s h
            (omega (arith, length-replicate {A = ℕ} (sizes cs) 0))))
