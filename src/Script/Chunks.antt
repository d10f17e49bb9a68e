-- ===== src/Script/Chunks.antt =====
-- The copy of a memory block into a `luaL_Buffer`.
use socktestprogram.Prelude.{
  ℕ, zero, suc, ◌-◌, ◌<◌, ◌≤◌, ◌≡◌, refl, ap, sym, ◌∙◌, List, [], ◌∷◌, ◌++◌, ltb, if◌then◌else◌,
  length, take, drop, lt→ltb, le→ltb, length-take, length-drop, arith, dec_lt, append-nil,
}
use socktestprogram.Script.{filled, fill, concat}

-- No chunk is longer than `n`.
abbrev pub AreWithin : ℕ → List (List ℕ) → Type 0
AreWithin n [] = Unit
AreWithin n (c ∷ cs) = (length c ≤ n) × AreWithin n cs

module _ {ℓ} {A : Type ℓ} where
  take-nil : (n : ℕ) → take {A = A} n [] ≡ []
  take-nil zero = refl
  take-nil (suc n) = refl

  take-split : (a n : ℕ) (xs : List A) → a ≤ n → take n xs ≡ take a xs ++ take (n - a) (drop a xs)
  take-split zero n xs h = let e : n - 0 ≡ n = omega arith in ap (λ k. take k xs) (sym e)
  take-split (suc a) zero xs h = absurd (omega arith)
  take-split (suc a) (suc n) [] h = sym (take-nil (suc n - suc a))
  take-split (suc a) (suc n) (x ∷ xs) h =
      let e : suc n - suc a ≡ n - a = omega arith in
      ap (◌∷◌ x)
        (take-split a n xs (omega arith) ∙ ap (λ k. take a xs ++ take k (drop a xs)) (sym e))

smaller : (n rlen : ℕ) → n ≤ rlen → (if ltb n rlen then n else rlen) ≡ n
smaller n rlen h = ground arith

-- When `rlen` is not 0 and the memory has `n` bytes, the loop ends within `n + 1` rounds, in chunks
-- of at most `rlen` bytes that are, one after the other, the first `n` bytes of the memory; `rlen`
-- is the size of a Lua buffer.
pub fill_lem :
    (fuel rlen n : ℕ) (memory : List ℕ)
    → 0 < rlen
    → n < fuel
    → n ≤ length memory
    → (cs : List (List ℕ)) × (fill fuel rlen n memory ≡ filled cs)
      × (concat cs ≡ take n memory)
      × AreWithin rlen cs
unfolding fill
fill_lem zero rlen n memory p q h = absurd (omega arith)
fill_lem (suc fuel) rlen n memory p q h = elim (dec_lt rlen n) [
  | yes more ↦
      let (cs, e, c, w) =
        fill_lem fuel rlen (n - rlen) (drop rlen memory) p (omega arith)
          (omega (arith, length-drop rlen memory)) in
      let within : AreWithin rlen (take rlen memory ∷ cs) =
        (omega (arith, length-take rlen memory), w) in
      (
        take rlen memory ∷ cs,
        rw (
          le→ltb n rlen (omega arith),
          le→ltb (length memory) rlen (omega arith),
          lt→ltb 0 (n - rlen) (omega arith),
          e,
        ),
        ap (◌++◌ (take rlen memory)) c ∙ sym (take-split rlen n memory (omega arith)),
        within,
      )
  | no few ↦
      let within : AreWithin rlen (take n memory ∷ []) =
        (omega (arith, length-take n memory), tt) in
      (
        take n memory ∷ [],
        rw (
          smaller n rlen (omega arith),
          le→ltb (length memory) n h,
          le→ltb 0 (n - n) (omega arith),
        ),
        append-nil (take n memory),
        within,
      )
]
