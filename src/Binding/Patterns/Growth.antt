-- ===== src/Binding/Patterns/Growth.antt =====
-- pbc-lua.c: the loop of `_pattern_pack` that doubles the capacity until the packing fits.
use socktestprogram.Prelude.{
  ℕ, zero, suc, ◌*◌, ◌≤◌, ◌<◌, ◌≡◌, ap, ◌∙◌, false, none, some, List, arith, int_limit, is_negative,
  mul32, dec_le, word,
}
use socktestprogram.Pbc.{Api}
use socktestprogram.Binding.{State, done}
use socktestprogram.Binding.Patterns.{pack_loop}

-- The capacity after `n` doublings.
abbrev pub doubled : ℕ → ℕ → ℕ
doubled zero cap = cap
doubled (suc n) cap = doubled n (cap * 2)

mul32_two : (cap : ℕ) → cap * 2 < word → mul32 cap 2 ≡ cap * 2
mul32_two cap h = omega arith

module _ (a : Api) where
  -- The packing takes `n` bytes: a smaller buffer is refused and pbc stays as it is, and every
  -- larger one gets the bytes.
  pub record Fits (pat : ℕ) (block : List ℕ) (n : ℕ) (bytes : List ℕ) (p q : a.Pbc) : Type 0 where
    pub small : (cap : ℕ) → cap < n → a.pattern_pack pat block cap p ≡ (none, p)
    pub large : (cap : ℕ) → n ≤ cap → a.pattern_pack pat block cap p ≡ (some bytes, q)

  pack_loop-grows :
      (fuel cap pat : ℕ) (block : List ℕ) (n : ℕ) (bytes : List ℕ) (s : State a) (q : a.Pbc)
      → Fits pat block n bytes s.pbc q
      → n ≤ 0x4000_0000
      → cap < int_limit
      → n ≤ doubled fuel cap
      → pack_loop a (suc fuel) cap pat block s ≡ done bytes (record s { pbc = q })
  unfolding pack_loop
  pack_loop-grows zero cap pat block n bytes s q fits h k room =
      let short : is_negative cap ≡ false = ground arith in rw (short, fits.large cap room)
  pack_loop-grows (suc fuel) cap pat block n bytes s q fits h k room =
      let short : is_negative cap ≡ false = ground arith in
      elim (dec_le n cap) [
        | yes e ↦ rw (short, fits.large cap e)
        | no e ↦
            let next : mul32 cap 2 ≡ cap * 2 = mul32_two cap (omega arith) in
            rw (short, fits.small cap (omega arith))
              (ap (λ c. pack_loop a (suc fuel) c pat block s) next
                ∙ pack_loop-grows fuel (cap * 2) pat block n bytes s q fits h (omega arith) room)
      ]

  -- A packing of at most 2 ^ 30 bytes is done: the loop, which starts with 128 bytes, comes to a
  -- capacity that is large enough before the capacity overflows, and returns the bytes that pbc
  -- packs.
  pub pack_loop-done :
      (pat : ℕ) (block : List ℕ) (n : ℕ) (bytes : List ℕ) (s : State a) (q : a.Pbc)
      → Fits pat block n bytes s.pbc q
      → n ≤ 0x4000_0000
      → pack_loop a 25 128 pat block s ≡ done bytes (record s { pbc = q })
  pack_loop-done pat block n bytes s q fits h =
      pack_loop-grows 24 128 pat block n bytes s q fits h (omega arith) (omega arith)
