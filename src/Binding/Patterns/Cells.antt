-- ===== src/Binding/Patterns/Cells.antt =====
-- The cells of a pattern's block: `n` bytes, with the bytes of a value at their start.
use socktestprogram.Prelude.{
  ℕ, zero, suc, ◌+◌, ◌-◌, ◌≤◌, ◌≡◌, refl, ap, ap₂, sym, ◌∙◌, List, [], ◌∷◌, ◌++◌, arith, length,
  take, drop, length-append, length-take, length-drop, append_assoc, take-append, take-append-drop,
}
use socktestprogram.StreamBuffer.{overwrite}

pub drop-append_add : (xs ys : List ℕ) (n : ℕ) → drop (length xs + n) (xs ++ ys) ≡ drop n ys
drop-append_add [] ys n = let e : 0 + n ≡ n = omega arith in ap (λ k. drop k ys) e
drop-append_add (x ∷ xs) ys n =
    let e : suc (length xs) + n ≡ suc (length xs + n) = omega arith in
    ap (λ k. drop k (x ∷ (xs ++ ys))) e ∙ drop-append_add xs ys n

pub drop-drop : (m n : ℕ) (xs : List ℕ) → drop m (drop n xs) ≡ drop (n + m) xs
drop-drop m zero xs = let e : 0 + m ≡ m = omega arith in ap (λ k. drop k xs) (sym e)
drop-drop zero (suc n) [] =
    let e : suc n + 0 ≡ suc n = omega arith in ap (λ k. drop {A = ℕ} k []) (sym e)
drop-drop (suc m) (suc n) [] =
    let e : suc n + suc m ≡ suc (n + suc m) = omega arith in ap (λ k. drop {A = ℕ} k []) (sym e)
drop-drop m (suc n) (x ∷ xs) =
    let e : suc n + m ≡ suc (n + m) = omega arith in
    drop-drop m n xs ∙ ap (λ k. drop k (x ∷ xs)) (sym e)

pub overwrite-append :
    (pre rest b : List ℕ)
    → overwrite (pre ++ rest) (length pre) b ≡ pre ++ (b ++ drop (length b) rest)
unfolding overwrite
overwrite-append pre rest b =
    ap₂ (λ x y. x ++ (b ++ y)) (take-append pre rest (length pre) refl)
      (drop-append_add pre rest (length b))

-- What `n` bytes of the block become when `b` is stored at their start.
abbrev pub cell : List ℕ → ℕ → List ℕ → List ℕ
cell b n rest = b ++ take (n - length b) (drop (length b) rest)

pub length-cell :
    (b : List ℕ) (n : ℕ) (rest : List ℕ)
    → length b ≤ n
    → n ≤ length rest
    → length (cell b n rest) ≡ n
length-cell b n rest h k = omega (
  arith,
  length-append b (take (n - length b) (drop (length b) rest)),
  length-take (n - length b) (drop (length b) rest),
  length-drop (length b) rest,
)

pub cell-split :
    (b : List ℕ) (n : ℕ) (rest : List ℕ)
    → length b ≤ n
    → b ++ drop (length b) rest ≡ cell b n rest ++ drop n rest
cell-split b n rest h =
    let k : ℕ = n - length b in
    let e : length b + k ≡ n = omega arith in
    ap (λ r. b ++ r) (sym (take-append-drop k (drop (length b) rest)))
    ∙ (sym (append_assoc b (take k (drop (length b) rest)) (drop k (drop (length b) rest)))
        ∙ ap (λ r. cell b n rest ++ r) (drop-drop k (length b) rest ∙ ap (λ j. drop j rest) e))
