-- ===== src/Binding/Decoding/Arrays.antt =====
-- The arrays of Lua that the decoder of pbc-lua.c makes of the values of repeated fields.
use socktestprogram.Prelude.{
  ℕ, suc, ◌+◌, ◌≡◌, refl, ap, ◌∙◌, ◌==◌, false, List, [], ◌∷◌, ◌++◌, arith, length, length-append,
  append_assoc,
}
use socktestprogram.Pbc.{Api}
use socktestprogram.Binding.{Value, index}
use socktestprogram.Binding.Fields.{raw_get}
use socktestprogram.Binding.Patterns.{is_absent, raw_len}
use socktestprogram.Binding.Decoding.{put}
use socktestprogram.Binding.Decoding.Tables.{Entries}

module _ (a : Api) where
  -- The table that has the values from the index `n` on.
  abbrev pub items : ℕ → List (Value a) → Entries a
  items n [] = []
  items n (v ∷ vs) = (index n, v) ∷ items (suc n) vs

  abbrev pub ArePresent : List (Value a) → Type 0
  ArePresent [] = Unit
  ArePresent (v ∷ vs) = (is_absent a v ≡ false) × ArePresent vs

  pub ArePresent-append :
      (xs ys : List (Value a)) → ArePresent xs → ArePresent ys → ArePresent (xs ++ ys)
  ArePresent-append [] ys h k = k
  ArePresent-append (x ∷ xs) ys h k = (h.0, ArePresent-append xs ys h.1 k)

  raw_get-items :
      (n : ℕ) (pre : List (Value a)) (v : Value a) (post : List (Value a))
      → raw_get a (items n (pre ++ v ∷ post)) (n + length pre) ≡ v
  raw_get-items n [] v post = ground arith
  raw_get-items n (x ∷ pre) v post =
      let skip : (n + suc (length pre) == n) ≡ false = ground arith in
      let shift : n + suc (length pre) ≡ suc n + length pre = omega arith in
      rw skip
        (ap (raw_get a (items (suc n) (pre ++ v ∷ post))) shift ∙ raw_get-items (suc n) pre v post)

  raw_len-items :
      (pre post : List (Value a))
      → ArePresent post
      → raw_len a (length post) (length pre) (items 1 (pre ++ post)) ≡ length (pre ++ post)
  unfolding raw_len
  raw_len-items pre [] h = omega (arith, length-append {A = Value a} pre [])
  raw_len-items pre (v ∷ post) h =
      let at : raw_get a (items 1 (pre ++ v ∷ post)) (suc (length pre)) ≡ v =
        ap (raw_get a (items 1 (pre ++ v ∷ post))) (omega arith) ∙ raw_get-items 1 pre v post in
      let next : length (pre ++ v ∷ []) ≡ suc (length pre) =
        omega (arith, length-append pre (v ∷ [])) in
      let same : (pre ++ v ∷ []) ++ post ≡ pre ++ v ∷ post = append_assoc pre (v ∷ []) post in
      rw (at, h.0, ← next, ← same) (raw_len-items (pre ++ v ∷ []) post h.1)

  length-items : (n : ℕ) (vs : List (Value a)) → length (items n vs) ≡ length vs
  length-items n [] = refl
  length-items n (v ∷ vs) = ap suc (length-items (suc n) vs)

  -- `lua_rawlen` of an array.
  pub raw_len_lem :
      (vs : List (Value a))
      → ArePresent vs
      → raw_len a (length (items 1 vs)) 0 (items 1 vs) ≡ length vs
  raw_len_lem vs h =
      ap (λ n. raw_len a n 0 (items 1 vs)) (length-items 1 vs) ∙ raw_len-items [] vs h

  put-items :
      (n : ℕ) (vs : List (Value a)) (v : Value a)
      → put a (index (n + length vs)) v (items n vs) ≡ items n (vs ++ v ∷ [])
  put-items n [] v = ap (λ k. (index k, v) ∷ []) (omega arith)
  put-items n (x ∷ vs) v =
      let skip : (n + suc (length vs) == n) ≡ false = ground arith in
      let shift : n + suc (length vs) ≡ suc n + length vs = omega arith in
      rw skip (
        ap (λ (r : Entries a). (index n, x) ∷ r)
          (ap (λ k. put a (index k) v (items (suc n) vs)) shift ∙ put-items (suc n) vs v))

  -- A value that is put behind the last one.
  pub put_last :
      (vs : List (Value a)) (v : Value a)
      → put a (index (suc (length vs))) v (items 1 vs) ≡ items 1 (vs ++ v ∷ [])
  put_last vs v = ap (λ k. put a (index k) v (items 1 vs)) (omega arith) ∙ put-items 1 vs v
