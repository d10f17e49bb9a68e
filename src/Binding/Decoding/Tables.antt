-- ===== src/Binding/Decoding/Tables.antt =====
-- The tables of Lua that the decoder of pbc-lua.c writes: what stands under a key after a store.
use socktestprogram.Prelude.{
  ℕ, zero, suc, ◌<◌, ◌≡◌, ◌≢◌, refl, ap, sym, ◌∙◌, ◌==◌, true, false, Bool-cases, inl, inr, List,
  [], ◌∷◌, ◌++◌, if◌then◌else◌, arith, length, set,
}
use socktestprogram.Pbc.{Api}
use socktestprogram.Binding.{Value, nil, Key, index, field}
use socktestprogram.Binding.Fields.{raw_get, nth_table}
use socktestprogram.Binding.Decoding.{same_bytes, same_key, put}

pub same_bytes_refl : (xs : List ℕ) → same_bytes xs xs ≡ true
same_bytes_refl [] = refl
same_bytes_refl (x ∷ xs) = ground (arith, same_bytes_refl xs)

same_bytes-eq : (xs ys : List ℕ) → same_bytes xs ys ≡ true → xs ≡ ys
same_bytes-eq [] [] h = refl
same_bytes-eq [] (y ∷ ys) h = cc
same_bytes-eq (x ∷ xs) [] h = cc
same_bytes-eq (x ∷ xs) (y ∷ ys) h = ground (arith, same_bytes-eq xs ys)

module _ (a : Api) where
  abbrev pub Entries : Type 0
  Entries = List (Key a × Value a)

  same_key_refl : (k : Key a) → same_key a k k ≡ true
  same_key_refl (index i) = ground arith
  same_key_refl (field s) = same_bytes_refl s

  same_key-eq : (j k : Key a) → same_key a j k ≡ true → j ≡ k
  same_key-eq (index i) (index j) h = ground arith
  same_key-eq (index i) (field s) h = cc
  same_key-eq (field s) (index i) h = cc
  same_key-eq (field s) (field t) h = ap field (same_bytes-eq s t h)

  -- `lua_getfield` and `lua_rawgeti`
  abbrev pub get : Key a → Entries → Value a
  get k [] = nil
  get k ((j, v) ∷ kvs) = let rest = get k kvs in if same_key a k j then v else rest

  pub raw_get-get : (kvs : Entries) (i : ℕ) → raw_get a kvs i ≡ get (index i) kvs
  raw_get-get [] i = refl
  raw_get-get ((index j, v) ∷ kvs) i = ap (λ r. if i == j then v else r) (raw_get-get kvs i)
  raw_get-get ((field s, v) ∷ kvs) i = raw_get-get kvs i

  pub get-put_self : (k : Key a) (v : Value a) (kvs : Entries) → get k (put a k v kvs) ≡ v
  get-put_self k v [] = rw (same_key_refl k)
  get-put_self k v ((j, w) ∷ kvs) = elim (Bool-cases (same_key a k j)) [
    | inl e ↦ rw (e, same_key_refl k)
    | inr e ↦ rw (e, e) (get-put_self k v kvs)
  ]

  same_key-ne : (j k : Key a) → j ≢ k → same_key a j k ≡ false
  same_key-ne j k h = elim (Bool-cases (same_key a j k)) [
    | inl e ↦ absurd (h (same_key-eq j k e))
    | inr e ↦ e
  ]

  pub get-put_ne :
      (j k : Key a) (v : Value a) (kvs : Entries) → j ≢ k → get j (put a k v kvs) ≡ get j kvs
  get-put_ne j k v [] h = rw (same_key-ne j k h)
  get-put_ne j k v ((i, w) ∷ kvs) h = elim (Bool-cases (same_key a k i)) [
    | inl e ↦ rw (e, same_key-ne j k h, same_key-ne j i (λ q. h (q ∙ sym (same_key-eq k i e))))
    | inr e ↦ rw e (ap (λ r. if same_key a j i then w else r) (get-put_ne j k v kvs h))
  ]

  nth_table-set_self :
      (ts : List Entries) (t : ℕ) (x : Entries) → t < length ts → nth_table a (set ts t x) t ≡ x
  nth_table-set_self [] t x h = absurd (omega arith)
  nth_table-set_self (y ∷ ts) zero x h = refl
  nth_table-set_self (y ∷ ts) (suc t) x h = nth_table-set_self ts t x (omega arith)

  pub nth_table-set_ne :
      (ts : List Entries) (t u : ℕ) (x : Entries)
      → t ≢ u
      → nth_table a (set ts t x) u ≡ nth_table a ts u
  nth_table-set_ne [] t u x h = refl
  nth_table-set_ne (y ∷ ts) zero zero x h = absurd (h refl)
  nth_table-set_ne (y ∷ ts) zero (suc u) x h = refl
  nth_table-set_ne (y ∷ ts) (suc t) zero x h = refl
  nth_table-set_ne (y ∷ ts) (suc t) (suc u) x h = nth_table-set_ne ts t u x (λ e. h (ap suc e))

  pub nth_table-append :
      (ts us : List Entries) (t : ℕ) → t < length ts → nth_table a (ts ++ us) t ≡ nth_table a ts t
  nth_table-append [] us t h = absurd (omega arith)
  nth_table-append (y ∷ ts) us zero h = refl
  nth_table-append (y ∷ ts) us (suc t) h = nth_table-append ts us t (omega arith)

  pub nth_table-append_length :
      (ts : List Entries) (x : Entries) → nth_table a (ts ++ x ∷ []) (length ts) ≡ x
  nth_table-append_length [] x = refl
  nth_table-append_length (y ∷ ts) x = nth_table-append_length ts x

  -- The tables after a store into one of them.
  abbrev pub put_at : List Entries → ℕ → Key a → Value a → List Entries
  put_at ts t k v = set ts t (put a k v (nth_table a ts t))

  pub get-put_at :
      (ts : List Entries) (t : ℕ) (k : Key a) (v : Value a)
      → t < length ts
      → get k (nth_table a (put_at ts t k v) t) ≡ v
  get-put_at ts t k v h =
      ap (get k) (nth_table-set_self ts t (put a k v (nth_table a ts t)) h)
      ∙ get-put_self k v (nth_table a ts t)

  pub get-put_at_ne :
      (ts : List Entries) (t : ℕ) (j k : Key a) (v : Value a)
      → t < length ts
      → j ≢ k
      → get j (nth_table a (put_at ts t k v) t) ≡ get j (nth_table a ts t)
  get-put_at_ne ts t j k v h n =
      ap (get j) (nth_table-set_self ts t (put a k v (nth_table a ts t)) h)
      ∙ get-put_ne j k v (nth_table a ts t) n

  pub nth_table-put_at :
      (ts : List Entries) (t : ℕ) (k : Key a) (v : Value a)
      → t < length ts
      → nth_table a (put_at ts t k v) t ≡ put a k v (nth_table a ts t)
  nth_table-put_at ts t k v h = nth_table-set_self ts t (put a k v (nth_table a ts t)) h
