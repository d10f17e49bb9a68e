-- ===== src/Binding/Patterns/Steps.antt =====
-- One value of a pattern or one array is packed inside the block.
use socktestprogram.Prelude.{
  ℕ, zero, suc, ◌+◌, ◌≤◌, ◌≡◌, ◌≢◌, inl, inr, refl, ap, subst, ◌∙◌, false, Option, Option-cases,
  none, some, List, [], ◌∷◌, ◌++◌, arith, length, le→leb, length-append, length-take,
}
use Prim.Native.String.{String}
use socktestprogram.StreamBuffer.Block.{length-overwrite}
use socktestprogram.Pbc.{Api, IsLawful}
use socktestprogram.Binding.{
  Value, Key, State, Result, done, raised, fault, M, checked, arg, to_lstring, to_number,
  check_lstring, check_number, check_integer,
}
use socktestprogram.Binding.Fields.{
  Letter, int, uint, int64, bool, pointer, bytes8, real, str, message, array_size, letter,
  array_letter, is_small, width, slice_bytes, raw_get, message_slice, encode, store, get_value,
  push_item, Block,
}
use socktestprogram.Binding.Patterns.{size_of, array_table, raw_len, push_items, pack_array}

module _ (a : Api) where
  -- The call makes no access outside a block, and what it returns has the property.
  abbrev pub Safe : {A : Type 0} → (A → Type 0) → Result a A → Type 0
  Safe P (done x t) = P x
  Safe P (raised e t) = Unit
  Safe P fault = ⊥

  pub Safe-then :
      {A B : Type 0} (P : A → Type 0) (Q : B → Type 0) (r : Result a A) (f : A → M a B)
      → Safe P r
      → ((x : A) (t : State a) → P x → Safe Q (f x t))
      → Safe Q (elim r [ done x t ↦ f x t | raised e t ↦ raised e t | fault ↦ fault ])
  Safe-then P Q (done x t) f p q = q x t p
  Safe-then P Q (raised e t) f p q = tt
  Safe-then P Q fault f p q = p

  Safe-checked :
      {A : Type 0} (P : A → Type 0) (o : Option A) (e : String) (s : State a)
      → ((x : A) → o ≡ some x → P x)
      → Safe P (checked a o e s)
  Safe-checked P none e s h = tt
  Safe-checked P (some x) e s h = h x refl

  pub Safe-map :
      {A : Type 0} (P Q : A → Type 0) (f : (x : A) → P x → Q x) (r : Result a A)
      → Safe P r
      → Safe Q r
  Safe-map P Q f (done x t) p = f x p
  Safe-map P Q f (raised e t) p = tt
  Safe-map P Q f fault p = p

  -- A string under the letter `x` has eight bytes with its terminator.
  abbrev pub IsLong : Option (List ℕ) → Type 0
  IsLong none = Unit
  IsLong (some s) = 7 ≤ length s

  Always : {A : Type 0} → A → Type 0
  Always x = Unit

  message_slice-Safe :
      (v : Option (Value a)) (s : State a) → Safe (λ b. Unit {0}) (message_slice a v s)
  unfolding message_slice
  message_slice-Safe v s = ground arith

module _ (a : Api) (law : IsLawful a) where
  encode-Safe :
      (l : Letter) (i : ℕ) (args : List (Value a)) (s : State a)
      → (l ≡ bytes8 → IsLong a (to_lstring a (arg a i args)))
      → Safe a (λ b. length b ≤ width l) (encode a l i args s)
  unfolding encode width check_lstring check_number check_integer slice_bytes
  encode-Safe int i args s h = ground arith
  encode-Safe uint i args s h = ground arith
  encode-Safe int64 i args s h = ground arith
  encode-Safe bool i args s h = ground arith
  encode-Safe pointer i args s h = ground arith
  encode-Safe bytes8 i args s h =
      Safe-then a (λ b. 7 ≤ length b) _
        (checked a (to_lstring a (arg a i args)) "string expected" s) _
        (Safe-checked a (λ b. 7 ≤ length b) (to_lstring a (arg a i args)) "string expected" s
          (λ b e. subst (IsLong a) e (h refl)))
        (λ b t p.
          rw (le→leb 7 (length b) p)
            (omega (arith, length-take 8 (b ++ 0 ∷ []), length-append b (0 ∷ []))))
  encode-Safe real i args s h =
      Safe-then a (λ x. Unit {0}) _ (checked a (to_number a (arg a i args)) "number expected" s) _
        (Safe-checked a (λ x. Unit {0}) (to_number a (arg a i args)) "number expected" s
          (λ x e. tt))
        (λ x t p. omega (arith, law.length-real_bytes x))
  encode-Safe str i args s h = ground arith
  encode-Safe message i args s h =
      Safe-then a _ _ (message_slice a (arg a i args) s) _ (message_slice-Safe a (arg a i args) s)
        (λ x t p. omega arith)

  pub size_of-letter : (c : ℕ) (l : Letter) → letter c ≡ some l → size_of c ≡ width l
  unfolding size_of letter width
  size_of-letter c l h = ground arith

  pub size_of-none : (c : ℕ) → letter c ≡ none → size_of c ≡ array_size
  unfolding size_of letter
  size_of-none c h = ground arith

  -- The block keeps its length, and the pointer moves by `n`.
  abbrev pub Moved : List ℕ → ℕ → Block a → Type 0
  Moved block ptr r = (length r.0 ≡ length block) × (r.1 ≡ ptr)

  store-Safe :
      (b block : List ℕ) (n ptr : ℕ) (s : State a)
      → length b ≤ n
      → ptr + n ≤ length block
      → Safe a (Moved block (ptr + n)) (store a b n (block, ptr) s)
  unfolding store
  store-Safe b block n ptr s h k =
      rw (le→leb (ptr + n) (length block) k) (length-overwrite block b ptr (omega arith), refl)

  pub get_value-Safe :
      (c i : ℕ) (args : List (Value a)) (block : List ℕ) (ptr : ℕ) (s : State a)
      → (letter c ≡ some bytes8 → IsLong a (to_lstring a (arg a i args)))
      → ptr + size_of c ≤ length block
      → Safe a (Moved block (ptr + size_of c)) (get_value a i args c (block, ptr) s)
  unfolding get_value
  get_value-Safe c i args block ptr s h k = elim (Option-cases (letter c)) [
    | inl e ↦ rw (e, get_value) tt
    | inr (l, e) ↦
        let size : size_of c ≡ width l = size_of-letter c l e in
        rw (e, get_value, size)
          (Safe-then a (λ b. length b ≤ width l) _ (encode a l i args s) _
            (encode-Safe l i args s (λ q. h (e ∙ ap some q)))
            (λ b t p. store-Safe b block (width l) ptr t p (omega (arith, size))))
  ]

  item-Safe :
      (l : Letter) (c ptr : ℕ) (v : Value a) (s : State a)
      → l ≢ bytes8
      → array_letter c ≡ some l
      → Safe a (λ x. Unit {0}) (push_item a c ptr v s)
  unfolding push_item check_lstring check_number check_integer
  item-Safe int c ptr v s h e = rw (e, push_item) (ground arith)
  item-Safe uint c ptr v s h e = rw (e, push_item) (ground arith)
  item-Safe int64 c ptr v s h e = rw (e, push_item) (ground arith)
  item-Safe bool c ptr v s h e = rw (e, push_item) tt
  item-Safe pointer c ptr v s h e = rw (e, push_item) tt
  item-Safe bytes8 c ptr v s h e = absurd (h refl)
  item-Safe real c ptr v s h e = rw (e, push_item) (ground arith)
  item-Safe str c ptr v s h e = rw (e, push_item) (ground arith)
  item-Safe message c ptr v s h e =
      rw (e, push_item)
        (Safe-then a _ _ (message_slice a (some v) s) _ (message_slice-Safe a (some v) s)
          (λ x t p. tt))

  push_item-Safe :
      (c ptr : ℕ) (v : Value a) (s : State a)
      → array_letter c ≢ some bytes8
      → Safe a (λ x. Unit {0}) (push_item a c ptr v s)
  unfolding push_item
  push_item-Safe c ptr v s h = elim (Option-cases (array_letter c)) [
    | inl e ↦ rw (e, push_item) tt
    | inr (l, e) ↦ item-Safe l c ptr v s (λ q. h (e ∙ ap some q)) e
  ]

  push_items-Safe :
      (n j c ptr size : ℕ) (kvs : List (Key a × Value a)) (s : State a)
      → array_letter c ≢ some bytes8
      → ptr + array_size ≤ size
      → Safe a (λ x. Unit {0}) (push_items a n j c ptr size kvs s)
  unfolding push_items
  push_items-Safe zero j c ptr size kvs s h k = tt
  push_items-Safe (suc n) j c ptr size kvs s h k = rw (le→leb (ptr + array_size) size k) (
      Safe-then a (λ x. Unit {0}) _ (push_item a c ptr (raw_get a kvs j) s) _
        (push_item-Safe c ptr (raw_get a kvs j) s h)
        (λ x t p. push_items-Safe n (suc j) c ptr size kvs t h k))

  array_table-Safe :
      (v : Option (Value a)) (s : State a) → Safe a (λ kvs. Unit {0}) (array_table a v s)
  array_table-Safe v s = ground arith

  -- A code that is no small letter stands for an array.
  pub not_small : (c : ℕ) → is_small c ≡ false → letter c ≡ none
  unfolding is_small letter
  not_small c h = ground arith

  pub pack_array-Safe :
      (c i : ℕ) (args : List (Value a)) (block : List ℕ) (ptr : ℕ) (s : State a)
      → array_letter c ≢ some bytes8
      → ptr + array_size ≤ length block
      → Safe a (Moved block (ptr + array_size)) (pack_array a i args c (block, ptr) s)
  unfolding pack_array
  pack_array-Safe c i args block ptr s h k =
      Safe-then a (λ kvs. Unit {0}) _ (array_table a (arg a i args) s) _
        (array_table-Safe (arg a i args) s)
        (λ kvs t p.
          Safe-then a (λ x. Unit {0}) _
            (push_items a (raw_len a (length kvs) 0 kvs) 1 c ptr (length block) kvs t) _
            (push_items-Safe (raw_len a (length kvs) 0 kvs) 1 c ptr (length block) kvs t h k)
            (λ x u q. (refl, refl)))
