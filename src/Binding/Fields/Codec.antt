-- ===== src/Binding/Fields/Codec.antt =====
-- One value of a pattern, stored in the block and read from it.
use socktestprogram.Prelude.{
  ℕ, ◌+◌, ◌-◌, ◌%◌, ◌^◌, ◌==◌, not, ◌≤◌, ◌<◌, ◌≡◌, ◌⊎◌, refl, ap, ap₂, sym, ◌∙◌, Bool, true, false,
  some, List, [], ◌∷◌, ◌++◌, arith, length, take, drop, word, get_elem?, le_bytes, le_value,
  length-le_bytes, le_value-le_bytes, append-nil, append_assoc, take-append, drop-append,
}
use socktestprogram.Pbc.{Api, IsLawful, IsPinned, word64, exact}
use socktestprogram.Binding.{
  Value, boolean, number, string, light, State, done, check_lstring, check_number, check_integer,
}
use socktestprogram.Binding.Fields.{
  Letter, int, uint, int64, bool, pointer, bytes8, real, str, letter, is_small, width, bytes_slice,
  encode, decode_value,
}

module _ (a : Api) where
  -- A value with its letter.
  pub data Field : Type 0 where
    int_field : ℕ → Field
    uint_field : ℕ → Field
    int64_field : ℕ → Field
    bool_field : Bool → Field
    pointer_field : ℕ → Field
    bytes8_field : List ℕ → Field
    real_field : a.Number → Field
    str_field : List ℕ → Field

  abbrev pub code_of : Field → ℕ
  code_of (int_field n) = b'i'
  code_of (uint_field w) = b'u'
  code_of (int64_field w) = b'd'
  code_of (bool_field b) = b'b'
  code_of (pointer_field p) = b'p'
  code_of (bytes8_field s) = b'x'
  code_of (real_field x) = b'r'
  code_of (str_field s) = b's'

  abbrev pub letter_of : Field → Letter
  letter_of (int_field n) = int
  letter_of (uint_field w) = uint
  letter_of (int64_field w) = int64
  letter_of (bool_field b) = bool
  letter_of (pointer_field p) = pointer
  letter_of (bytes8_field s) = bytes8
  letter_of (real_field x) = real
  letter_of (str_field s) = str

  abbrev pub value_of : Field → Value a
  value_of (int_field n) = number (a.of_int n)
  value_of (uint_field w) = number (a.of_uint64 w)
  value_of (int64_field w) = number (a.of_int64 w)
  value_of (bool_field b) = boolean b
  value_of (pointer_field p) = light p
  value_of (bytes8_field s) = string s
  value_of (real_field x) = number x
  value_of (str_field s) = string s

  -- The value is one that its letter can carry: an `int`, a number that a double has exactly, a
  -- pointer of 32 bits, eight bytes, a string of less than 2 ^ 32 bytes that stays at its address.
  abbrev pub IsCarried : Field → Type 0
  IsCarried (int_field n) = n < word
  IsCarried (uint_field w) = w ≤ exact
  IsCarried (int64_field w) = ((w ≤ exact) ⊎ (word64 ≤ w + exact)) × (w < word64)
  IsCarried (bool_field b) = Unit
  IsCarried (pointer_field p) = p < word
  IsCarried (bytes8_field s) = length s ≡ 8
  IsCarried (real_field x) = Unit
  IsCarried (str_field s) = (length s < word) × IsPinned a s

  abbrev flag : Bool → ℕ
  flag true = 1
  flag false = 0

  abbrev pub field_bytes : Field → List ℕ
  field_bytes (int_field n) = le_bytes 4 n
  field_bytes (uint_field w) = le_bytes 8 w
  field_bytes (int64_field w) = le_bytes 8 w
  field_bytes (bool_field b) = le_bytes 4 (flag b)
  field_bytes (pointer_field p) = le_bytes 4 p
  field_bytes (bytes8_field s) = s
  field_bytes (real_field x) = a.real_bytes x
  field_bytes (str_field s) = le_bytes 8 (a.address s) ++ le_bytes 4 (length s)

  pub letter-code_of : (f : Field) → letter (code_of f) ≡ some (letter_of f)
  unfolding letter
  letter-code_of (int_field n) = refl
  letter-code_of (uint_field w) = refl
  letter-code_of (int64_field w) = refl
  letter-code_of (bool_field b) = refl
  letter-code_of (pointer_field p) = refl
  letter-code_of (bytes8_field s) = refl
  letter-code_of (real_field x) = refl
  letter-code_of (str_field s) = refl

  pub is_small-code_of : (f : Field) → is_small (code_of f) ≡ true
  unfolding is_small
  is_small-code_of (int_field n) = refl
  is_small-code_of (uint_field w) = refl
  is_small-code_of (int64_field w) = refl
  is_small-code_of (bool_field b) = refl
  is_small-code_of (pointer_field p) = refl
  is_small-code_of (bytes8_field s) = refl
  is_small-code_of (real_field x) = refl
  is_small-code_of (str_field s) = refl

no_pad : (bs pad : List ℕ) (n : ℕ) → length bs ≡ n → length bs + length pad ≡ n → bs ++ pad ≡ bs
no_pad bs [] n e h = append-nil bs
no_pad bs (p ∷ pad) n e h = absurd (omega arith)

padded :
    (n v : ℕ) (pad : List ℕ)
    → v < 256 ^ n
    → length (le_bytes n v) + length pad ≡ n
    → le_value (le_bytes n v ++ pad) ≡ v
padded n v pad h e =
    ap le_value (no_pad (le_bytes n v) pad n (length-le_bytes n v) e) ∙ le_value-le_bytes n v h

slice_bytes_lem :
    (buffer len : ℕ) (pad : List ℕ)
    → buffer < word64
    → len < word
    → bytes_slice ((le_bytes 8 buffer ++ le_bytes 4 len) ++ pad)
      ≡ record { buffer = buffer; len = len }
unfolding bytes_slice
slice_bytes_lem buffer len pad hb hl =
    let b : List ℕ = le_bytes 8 buffer in
    let l : List ℕ = le_bytes 4 len in
    let flat : (b ++ l) ++ pad ≡ b ++ (l ++ pad) = append_assoc b l pad in
    let first : take 8 ((b ++ l) ++ pad) ≡ b =
      ap (take 8) flat ∙ take-append b (l ++ pad) 8 (sym (length-le_bytes 8 buffer)) in
    let rest : drop 8 ((b ++ l) ++ pad) ≡ l ++ pad =
      ap (drop 8) flat ∙ drop-append b (l ++ pad) 8 (sym (length-le_bytes 8 buffer)) in
    let second : take 4 (drop 8 ((b ++ l) ++ pad)) ≡ l =
      ap (take 4) rest ∙ take-append l pad 4 (sym (length-le_bytes 4 len)) in
    ap₂ (λ x y. record { buffer = x; len = y }) (ap le_value first ∙ le_value-le_bytes 8 buffer hb)
      (ap le_value second ∙ le_value-le_bytes 4 len hl)

module _ (a : Api) (law : IsLawful a) where
  pub encode_lem :
      (f : Field a) (i : ℕ) (args : List (Value a)) (s : State a)
      → IsCarried a f
      → get_elem? args (i - 1) ≡ some (value_of a f)
      → encode a (letter_of a f) i args s ≡ done (field_bytes a f) s
  unfolding encode check_lstring check_number check_integer
  encode_lem (int_field n) i args s h e = rw (e, law.to_int-of_int n h)
  encode_lem (uint_field w) i args s h e = rw (e, law.to_uint64-of_uint64 w h)
  encode_lem (int64_field w) i args s h e = rw (e, law.to_int64-of_int64 w h.0 h.1)
  encode_lem (bool_field true) i args s h e = rw (e)
  encode_lem (bool_field false) i args s h e = rw (e)
  encode_lem (pointer_field p) i args s h e =
      let whole : p % word ≡ p = omega arith in rw (e, whole)
  encode_lem (bytes8_field b) i args s h e = rw (e, h, take-append b (0 ∷ []) 8 (sym h))
  encode_lem (real_field x) i args s h e = rw (e)
  encode_lem (str_field b) i args s h e =
      let whole : length b % word ≡ length b = omega arith in rw (e, whole)

  pub length-field_bytes :
      (f : Field a) → IsCarried a f → length (field_bytes a f) ≤ width (letter_of a f)
  unfolding width
  length-field_bytes (int_field n) h = omega arith
  length-field_bytes (uint_field w) h = omega arith
  length-field_bytes (int64_field w) h = omega arith
  length-field_bytes (bool_field b) h = omega arith
  length-field_bytes (pointer_field p) h = omega arith
  length-field_bytes (bytes8_field s) h = omega arith
  length-field_bytes (real_field x) h = omega (arith, law.length-real_bytes x)
  length-field_bytes (str_field s) h = omega arith

  -- The bytes of a value, with the padding behind it, are read as the value.
  pub decode_lem :
      (f : Field a) (pad : List ℕ) (s : State a)
      → IsCarried a f
      → length (field_bytes a f) + length pad ≡ width (letter_of a f)
      → decode_value a (letter_of a f) (field_bytes a f ++ pad) s ≡ done (value_of a f) s
  unfolding decode_value width
  decode_lem (int_field n) pad s h e = ap (λ v. done (number (a.of_int v)) s) (padded 4 n pad h e)
  decode_lem (uint_field w) pad s h e =
      ap (λ v. done (number (a.of_uint64 v)) s) (padded 8 w pad (omega arith) e)
  decode_lem (int64_field w) pad s h e =
      ap (λ v. done (number (a.of_int64 v)) s) (padded 8 w pad h.1 e)
  decode_lem (bool_field true) pad s h e =
      ap (λ v. done (boolean (not (v == 0))) s) (padded 4 1 pad (omega arith) e)
  decode_lem (bool_field false) pad s h e =
      ap (λ v. done (boolean (not (v == 0))) s) (padded 4 0 pad (omega arith) e)
  decode_lem (pointer_field p) pad s h e = ap (λ v. done (light v) s) (padded 4 p pad h e)
  decode_lem (bytes8_field b) pad s h e = ap (λ v. done (string v) s) (no_pad b pad 8 h e)
  decode_lem (real_field x) pad s h e =
      ap (λ v. done (number (a.bytes_real v)) s)
        (no_pad (a.real_bytes x) pad 8 (law.length-real_bytes x) e)
      ∙ ap (λ v. done (number v) s) (law.bytes_real-real_bytes x)
  decode_lem (str_field b) pad s h e =
      ap (λ v. done (string (a.bytes_at v s.pbc)) s)
        (slice_bytes_lem (a.address b) (length b) pad (law.address-lt b) h.0)
      ∙ ap (λ v. done (string v) s) (h.1 s.pbc)
