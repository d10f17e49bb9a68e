-- ===== src/Binding/Messages/Integers.antt =====
-- Integer fields: what the functions of a message ask of pbc.
use socktestprogram.Prelude.{
  ℕ, ◌+◌, ◌-◌, ◌*◌, ◌/◌, ◌%◌, ◌<◌, ◌≡◌, ap₂, subst, ◌∙◌, ◌==◌, false, List, [], ◌∷◌, ◌++◌, length,
  take, drop, arith, word, is_negative, if◌then◌else◌, le_bytes, le_value, AreBytes, AreBytes-take,
  AreBytes-drop, le_bytes-le_value, length-take, length-drop, take-append-drop, take-all,
}
use socktestprogram.Pbc.{Api, IsLawful, word64}
use socktestprogram.Binding.{
  number, string, light, State, done, check_userdata, check_lstring, check_string, check_number,
  check_integer, c_string,
}
use socktestprogram.Binding.Messages.{
  integer_field, wmessage_integer, wmessage_int32, wmessage_int64, wmessage_int52, wmessage_uint52,
}

pub ==-ne : (m : ℕ) → 0 < m → (m == 0) ≡ false
==-ne m h = ground arith

pub extension-lt : (n : ℕ) → (if is_negative n then 0xffff_ffff else 0) < word
extension-lt n = ground arith

pub extended :
    (n : ℕ)
    → (if is_negative n then 0xffff_ffff else 0) * word + n
      ≡ (if is_negative n then n + (word64 - word) else n)
extended n = ground arith

four_bytes : (b : List ℕ) → length b ≡ 4 → AreBytes b → le_bytes 4 (le_value b) ≡ b
four_bytes b e h = subst (λ n. le_bytes n (le_value b) ≡ b) e (le_bytes-le_value b h)

pub eight_bytes :
    (b : List ℕ)
    → length b ≡ 8
    → AreBytes b
    → le_bytes 4 (le_value (take 4 b)) ++ le_bytes 4 (le_value (take 4 (drop 4 b))) ≡ b
eight_bytes b e h =
    let lo : length (take 4 b) ≡ 4 = omega (arith, length-take 4 b) in
    let hi : length (take 4 (drop 4 b)) ≡ 4 =
      omega (arith, length-take 4 (drop 4 b), length-drop 4 b) in
    ap₂ ◌++◌ (four_bytes (take 4 b) lo (AreBytes-take 4 b h)) (
      four_bytes (take 4 (drop 4 b)) hi (AreBytes-take 4 (drop 4 b) (AreBytes-drop 4 b h))
      ∙ take-all 4 (drop 4 b) (omega (arith, length-drop 4 b)))
    ∙ take-append-drop 4 b

module _ (a : Api) (law : IsLawful a) where
  pub integer_field_lem :
      (r i : ℕ) (key : List ℕ) (s : State a)
      → 0 < r
      → i < word
      → integer_field a (light r ∷ string key ∷ number (a.of_int i) ∷ []) s
        ≡ done (a.rmessage_integer r (c_string key) i s.pbc) s
  unfolding integer_field check_userdata check_string check_lstring check_number check_integer
  integer_field_lem r i key s h k = rw (==-ne r h, law.to_int-of_int i k)

  -- The state after `pbc_wmessage_integer`.
  abbrev pub written : ℕ → List ℕ → ℕ → ℕ → State a → State a
  written m key low hi s = record s { pbc = a.wmessage_integer m (c_string key) low hi s.pbc }

  module _ (m : ℕ) (key : List ℕ) (s : State a) (present : 0 < m) where
    pub int52-written :
        (x : a.Number)
        → wmessage_int52 a (light m ∷ string key ∷ number x ∷ []) s
          ≡ done [] (written m key (a.to_int64 x % word) (a.to_int64 x / word) s)
    unfolding wmessage_int52 check_userdata check_string check_lstring check_number
    int52-written x = rw (==-ne m present)

    pub uint52-written :
        (x : a.Number)
        → a.below_zero x ≡ false
        → wmessage_uint52 a (light m ∷ string key ∷ number x ∷ []) s
          ≡ done [] (written m key (a.to_uint64 x % word) (a.to_uint64 x / word) s)
    unfolding wmessage_uint52 check_userdata check_string check_lstring check_number
    uint52-written x e = rw (==-ne m present, e)

    pub int32-written :
        (p : ℕ)
        → wmessage_int32 a (light m ∷ string key ∷ light p ∷ []) s
          ≡ done [] (written m key (p % word) 0 s)
    unfolding wmessage_int32 check_userdata check_string check_lstring
    int32-written p = rw (==-ne m present)

    pub int64-written :
        (b : List ℕ)
        → length b ≡ 8
        → wmessage_int64 a (light m ∷ string key ∷ string b ∷ []) s
          ≡ done [] (written m key (le_value (take 4 b)) (le_value (take 4 (drop 4 b))) s)
    unfolding wmessage_int64 check_userdata check_string check_lstring
    int64-written b e = rw (==-ne m present, e)

    pub integer-written :
        (n : ℕ)
        → n < word
        → wmessage_integer a (light m ∷ string key ∷ number (a.of_int n) ∷ []) s
          ≡ done [] (written m key n (if is_negative n then 0xffff_ffff else 0) s)
    unfolding wmessage_integer check_userdata check_string check_lstring check_number check_integer
    integer-written n h = rw (==-ne m present, law.to_int-of_int n h)
