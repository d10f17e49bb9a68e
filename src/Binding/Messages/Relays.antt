-- ===== src/Binding/Messages/Relays.antt =====
-- Integer fields: what the `_wmessage` functions write, the `_rmessage` functions of the receiver
-- read.
use socktestprogram.Prelude.{
  ℕ, ◌+◌, ◌-◌, ◌*◌, ◌/◌, ◌%◌, ◌≤◌, ◌<◌, ◌≡◌, ◌⊎◌, ap, subst, ◌∙◌, List, [], ◌∷◌, ◌++◌, length, take,
  drop, arith, word, is_negative, if◌then◌else◌, le_bytes, le_value, AreBytes, AreBytes-take,
  AreBytes-drop, le_value-lt, length-take, length-drop,
}
use socktestprogram.Pbc.{Api, IsLawful, word64, exact}
use socktestprogram.Binding.{
  Value, number, string, light, State, done, M, pure, ◌>>=◌, ◌>>◌, change, c_string,
}
use socktestprogram.Binding.Messages.{
  Function, integer_field, joined, rmessage_integer, rmessage_int32, rmessage_int64, rmessage_int52,
  rmessage_uint52, wmessage_integer, wmessage_int32, wmessage_int64, wmessage_int52,
  wmessage_uint52,
}
use socktestprogram.Binding.Messages.Integers.{
  extension-lt, extended, eight_bytes, integer_field_lem, written, int52-written, uint52-written,
  int32-written, int64-written, integer-written,
}

-- What a message that was written, sent and read again keeps of an integer field: `transfer` is what
-- happens to the memory between the writing of the message `m` and the reading of the message `r`.
pub record Carries (a : Api) (transfer : a.Pbc → a.Pbc) (m r : ℕ) (key : List ℕ) (i : ℕ)
    : Type 0 where
  pub same :
      (low hi : ℕ) (p : a.Pbc)
      → low < word
      → hi < word
      → a.rmessage_integer r key i (transfer (a.wmessage_integer m key low hi p)) ≡ (low, hi)

module _ (a : Api) (law : IsLawful a) where
  -- What `write` puts into the field of the message `m` and `read` gets from it in the message `r`.
  abbrev pub relayed :
      Function a
      → Function a
      → (a.Pbc → a.Pbc)
      → ℕ
      → ℕ
      → List ℕ
      → ℕ
      → Value a
      → M a (List (Value a))
  relayed write read transfer m r key i v = write (light m ∷ string key ∷ v ∷ []) >>= λ _.
      change a transfer >> read (light r ∷ string key ∷ number (a.of_int i) ∷ [])

  -- The call returns the value `v`.
  abbrev pub Gives : M a (List (Value a)) → State a → Value a → Type 0
  Gives c s v = (t : State a) × (c s ≡ done (v ∷ []) t)

  module _ (transfer : a.Pbc → a.Pbc) (m r : ℕ) (key : List ℕ) (i : ℕ) (s : State a)
      (carries : Carries a transfer m r (c_string key) i) (present : 0 < m) (there : 0 < r)
      (small : i < word) where
    relay :
        (write : Function a) (v : Value a) (f : ℕ × ℕ → Value a) (low hi : ℕ)
        → write (light m ∷ string key ∷ v ∷ []) s ≡ done [] (written a law m key low hi s)
        → low < word
        → hi < word
        → Gives
            (relayed write
              (λ args. integer_field a args >>= λ h. pure a (f h ∷ []))
              transfer
              m
              r
              key
              i
              v)
            s
            (f (low, hi))
    relay write v f low hi e hl hh =
        let sent : State a = written a law m key low hi s in
        let t : State a = record sent { pbc = transfer sent.pbc } in
        (
          t,
          ap
                (λ c.
                  ◌>>=◌ {a = a} {A = List (Value a)} {B = List (Value a)} (λ _. c)
                    (λ _.
                      change a transfer
                      >> (integer_field a (light r ∷ string key ∷ number (a.of_int i) ∷ []) >>= λ h.
                          pure a (f h ∷ [])))
                    s)
                e
              ∙ (ap
                    (λ c.
                      ◌>>=◌ {a = a} {A = ℕ × ℕ} {B = List (Value a)} (λ _. c)
                        (λ h. pure a (f h ∷ [])) t)
                    (integer_field_lem a law r i key t there small)
                  ∙ ap (λ h. done (f h ∷ []) t) (carries.same low hi s.pbc hl hh)),
        )

    -- `write` of `v` and `read` give `u`.
    abbrev pub Through : Function a → Function a → Value a → Value a → Type 0
    Through write read v u = Gives (relayed write read transfer m r key i v) s u

    int52-relayed :
        (w : ℕ)
        → (w ≤ exact) ⊎ (word64 ≤ w + exact)
        → w < word64
        → Through
            (wmessage_int52 a)
            (rmessage_int52 a)
            (number (a.of_int64 w))
            (number (a.of_int64 w))
    unfolding rmessage_int52
    int52-relayed w h k =
        let join : w / word * word + w % word ≡ w = omega arith in
        let e : wmessage_int52 a (light m ∷ string key ∷ number (a.of_int64 w) ∷ []) s
            ≡ done [] (written a law m key (w % word) (w / word) s) =
          int52-written a law m key s present (a.of_int64 w)
          ∙ ap (λ u. done [] (written a law m key (u % word) (u / word) s))
              (law.to_int64-of_int64 w h k) in
        subst
          (λ u.
            Through (wmessage_int52 a) (rmessage_int52 a) (number (a.of_int64 w))
              (number (a.of_int64 u)))
          join
          (relay (wmessage_int52 a) _ (λ h. number (a.of_int64 (joined a h))) (w % word) (w / word)
            e (omega arith) (omega arith))

    uint52-relayed :
        (w : ℕ)
        → w ≤ exact
        → Through
            (wmessage_uint52 a)
            (rmessage_uint52 a)
            (number (a.of_uint64 w))
            (number (a.of_uint64 w))
    unfolding rmessage_uint52
    uint52-relayed w h =
        let join : w / word * word + w % word ≡ w = omega arith in
        let e : wmessage_uint52 a (light m ∷ string key ∷ number (a.of_uint64 w) ∷ []) s
            ≡ done [] (written a law m key (w % word) (w / word) s) =
          uint52-written a law m key s present (a.of_uint64 w)
            (law.below_zero-of_uint64 w (omega arith))
          ∙ ap (λ u. done [] (written a law m key (u % word) (u / word) s))
              (law.to_uint64-of_uint64 w h) in
        subst
          (λ u.
            Through (wmessage_uint52 a) (rmessage_uint52 a) (number (a.of_uint64 w))
              (number (a.of_uint64 u)))
          join
          (relay (wmessage_uint52 a) _ (λ h. number (a.of_uint64 (joined a h))) (w % word)
            (w / word) e (omega arith) (omega arith))

    int32-relayed :
        (p : ℕ) → p < word → Through (wmessage_int32 a) (rmessage_int32 a) (light p) (light p)
    unfolding rmessage_int32
    int32-relayed p h =
        let whole : p % word ≡ p = omega arith in
        subst (λ u. Through (wmessage_int32 a) (rmessage_int32 a) (light p) (light u)) whole
          (relay (wmessage_int32 a) _ (λ h. light h.0) (p % word) 0
            (int32-written a law m key s present p) (omega arith) (omega arith))

    int64-relayed :
        (b : List ℕ)
        → length b ≡ 8
        → AreBytes b
        → Through (wmessage_int64 a) (rmessage_int64 a) (string b) (string b)
    unfolding rmessage_int64
    int64-relayed b e h =
        let lo : length (take 4 b) ≡ 4 = omega (arith, length-take 4 b) in
        let hi : length (take 4 (drop 4 b)) ≡ 4 =
          omega (arith, length-take 4 (drop 4 b), length-drop 4 b) in
        let lo_bytes : AreBytes (take 4 b) = AreBytes-take 4 b h in
        let hi_bytes : AreBytes (take 4 (drop 4 b)) =
          AreBytes-take 4 (drop 4 b) (AreBytes-drop 4 b h) in
        subst (λ u. Through (wmessage_int64 a) (rmessage_int64 a) (string b) (string u))
          (eight_bytes b e h)
          (relay (wmessage_int64 a) _ (λ h. string (le_bytes 4 h.0 ++ le_bytes 4 h.1))
            (le_value (take 4 b)) (le_value (take 4 (drop 4 b)))
            (int64-written a law m key s present b e) (le_value-lt 4 (take 4 b) lo lo_bytes)
            (le_value-lt 4 (take 4 (drop 4 b)) hi hi_bytes))

    integer-relayed :
        (n : ℕ)
        → n < word
        → Through
            (wmessage_integer a)
            (rmessage_integer a)
            (number (a.of_int n))
            (number (a.of_int n))
    unfolding rmessage_integer
    integer-relayed n h =
        relay (wmessage_integer a) _ (λ h. number (a.of_int h.0)) n
          (if is_negative n then 0xffff_ffff else 0) (integer-written a law m key s present n h) h
          (extension-lt n)

    -- Between two messages of which the second keeps the two halves of an integer field of the
    -- first, what is written is what is read, without an error: the numbers that a double has
    -- exactly by the functions for 52 bits, every `uint32_t` as a pointer, every eight bytes, and
    -- every `int`.
    pub integers-relayed :
        (w u p n : ℕ) (b : List ℕ)
        → (w ≤ exact) ⊎ (word64 ≤ w + exact)
        → w < word64
        → u ≤ exact
        → p < word
        → n < word
        → length b ≡ 8
        → AreBytes b
        → Through
            (wmessage_int52 a)
            (rmessage_int52 a)
            (number (a.of_int64 w))
            (number (a.of_int64 w))
          × Through
              (wmessage_uint52 a)
              (rmessage_uint52 a)
              (number (a.of_uint64 u))
              (number (a.of_uint64 u))
          × Through (wmessage_int32 a) (rmessage_int32 a) (light p) (light p)
          × Through (wmessage_int64 a) (rmessage_int64 a) (string b) (string b)
          × Through
              (wmessage_integer a)
              (rmessage_integer a)
              (number (a.of_int n))
              (number (a.of_int n))
    integers-relayed w u p n b hw kw hu hp hn e hb = (
      int52-relayed w hw kw,
      uint52-relayed u hu,
      int32-relayed p hp,
      int64-relayed b e hb,
      integer-relayed n hn,
    )

    -- Between two such messages, an `int` that is written by `_wmessage_integer` and read by
    -- `_rmessage_int52` is read as its sign extension to 64 bits.
    pub integer-extended :
        (n : ℕ)
        → n < word
        → Through
            (wmessage_integer a)
            (rmessage_int52 a)
            (number (a.of_int n))
            (number (a.of_int64 (if is_negative n then n + (word64 - word) else n)))
    unfolding rmessage_int52
    integer-extended n h =
        subst
          (λ u.
            Through (wmessage_integer a) (rmessage_int52 a) (number (a.of_int n))
              (number (a.of_int64 u)))
          (extended n)
          (relay (wmessage_integer a) _ (λ h. number (a.of_int64 (joined a h))) n
            (if is_negative n then 0xffff_ffff else 0) (integer-written a law m key s present n h) h
            (extension-lt n))
