-- ===== src/Binding/Decoding/Steps.antt =====
-- What the calls of `decode_cb` do to the tables, for a value that is no message.
use socktestprogram.Prelude.{
  ℕ, suc, ◌-◌, ◌≡◌, ap, ◌∙◌, true, false, none, some, List, [], ◌∷◌, ◌++◌, if◌then◌else◌, arith,
  length,
}
use socktestprogram.Pbc.{Api, Event}
use socktestprogram.Binding.{Value, nil, table, index, field, State, done, M, >>=-done}
use socktestprogram.Binding.Fields.{raw_get, nth_table}
use socktestprogram.Binding.Patterns.{is_absent, raw_len}
use socktestprogram.Binding.Decoding.{
  is_repeated, pbc_repeated, new_array, array_of, push_plain, plain_value, push_field, append_to,
  decode_cb,
}
use socktestprogram.Binding.Decoding.Tables.{Entries, put_at}
use socktestprogram.Binding.Decoding.Arrays.{items, ArePresent, raw_len_lem}

module _ (a : Api) where
  abbrev pub with_tables : State a → List (Entries a) → State a
  with_tables s ts = record s { tables = ts }

  -- The type of an event without its flag.
  abbrev pub plain_type : Event a.Number → ℕ
  plain_type e = if is_repeated e.type then e.type - pbc_repeated else e.type

  pub plain_value-present :
      (type : ℕ) (e : Event a.Number) (p : a.Pbc) (v : Value a)
      → plain_value a type e p ≡ some v
      → is_absent a v ≡ false
  unfolding plain_value
  plain_value-present type e p v h = ground arith

module _ (a : Api) (f : List ℕ → List ℕ → M a (Value a)) (s : State a) where
  push_field_lem :
      (type : ℕ) (e : Event a.Number) (v : Value a)
      → plain_value a type e s.pbc ≡ some v
      → push_field a f type e s ≡ done v s
  unfolding push_field
  push_field_lem type e v h = ap (λ r. push_plain a f type e r s) h

  new_array-old :
      (target ids id t : ℕ) (key : List ℕ)
      → raw_get a (nth_table a s.tables ids) id ≡ table t
      → new_array a target ids id key s ≡ done t s
  unfolding new_array
  new_array-old target ids id t key h = ap (λ r. array_of a target ids id key r s) h

  -- The tables with an empty one behind them, which the two tables know.
  abbrev pub with_array : ℕ → ℕ → ℕ → List ℕ → List (Entries a)
  with_array target ids id key =
      put_at a (put_at a (s.tables ++ [] ∷ []) target (field key) (table (length s.tables))) ids
        (index id) (table (length s.tables))

  new_array-new :
      (target ids id : ℕ) (key : List ℕ)
      → raw_get a (nth_table a s.tables ids) id ≡ nil
      → new_array a target ids id key s
        ≡ done (length s.tables) (with_tables a s (with_array target ids id key))
  unfolding new_array
  new_array-new target ids id key h = ap (λ r. array_of a target ids id key r s) h

  append_to_lem :
      (t : ℕ) (v : Value a) (vs : List (Value a))
      → nth_table a s.tables t ≡ items a 1 vs
      → ArePresent a vs
      → append_to a t v s
        ≡ done tt (with_tables a s (put_at a s.tables t (index (suc (length vs))) v))
  unfolding append_to
  append_to_lem t v vs e h =
      ap (λ n. done tt (with_tables a s (put_at a s.tables t (index (suc n)) v)))
        (ap (λ (r : Entries a). raw_len a (length r) 0 r) e ∙ raw_len_lem a vs h)

module _ (a : Api) (f : List ℕ → List ℕ → M a (Value a)) (target ids : ℕ) (e : Event a.Number)
    (s : State a) where
  -- A field that the script's schema does not know.
  pub decode_cb-unknown : e.key ≡ none → decode_cb a f target ids e s ≡ done tt s
  unfolding decode_cb
  decode_cb-unknown k = rw (k, decode_cb)

  module _ (key : List ℕ) (v : Value a) (known : e.key ≡ some key)
      (plain : plain_value a (plain_type a e) e s.pbc ≡ some v) where
    pub decode_cb-single :
        is_repeated e.type ≡ false
        → decode_cb a f target ids e s
          ≡ done tt (with_tables a s (put_at a s.tables target (field key) v))
    unfolding decode_cb
    decode_cb-single h =
        let value : plain_value a e.type e s.pbc ≡ some v = rw h at plain in
        rw (known, decode_cb, h)
          (>>=-done a (push_field a f e.type e) _ (push_field_lem a f s e.type e v value))

    pub decode_cb-first :
        is_repeated e.type ≡ true
        → raw_get a (nth_table a s.tables ids) e.id ≡ nil
        → nth_table a (with_array a f s target ids e.id key) (length s.tables) ≡ []
        → decode_cb a f target ids e s
          ≡ done tt (
              with_tables a s
                (put_at a (with_array a f s target ids e.id key) (length s.tables) (index 1) v))
    unfolding decode_cb
    decode_cb-first h new empty =
        let value : plain_value a (e.type - pbc_repeated) e s.pbc ≡ some v = rw h at plain in
        rw (known, decode_cb, h)
          (>>=-done a (push_field a f (e.type - pbc_repeated) e) _
              (push_field_lem a f s (e.type - pbc_repeated) e v value)
            ∙ (>>=-done a (new_array a target ids e.id key) _
                  (new_array-new a f s target ids e.id key new)
                ∙ append_to_lem a f (with_tables a s (with_array a f s target ids e.id key))
                    (length s.tables) v [] empty tt))

    pub decode_cb-next :
        (t : ℕ) (vs : List (Value a))
        → is_repeated e.type ≡ true
        → raw_get a (nth_table a s.tables ids) e.id ≡ table t
        → nth_table a s.tables t ≡ items a 1 vs
        → ArePresent a vs
        → decode_cb a f target ids e s
          ≡ done tt (with_tables a s (put_at a s.tables t (index (suc (length vs))) v))
    unfolding decode_cb
    decode_cb-next t vs h old array present =
        let value : plain_value a (e.type - pbc_repeated) e s.pbc ≡ some v = rw h at plain in
        rw (known, decode_cb, h)
          (>>=-done a (push_field a f (e.type - pbc_repeated) e) _
              (push_field_lem a f s (e.type - pbc_repeated) e v value)
            ∙ (>>=-done a (new_array a target ids e.id key) _
                  (new_array-old a f s target ids e.id t key old)
                ∙ append_to_lem a f s t v vs array present))
