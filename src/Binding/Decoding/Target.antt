-- ===== src/Binding/Decoding/Target.antt =====
-- `_decode` of pbc-lua.c fills the target table with the fields of the message.
use socktestprogram.Prelude.{
  ℕ, suc, ◌<◌, ◌≡◌, ap, sym, ◌∙◌, ◌==◌, not, Bool, true, false, List, [], ◌∷◌, ◌++◌, arith, length,
  length-append,
}
use socktestprogram.Pbc.{Api}
use socktestprogram.Binding.{
  Value, nil, boolean, string, light, function, table, index, field, State, check_userdata,
  check_string, done, M, >>=-done, c_string, slice_of,
}
use socktestprogram.Binding.Fields.{nth_table}
use socktestprogram.Binding.Decoding.{decode_all, decode}
use socktestprogram.Binding.Decoding.Tables.{
  Entries, get, nth_table-append, nth_table-append_length,
}
use socktestprogram.Binding.Decoding.Fields.{AllConform, values, Shows, Knows, Decoded}
use socktestprogram.Binding.Decoding.Messages.{all-Goes}

module _ (a : Api) (call_function : ℕ → List ℕ → List ℕ → M a (Value a)) (names : ℕ → List ℕ)
    (repeated : ℕ → Bool) where
  Shows-none :
      (ts : List (Entries a)) (before v : Value a) (r : Bool)
      → v ≡ before
      → Shows a ts before v r []
  Shows-none ts before v false e = e
  Shows-none ts before v true e = e

  Knows-none : (v u : Value a) (r : Bool) → u ≡ nil → Knows a v u r []
  Knows-none v u false e = tt
  Knows-none v u true e = e

  -- The tables before the first field.
  start-Decoded :
      (ts : List (Entries a)) (target : ℕ)
      → target < length ts
      → Decoded a names repeated target
          (length ts)
          (nth_table a ts target)
          (ts ++ [] ∷ [])
          (λ i. [])
  start-Decoded ts target h =
      let size : length (ts ++ [] ∷ []) ≡ suc (length ts) =
        omega (arith, length-append ts ([] ∷ [])) in
      let empty : (i : ℕ) → get a (index i) (nth_table a (ts ++ [] ∷ []) (length ts)) ≡ nil =
        λ i. ap (get a (index i)) (nth_table-append_length a ts []) in
      record {
        target-lt = omega (arith, h, size);
        ids-lt = omega (arith, size);
        inside = λ i t e. absurd (never (sym (empty i) ∙ e));
        apart = λ i j t e f. absurd (never (sym (empty i) ∙ e));
        separate = λ q. absurd (omega (arith, q, h));
        fields = λ i. (
          tt,
          Shows-none (ts ++ [] ∷ []) _ _ (repeated i)
              (ap (get a (field (names i))) (nth_table-append a ts ([] ∷ []) target h)),
          Knows-none _ _ (repeated i) (empty i),
        );
      }
    where
      never : {t : ℕ} → ◌≡◌ {A = Value a} nil (table t) → ⊥
      never e = cc

  -- `_decode` of a string, with a pointer, a function and a table, when the names of the schema
  -- differ, what pbc reports is of the schema, and no value that it reports for a field of the schema
  -- is a message itself (the function of the script is called for those): it returns whether pbc
  -- succeeded, and for every number of a field the target table has under its name what pbc reported
  -- for it. Of a repeated field that is a table of all values in order, of another one the last
  -- value; without a value it is what was there before.
  pub decode_lem :
      ((i j : ℕ) → names i ≡ names j → i ≡ j)
      → (env fn target : ℕ) (type bytes : List ℕ) (s : State a) → 0 < env
      → target < length s.tables
      → AllConform a s.pbc names repeated (a.decode env (c_string type) (slice_of a bytes) s.pbc).0
      → (t : State a) × (decode a call_function
            (light env ∷ function fn ∷ table target ∷ string type ∷ string bytes ∷ [])
            s
          ≡ done (boolean (not (a.decode env (c_string type) (slice_of a bytes) s.pbc).1) ∷ []) t)
        × ((i : ℕ)
            → Shows a t.tables
                (get a (field (names i)) (nth_table a s.tables target))
                (get a (field (names i)) (nth_table a t.tables target))
                (repeated i)
                (values a s.pbc i (a.decode env (c_string type) (slice_of a bytes) s.pbc).0))
  unfolding decode check_userdata check_string
  decode_lem apart_names env fn target type bytes s present h conform =
      let es = (a.decode env (c_string type) (slice_of a bytes) s.pbc).0 in
      let s0 : State a = record s { tables = s.tables ++ [] ∷ [] } in
      let g =
        all-Goes a (call_function fn) names apart_names repeated target (length s.tables)
          (nth_table a s.tables target) es s0 (λ i. []) (start-Decoded s.tables target h) conform in
      let not_null : (env == 0) ≡ false = ground arith in
      (
        g.next,
        rw not_null
            (>>=-done a (decode_all a (call_function fn) target (length s.tables) es) _ g.result),
        λ i. (g.decoded.fields i).1,
      )
