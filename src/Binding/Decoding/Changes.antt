-- ===== src/Binding/Decoding/Changes.antt =====
-- A field of a message changes the tables of the decoder of pbc-lua.c at its own places only.
use socktestprogram.Prelude.{
  ℕ, suc, ◌≡◌, ◌≢◌, ap, sym, subst, ◌∙◌, Bool, true, false, List, [], ◌∷◌, ◌++◌, arith, length,
  length-set, ℕ_discrete, append-nil,
}
use socktestprogram.Pbc.{Api}
use socktestprogram.Binding.{Value, table, Key, index, field}
use socktestprogram.Binding.Fields.{nth_table}
use socktestprogram.Binding.Patterns.{is_absent}
use socktestprogram.Binding.Decoding.{put}
use socktestprogram.Binding.Decoding.Tables.{
  Entries, get, get-put_self, get-put_ne, nth_table-set_ne, put_at, nth_table-put_at,
}
use socktestprogram.Binding.Decoding.Arrays.{items, ArePresent-append, put_last}
use socktestprogram.Binding.Decoding.Fields.{
  latest-append, Shows, Knows, shown, array_of_id, OfField, Decoded,
}

module _ (a : Api) (names : ℕ → List ℕ) (apart_names : (i j : ℕ) → names i ≡ names j → i ≡ j)
    (repeated : ℕ → Bool) (target ids : ℕ) (before : Entries a) where
  abbrev pub Here : List (Entries a) → (ℕ → List (Value a)) → Type 0
  Here = Decoded a names repeated target ids before

  abbrev pub Of : List (Entries a) → ℕ → List (Value a) → Type 0
  Of = OfField a names repeated target ids before

  abbrev pub name_of : ℕ → Key a
  name_of i = field (names i)

  abbrev pub sh : List (Entries a) → ℕ → Value a
  sh = shown a names repeated target ids before

  abbrev pub ar : List (Entries a) → ℕ → Value a
  ar = array_of_id a names repeated target ids before

  pub other_field : (i j : ℕ) → i ≢ j → ◌≢◌ {A = Key a} (field (names i)) (field (names j))
  other_field i j h e = h (apart_names i j (cc))

  pub other_index : (i j : ℕ) → i ≢ j → ◌≢◌ {A = Key a} (index i) (index j)
  other_index i j h e = h (cc)

  pub table-injective : (t u : ℕ) → ◌≡◌ {A = Value a} (table t) (table u) → t ≡ u
  table-injective t u e = cc

  -- A field keeps its values where its places are not changed.
  pub stays :
      (ts us : List (Entries a)) (i : ℕ) (r : Bool) (vs : List (Value a)) (old : Value a)
      → sh us i ≡ sh ts i
      → ar us i ≡ ar ts i
      → ((t : ℕ) → ar ts i ≡ table t → nth_table a us t ≡ nth_table a ts t)
      → Shows a ts old (sh ts i) r vs
      → Knows a (sh ts i) (ar ts i) r vs
      → Shows a us old (sh us i) r vs × Knows a (sh us i) (ar us i) r vs
  stays ts us i false vs old same_shown same_array same s k = (same_shown ∙ s, tt)
  stays ts us i true [] old same_shown same_array same s k = (same_shown ∙ s, same_array ∙ k)
  stays ts us i true (w ∷ ws) old same_shown same_array same s k =
      ((s.0, same_shown ∙ s.1, same s.0 (k ∙ s.1) ∙ s.2), same_array ∙ (k ∙ sym same_shown))

  -- One field has a value more, and the others have what they had.
  pub assemble :
      (P : ℕ → List (Value a) → Type 0) (history add : ℕ → List (Value a)) (id : ℕ) (v : Value a)
      → add id ≡ v ∷ []
      → ((i : ℕ) → i ≢ id → add i ≡ [])
      → P id (history id ++ v ∷ [])
      → ((i : ℕ) → i ≢ id → P i (history i))
      → (i : ℕ) → P i (history i ++ add i)
  assemble P history add id v here there one others i = elim (ℕ_discrete i id) [
    | yes e ↦
        subst (λ j. P j (history j ++ add j)) (sym e)
          (subst (λ l. P id (history id ++ l)) (sym here) one)
    | no e ↦
        subst (λ l. P i (history i ++ l)) (sym (there i e))
          (subst (P i) (sym (append-nil (history i))) (others i e))
  ]

  module _ (ts : List (Entries a)) (history : ℕ → List (Value a)) (d : Here ts history)
      (add : ℕ → List (Value a)) (id : ℕ) (v : Value a) (here : add id ≡ v ∷ [])
      (there : (i : ℕ) → i ≢ id → add i ≡ []) (present : is_absent a v ≡ false) where
    -- The tables after a value of a field that is not repeated.
    pub single-Decoded :
        repeated id ≡ false → Here (put_at a ts target (name_of id) v) (λ i. history i ++ add i)
    single-Decoded single =
        let us : List (Entries a) = put_at a ts target (name_of id) v in
        let put_there : nth_table a us target ≡ put a (name_of id) v (nth_table a ts target) =
          nth_table-put_at a ts target (name_of id) v d.target-lt in
        let other : (u : ℕ) → target ≢ u → nth_table a us u ≡ nth_table a ts u =
          λ u h. nth_table-set_ne a ts target u (put a (name_of id) v (nth_table a ts target)) h in
        let size : length us ≡ length ts =
          length-set ts target (put a (name_of id) v (nth_table a ts target)) in
        let same_ar : (i : ℕ) → ar us i ≡ ar ts i =
          λ i. ap (get a (index i)) (other ids d.separate) in
        record {
          target-lt = omega (arith, d.target-lt, size);
          ids-lt = omega (arith, d.ids-lt, size);
          inside = λ i t e.
              let (below, x, y) = d.inside i t (sym (same_ar i) ∙ e) in
              (omega (arith, below, size), x, y);
          apart = λ i j t e f. d.apart i j t (sym (same_ar i) ∙ e) (sym (same_ar j) ∙ f);
          separate = d.separate;
          fields =
              assemble (Of us) history add id v here there
                (
                  ArePresent-append a (history id) (v ∷ []) (d.fields id).0 (present, tt),
                  rw single (
                      ap (get a (name_of id)) put_there
                      ∙ get-put_self a (name_of id) v (nth_table a ts target)
                      ∙ sym (latest-append a _ (history id) v)),
                  rw single tt,
                )
                (λ i n.
                  let r =
                    stays ts us i (repeated i) (history i) _
                      (ap (get a (name_of i)) put_there
                        ∙ get-put_ne a (name_of i) (name_of id) v (nth_table a ts target)
                            (other_field i id n))
                      (same_ar i) (λ t e. other t (λ q. (d.inside i t e).1 (sym q))) (d.fields i).1
                      (d.fields i).2 in
                  ((d.fields i).0, r.0, r.1));
        }

    -- The tables after a further value of a repeated field.
    pub next-Decoded :
        (t : ℕ) (w : Value a) (ws : List (Value a))
        → repeated id ≡ true
        → history id ≡ w ∷ ws
        → ar ts id ≡ table t
        → nth_table a ts t ≡ items a 1 (w ∷ ws)
        → Here (put_at a ts t (index (suc (length (w ∷ ws)))) v) (λ i. history i ++ add i)
    next-Decoded t w ws many values known array =
        let us : List (Entries a) = put_at a ts t (index (suc (length (w ∷ ws)))) v in
        let (below, not_target, not_ids) = d.inside id t known in
        let array_now : nth_table a us t ≡ items a 1 ((w ∷ ws) ++ v ∷ []) =
          nth_table-put_at a ts t (index (suc (length (w ∷ ws)))) v below
          ∙ (ap (put a (index (suc (length (w ∷ ws)))) v) array ∙ put_last a (w ∷ ws) v) in
        let other : (u : ℕ) → t ≢ u → nth_table a us u ≡ nth_table a ts u = λ u h.
          nth_table-set_ne a ts t u (put a (index (suc (length (w ∷ ws)))) v (nth_table a ts t))
            h in
        let size : length us ≡ length ts =
          length-set ts t (put a (index (suc (length (w ∷ ws)))) v (nth_table a ts t)) in
        let same_sh : (i : ℕ) → sh us i ≡ sh ts i =
          λ i. ap (get a (name_of i)) (other target not_target) in
        let same_ar : (i : ℕ) → ar us i ≡ ar ts i = λ i. ap (get a (index i)) (other ids not_ids) in
        let both : ar ts id ≡ sh ts id = rw (many, values) at (d.fields id).2 in
        record {
          target-lt = omega (arith, d.target-lt, size);
          ids-lt = omega (arith, d.ids-lt, size);
          inside = λ i u e.
              let (lt, x, y) = d.inside i u (sym (same_ar i) ∙ e) in
              (omega (arith, lt, size), x, y);
          apart = λ i j u e f. d.apart i j u (sym (same_ar i) ∙ e) (sym (same_ar j) ∙ f);
          separate = d.separate;
          fields =
              assemble (Of us) history add id v here there
                (
                  ArePresent-append a (history id) (v ∷ []) (d.fields id).0 (present, tt),
                  rw (many, values) (t, same_sh id ∙ (sym both ∙ known), array_now),
                  rw (many, values) (same_ar id ∙ (both ∙ sym (same_sh id))),
                )
                (λ i n.
                  let r =
                    stays ts us i (repeated i) (history i) _ (same_sh i) (same_ar i)
                      (λ u e. other u (λ q. n (d.apart i id t (e ∙ ap table (sym q)) known)))
                      (d.fields i).1 (d.fields i).2 in
                  ((d.fields i).0, r.0, r.1));
        }
