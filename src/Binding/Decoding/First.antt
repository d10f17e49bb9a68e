-- ===== src/Binding/Decoding/First.antt =====
-- The first value of a repeated field makes an array, in the decoder of pbc-lua.c.
use socktestprogram.Prelude.{
  ℕ, suc, ◌<◌, ◌≡◌, ◌≢◌, ap, sym, ◌∙◌, Bool, true, false, List, [], ◌∷◌, ◌++◌, arith, length,
  length-append, length-set, ℕ_discrete,
}
use socktestprogram.Pbc.{Api}
use socktestprogram.Binding.{Value, table, index}
use socktestprogram.Binding.Fields.{nth_table}
use socktestprogram.Binding.Patterns.{is_absent}
use socktestprogram.Binding.Decoding.{put}
use socktestprogram.Binding.Decoding.Tables.{
  Entries, get, get-put_self, get-put_ne, nth_table-set_ne, nth_table-append,
  nth_table-append_length, put_at, nth_table-put_at,
}
use socktestprogram.Binding.Decoding.Arrays.{items, ArePresent-append}
use socktestprogram.Binding.Decoding.Changes.{
  other_field, other_index, table-injective, stays, assemble, Here, Of, name_of, sh, ar,
}

module _ (a : Api) (names : ℕ → List ℕ) (apart_names : (i j : ℕ) → names i ≡ names j → i ≡ j)
    (repeated : ℕ → Bool) (target ids : ℕ) (before : Entries a) where
  module _ (ts : List (Entries a)) (history : ℕ → List (Value a))
      (d : Here a names apart_names repeated target ids before ts history)
      (add : ℕ → List (Value a)) (id : ℕ) (v : Value a) (here : add id ≡ v ∷ [])
      (there : (i : ℕ) → i ≢ id → add i ≡ []) (present : is_absent a v ≡ false) where
    abbrev pub fresh_array : List (Entries a)
    fresh_array =
        put_at a
          (put_at a (ts ++ [] ∷ []) target
            (name_of a names apart_names repeated target ids before id) (table (length ts)))
          ids (index id) (table (length ts))

    pub record Fresh : Type 0 where
      pub grown : length fresh_array ≡ suc (length ts)
      pub at_target :
          nth_table a fresh_array target
          ≡ put a
              (name_of a names apart_names repeated target ids before id)
              (table (length ts))
              (nth_table a ts target)
      pub at_ids :
          nth_table a fresh_array ids ≡ put a (index id) (table (length ts)) (nth_table a ts ids)
      pub at_new : nth_table a fresh_array (length ts) ≡ []
      pub others :
          (u : ℕ)
          → u < length ts
          → u ≢ target
          → u ≢ ids
          → nth_table a fresh_array u ≡ nth_table a ts u

    -- The tables of `new_array`.
    pub is_fresh : Fresh
    is_fresh =
        let n : ℕ = length ts in
        let one : List (Entries a) = ts ++ [] ∷ [] in
        let two : List (Entries a) =
          put_at a one target (name_of a names apart_names repeated target ids before id)
            (table n) in
        let size_one : length one ≡ suc n = omega (arith, length-append ts ([] ∷ [])) in
        let size_two : length two ≡ suc n =
          length-set one target (
            put a (name_of a names apart_names repeated target ids before id) (table n)
              (nth_table a one target))
          ∙ size_one in
        let two_other : (u : ℕ) → target ≢ u → nth_table a two u ≡ nth_table a one u = λ u h.
          nth_table-set_ne a one target u
            (put a (name_of a names apart_names repeated target ids before id) (table n)
              (nth_table a one target))
            h in
        let three_other : (u : ℕ) → ids ≢ u → nth_table a fresh_array u ≡ nth_table a two u = λ u h.
          nth_table-set_ne a two ids u (put a (index id) (table n) (nth_table a two ids)) h in
        record {
          grown = length-set two ids (put a (index id) (table n) (nth_table a two ids)) ∙ size_two;
          at_target =
              three_other target (λ q. d.separate (sym q))
              ∙ (nth_table-put_at a one target
                    (name_of a names apart_names repeated target ids before id) (table n)
                    (omega (arith, d.target-lt, size_one))
                  ∙ ap (put a (name_of a names apart_names repeated target ids before id) (table n))
                      (nth_table-append a ts ([] ∷ []) target d.target-lt));
          at_ids =
              nth_table-put_at a two ids (index id) (table n) (omega (arith, d.ids-lt, size_two))
              ∙ ap (put a (index id) (table n))
                  (two_other ids d.separate ∙ nth_table-append a ts ([] ∷ []) ids d.ids-lt);
          at_new =
              three_other n (λ q. absurd (omega (arith, d.ids-lt, q)))
              ∙ (two_other n (λ q. absurd (omega (arith, d.target-lt, q)))
                  ∙ nth_table-append_length a ts []);
          others = λ u lt x y.
              three_other u (λ q. y (sym q))
              ∙ (two_other u (λ q. x (sym q)) ∙ nth_table-append a ts ([] ∷ []) u lt);
        }

    -- The tables after the first value of a repeated field.
    pub first-Decoded :
        repeated id ≡ true
        → history id ≡ []
        → Here a names apart_names repeated target ids before
            (put_at a fresh_array (length ts) (index 1) v)
            (λ i. history i ++ add i)
    first-Decoded many values =
        let n : ℕ = length ts in
        let c : Fresh = is_fresh in
        let us : List (Entries a) = put_at a fresh_array n (index 1) v in
        let array_now : nth_table a us n ≡ items a 1 (v ∷ []) =
          nth_table-put_at a fresh_array n (index 1) v (omega (arith, c.grown))
          ∙ ap (put a (index 1) v) c.at_new in
        let other : (u : ℕ) → n ≢ u → nth_table a us u ≡ nth_table a fresh_array u = λ u h.
          nth_table-set_ne a fresh_array n u (put a (index 1) v (nth_table a fresh_array n)) h in
        let size : length us ≡ suc n =
          length-set fresh_array n (put a (index 1) v (nth_table a fresh_array n)) ∙ c.grown in
        let target_now : nth_table a us target
            ≡ put a (name_of a names apart_names repeated target ids before id) (table n)
                (nth_table a ts target) =
          other target (λ q. absurd (omega (arith, d.target-lt, q))) ∙ c.at_target in
        let ids_now : nth_table a us ids ≡ put a (index id) (table n) (nth_table a ts ids) =
          other ids (λ q. absurd (omega (arith, d.ids-lt, q))) ∙ c.at_ids in
        let sh_id : sh a names apart_names repeated target ids before us id ≡ table n =
          ap (get a (name_of a names apart_names repeated target ids before id)) target_now
          ∙ get-put_self a (name_of a names apart_names repeated target ids before id) (table n)
              (nth_table a ts target) in
        let ar_id : ar a names apart_names repeated target ids before us id ≡ table n =
          ap (get a (index id)) ids_now
          ∙ get-put_self a (index id) (table n) (nth_table a ts ids) in
        let sh_other : (i : ℕ)
            → i ≢ id
            → sh a names apart_names repeated target ids before us i
              ≡ sh a names apart_names repeated target ids before ts i =
          λ i h.
            ap (get a (name_of a names apart_names repeated target ids before i)) target_now
            ∙ get-put_ne a (name_of a names apart_names repeated target ids before i)
                (name_of a names apart_names repeated target ids before id) (table n)
                (nth_table a ts target)
                (other_field a names apart_names repeated target ids before i id h) in
        let ar_other : (i : ℕ)
            → i ≢ id
            → ar a names apart_names repeated target ids before us i
              ≡ ar a names apart_names repeated target ids before ts i =
          λ i h.
            ap (get a (index i)) ids_now
            ∙ get-put_ne a (index i) (index id) (table n) (nth_table a ts ids)
                (other_index a names apart_names repeated target ids before i id h) in
        let old : (i t : ℕ)
            → i ≢ id
            → ar a names apart_names repeated target ids before us i ≡ table t
            → ar a names apart_names repeated target ids before ts i ≡ table t =
          λ i t h e. sym (ar_other i h) ∙ e in
        let new : (i t : ℕ)
            → i ≡ id
            → ar a names apart_names repeated target ids before us i ≡ table t
            → n ≡ t =
          λ i t q e.
            table-injective a names apart_names repeated target ids before n t (
              sym ar_id
              ∙ (ap (ar a names apart_names repeated target ids before us) (sym q) ∙ e)) in
        record {
          target-lt = omega (arith, d.target-lt, size);
          ids-lt = omega (arith, d.ids-lt, size);
          inside = λ i t e. elim (ℕ_discrete i id) [
            | yes q ↦
                let same : n ≡ t = new i t q e in
                (
                  omega (arith, same, size),
                  λ r. absurd (omega (arith, same, r, d.target-lt)),
                  λ r. absurd (omega (arith, same, r, d.ids-lt)),
                )
            | no h ↦ let (lt, x, y) = d.inside i t (old i t h e) in (omega (arith, lt, size), x, y)
          ];
          apart = λ i j t e f. elim (ℕ_discrete i id) [
            | yes q ↦ elim (ℕ_discrete j id) [
              | yes r ↦ q ∙ sym r
              | no h ↦ absurd (omega (arith, new i t q e, (d.inside j t (old j t h f)).0))
            ]
            | no h ↦ elim (ℕ_discrete j id) [
              | yes r ↦ absurd (omega (arith, new j t r f, (d.inside i t (old i t h e)).0))
              | no k ↦ d.apart i j t (old i t h e) (old j t k f)
            ]
          ];
          separate = d.separate;
          fields =
              assemble a names apart_names repeated target ids before
                (Of a names apart_names repeated target ids before us) history add id v here there
                (
                  ArePresent-append a (history id) (v ∷ []) (d.fields id).0 (present, tt),
                  rw (many, values) (n, sh_id, array_now),
                  rw (many, values) (ar_id ∙ sym sh_id),
                )
                (λ i h.
                  let r =
                    stays a names apart_names repeated target ids before ts us i (repeated i)
                      (history i) _ (sh_other i h) (ar_other i h)
                      (λ t e.
                        let (lt, x, y) = d.inside i t e in
                        other t (λ q. absurd (omega (arith, q, lt))) ∙ c.others t lt x y)
                      (d.fields i).1 (d.fields i).2 in
                  ((d.fields i).0, r.0, r.1));
        }
