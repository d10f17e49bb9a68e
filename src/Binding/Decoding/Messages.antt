-- ===== src/Binding/Decoding/Messages.antt =====
-- The calls of `decode_cb` for a message, in the decoder of pbc-lua.c.
use socktestprogram.Prelude.{
  ℕ, ◌≡◌, ◌≢◌, inl, inr, refl, ap, sym, subst, ◌∙◌, ◌==◌, Bool, true, false, none, List, [], ◌∷◌,
  ◌++◌, arith, append-nil, append_assoc,
}
use socktestprogram.Pbc.{Api, Event}
use socktestprogram.Binding.{Value, nil, State, Result, done, M, >>=-done}
use socktestprogram.Binding.Fields.{raw_get, nth_table}
use socktestprogram.Binding.Patterns.{is_absent}
use socktestprogram.Binding.Decoding.{plain_value, decode_cb, decode_all}
use socktestprogram.Binding.Decoding.Tables.{Entries, raw_get-get}
use socktestprogram.Binding.Decoding.Steps.{
  plain_type, plain_value-present, decode_cb-unknown, decode_cb-single, decode_cb-first,
  decode_cb-next,
}
use socktestprogram.Binding.Decoding.Fields.{
  Known, Conforms, AllConform, own, values, OfField, Decoded,
}
use socktestprogram.Binding.Decoding.Changes.{single-Decoded, next-Decoded}
use socktestprogram.Binding.Decoding.First.{is_fresh, first-Decoded}

module _ (a : Api) (f : List ℕ → List ℕ → M a (Value a)) (names : ℕ → List ℕ)
    (apart_names : (i j : ℕ) → names i ≡ names j → i ≡ j) (repeated : ℕ → Bool) (target ids : ℕ)
    (before : Entries a) where
  abbrev pub Holds : List (Entries a) → (ℕ → List (Value a)) → Type 0
  Holds = Decoded a names repeated target ids before

  -- The call returns with the tables of a history, and pbc is as it was.
  pub record Goes (s : State a) (r : Result a (Unit {0})) (history : ℕ → List (Value a))
      : Type 0 where
    pub next : State a
    pub result : r ≡ done tt next
    pub same_pbc : next.pbc ≡ s.pbc
    pub decoded : Holds next.tables history

  same_history :
      (ts : List (Entries a)) (g h : ℕ → List (Value a))
      → ((i : ℕ) → g i ≡ h i)
      → Holds ts g
      → Holds ts h
  same_history ts g h e d = record {
    target-lt = d.target-lt;
    ids-lt = d.ids-lt;
    inside = d.inside;
    apart = d.apart;
    separate = d.separate;
    fields = λ i. subst (OfField a names repeated target ids before ts i) (e i) (d.fields i);
  }

  module _ (e : Event a.Number) (s : State a) (history : ℕ → List (Value a))
      (d : Holds s.tables history) where
    abbrev add : ℕ → List (Value a)
    add i = values a s.pbc i (e ∷ [])

    module _ (k : Known a s.pbc names repeated e) where
      own_here : add e.id ≡ k.value ∷ []
      own_here = let same : (e.id == e.id) ≡ true = ground arith in rw (k.plain, k.key, same)

      own_there : (i : ℕ) → i ≢ e.id → add i ≡ []
      own_there i h = let other : (e.id == i) ≡ false = ground arith in rw (k.plain, k.key, other)

      value_present : is_absent a k.value ≡ false
      value_present = plain_value-present a (plain_type a e) e s.pbc k.value k.plain

      known-Goes :
          (vs : List (Value a))
          → history e.id ≡ vs
          → (r : Bool) → repeated e.id ≡ r
          → Goes s (decode_cb a f target ids e s) (λ i. history i ++ add i)
      known-Goes vs h false q = record {
        next = _;
        result =
            decode_cb-single a f target ids e s (names e.id) k.value k.key k.plain (k.flag ∙ q);
        same_pbc = refl;
        decoded =
            single-Decoded a names apart_names repeated target ids before s.tables history d add
              e.id k.value own_here own_there value_present q;
      }
      known-Goes [] h true q =
          let c =
            is_fresh a names apart_names repeated target ids before s.tables history d add e.id
              k.value own_here own_there value_present in
          let none_yet : raw_get a (nth_table a s.tables ids) e.id ≡ nil =
            raw_get-get a (nth_table a s.tables ids) e.id ∙ (rw (q, h) at (d.fields e.id).2) in
          record {
            next = _;
            result =
                decode_cb-first a f target ids e s (names e.id) k.value k.key k.plain (k.flag ∙ q)
                  none_yet c.at_new;
            same_pbc = refl;
            decoded =
                first-Decoded a names apart_names repeated target ids before s.tables history d add
                  e.id k.value own_here own_there value_present q h;
          }
      known-Goes (w ∷ ws) h true q =
          let (t, at, array) = rw (q, h) at (d.fields e.id).1 in
          let both = rw (q, h) at (d.fields e.id).2 in
          record {
            next = _;
            result =
                decode_cb-next a f target ids e s (names e.id) k.value k.key k.plain t (w ∷ ws)
                  (k.flag ∙ q) (raw_get-get a (nth_table a s.tables ids) e.id ∙ (both ∙ at)) array
                  (rw h at (d.fields e.id).0);
            same_pbc = refl;
            decoded =
                next-Decoded a names apart_names repeated target ids before s.tables history d add
                  e.id k.value own_here own_there value_present t w ws q h (both ∙ at) array;
          }

    add-unknown : e.key ≡ none → (i : ℕ) → history i ≡ history i ++ add i
    add-unknown h i =
        let nothing : own a s.pbc i e e.key (plain_value a (plain_type a e) e s.pbc) ≡ [] =
          ap (λ k. own a s.pbc i e k (plain_value a (plain_type a e) e s.pbc)) h in
        sym (ap (λ l. history i ++ (l ++ [])) nothing ∙ append-nil (history i))

    step-Goes :
        Conforms a s.pbc names repeated e
        → Goes s (decode_cb a f target ids e s) (λ i. history i ++ add i)
    step-Goes (inl h) = record {
      next = s;
      result = decode_cb-unknown a f target ids e s h;
      same_pbc = refl;
      decoded = same_history s.tables history _ (add-unknown h) d;
    }
    step-Goes (inr k) = known-Goes k (history e.id) refl (repeated e.id) refl

  -- All the calls of `decode_cb`.
  pub all-Goes :
      (es : List (Event a.Number)) (s : State a) (history : ℕ → List (Value a))
      → Holds s.tables history
      → AllConform a s.pbc names repeated es
      → Goes s (decode_all a f target ids es s) (λ i. history i ++ values a s.pbc i es)
  unfolding decode_all
  all-Goes [] s history d h = record {
    next = s;
    result = refl;
    same_pbc = refl;
    decoded = same_history s.tables history _ (λ i. sym (append-nil (history i))) d;
  }
  all-Goes (e ∷ es) s history d h =
      let one = step-Goes e s history d h.0 in
      let rest =
        all-Goes es one.next (λ i. history i ++ values a s.pbc i (e ∷ [])) one.decoded
          (subst (λ p. AllConform a p names repeated es) (sym one.same_pbc) h.1) in
      record {
        next = rest.next;
        result = >>=-done a (decode_cb a f target ids e) _ one.result ∙ rest.result;
        same_pbc = rest.same_pbc ∙ one.same_pbc;
        decoded =
            same_history rest.next.tables _ _
              (λ i.
                ap (λ p. (history i ++ values a s.pbc i (e ∷ [])) ++ values a p i es) one.same_pbc
                ∙ (append_assoc (history i) (values a s.pbc i (e ∷ [])) (values a s.pbc i es)
                    ∙ ap (λ l. history i ++ l)
                        (append_assoc
                          (own a s.pbc i e e.key (plain_value a (plain_type a e) e s.pbc)) []
                          (values a s.pbc i es))))
              rest.decoded;
      }
