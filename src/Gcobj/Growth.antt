-- ===== src/Gcobj/Growth.antt =====
-- The tables of the garbage-collected object.
use socktestprogram.Prelude.{
  ℕ, zero, suc, ◌+◌, ◌≤◌, ◌<◌, ◌≡◌, refl, ap, ◌∙◌, Option, none, some, List, [], ◌∷◌, ◌++◌, length,
  take, set, arith, int_limit, length-append, length-set, lt→ltb, le→leb, lt→leb, dec_le, mul32,
}
use socktestprogram.Gcobj.{Alloc, Table, make_place, store, add}

-- The block has the capacity's length, and the size is within it.
pub record IsValid (t : Table) : Type 0 where
  pub fits : t.size ≤ t.cap
  pub whole : length t.block ≡ t.cap
  pub not_empty : 0 < t.cap

abbrev pub held : Table → List ℕ
held t = take t.size t.block

module _ {ℓ} {A : Type ℓ} where
  take-set :
      (xs : List A) (n : ℕ) (v : A)
      → n < length xs
      → take (suc n) (set xs n v) ≡ take n xs ++ v ∷ []
  take-set [] n v h = absurd (omega arith)
  take-set (x ∷ xs) zero v h = refl
  take-set (x ∷ xs) (suc n) v h = ap (◌∷◌ x) (take-set xs n v (omega arith))

  take-before : (xs ys : List A) (n : ℕ) → n ≤ length xs → take n (xs ++ ys) ≡ take n xs
  take-before xs ys zero h = refl
  take-before [] ys (suc n) h = absurd (omega arith)
  take-before (x ∷ xs) ys (suc n) h = ap (◌∷◌ x) (take-before xs ys n (omega arith))

-- A table with room for one more pointer, which holds what the table held.
record Placed (t : Table) (o : Option Table) : Type 0 where
  table : Table
  given : o ≡ some table
  valid : IsValid table
  room : table.size < table.cap
  same : held table ≡ held t
  size : table.size ≡ t.size

make_place_lem :
    (a : Alloc) (t : Table) → IsValid t → t.size + t.size < int_limit → Placed t (make_place a t)
unfolding make_place
make_place_lem a t v h = elim (dec_le t.cap t.size) [
  | yes full ↦
      let twice : mul32 t.cap 2 ≡ t.cap + t.cap = omega (arith, v.fits) in
      record {
        table = record t { cap = mul32 t.cap 2; block = t.block ++ a.block t.cap };
        given = rw (
          le→leb t.cap t.size full,
          lt→leb int_limit (mul32 t.cap 2) (omega (arith, twice, v.fits)),
        );
        valid = record {
          fits = omega (arith, twice, v.fits);
          whole =
              omega (
                arith,
                length-append t.block (a.block t.cap),
                v.whole,
                a.length-block t.cap,
                twice,
              );
          not_empty = omega (arith, twice, v.not_empty);
        };
        room = omega (arith, twice, v.fits, v.not_empty);
        same = take-before t.block (a.block t.cap) t.size (omega (arith, v.fits, v.whole));
        size = refl;
      }
  | no room ↦ record {
    table = t;
    given = rw (lt→leb t.cap t.size (omega arith));
    valid = v;
    room = omega arith;
    same = refl;
    size = refl;
  }
]

abbrev stored : ℕ → Option Table → Option Table
stored p none = none
stored p (some u) = store p u

-- A table with one more pointer, at the end of those it held.
pub record Added (p : ℕ) (t : Table) (o : Option Table) : Type 0 where
  pub table : Table
  pub given : o ≡ some table
  pub valid : IsValid table
  pub more : held table ≡ held t ++ p ∷ []
  pub size : table.size ≡ suc t.size

-- A pointer is added within the block, at the end, and the table stays valid.
pub add_lem :
    (a : Alloc) (p : ℕ) (t : Table)
    → IsValid t
    → t.size + t.size < int_limit
    → Added p t (add a p t)
unfolding add store
add_lem a p t v h =
    let u : Placed t (make_place a t) = make_place_lem a t v h in
    record {
      table = record (u.table) {
        size = suc u.table.size;
        block = set u.table.block u.table.size p;
      };
      given =
          ap (stored p) u.given
          ∙ rw (lt→ltb u.table.size (length u.table.block) (omega (arith, u.room, u.valid.whole)));
      valid = record {
        fits = omega (arith, u.room);
        whole = length-set u.table.block u.table.size p ∙ u.valid.whole;
        not_empty = u.valid.not_empty;
      };
      more =
          take-set u.table.block u.table.size p (omega (arith, u.room, u.valid.whole))
          ∙ ap (λ l. l ++ p ∷ []) u.same;
      size = ap suc u.size;
    }
