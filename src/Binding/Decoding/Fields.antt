-- ===== src/Binding/Decoding/Fields.antt =====
-- What the script finds in the target table of the decoder of pbc-lua.c, and what each field of a
-- message does to the tables.
use socktestprogram.Prelude.{
  ℕ, ◌<◌, ◌≡◌, ◌≢◌, ◌⊎◌, refl, ◌==◌, Bool, true, false, Option, none, some, List, [], ◌∷◌, ◌++◌,
  if◌then◌else◌, length,
}
use socktestprogram.Pbc.{Api, Event}
use socktestprogram.Binding.{Value, nil, table, index, field}
use socktestprogram.Binding.Fields.{nth_table}
use socktestprogram.Binding.Decoding.{is_repeated, plain_value}
use socktestprogram.Binding.Decoding.Tables.{Entries, get}
use socktestprogram.Binding.Decoding.Arrays.{items, ArePresent}
use socktestprogram.Binding.Decoding.Steps.{plain_type}

module _ (a : Api) where
  -- A schema gives the number of a field its name and says whether it is repeated. An event is of
  -- the schema if pbc does not know its field, or if its name and its flag are those of its number
  -- and it has a value that is no message.
  pub record Known (p : a.Pbc) (names : ℕ → List ℕ) (repeated : ℕ → Bool) (e : Event a.Number)
      : Type 0 where
    pub key : e.key ≡ some (names e.id)
    pub flag : is_repeated e.type ≡ repeated e.id
    pub value : Value a
    pub plain : plain_value a (plain_type a e) e p ≡ some value

  abbrev pub Conforms : a.Pbc → (ℕ → List ℕ) → (ℕ → Bool) → Event a.Number → Type 0
  Conforms p names repeated e = (e.key ≡ none) ⊎ Known p names repeated e

  abbrev pub AllConform : a.Pbc → (ℕ → List ℕ) → (ℕ → Bool) → List (Event a.Number) → Type 0
  AllConform p names repeated [] = Unit
  AllConform p names repeated (e ∷ es) =
      Conforms p names repeated e × AllConform p names repeated es

  -- The values that the events have for the field of a number, in order.
  abbrev pub own : a.Pbc → ℕ → Event a.Number → Option (List ℕ) → Option (Value a) → List (Value a)
  own p i e none v = []
  own p i e (some key) none = []
  own p i e (some key) (some v) = if e.id == i then v ∷ [] else []

  abbrev pub values : a.Pbc → ℕ → List (Event a.Number) → List (Value a)
  values p i [] = []
  values p i (e ∷ es) = own p i e e.key (plain_value a (plain_type a e) e p) ++ values p i es

  abbrev pub latest : Value a → List (Value a) → Value a
  latest v [] = v
  latest v (w ∷ ws) = latest w ws

  pub latest-append :
      (v : Value a) (ws : List (Value a)) (w : Value a) → latest v (ws ++ w ∷ []) ≡ w
  latest-append v [] w = refl
  latest-append v (x ∷ ws) w = latest-append x ws w

  -- What stands in the target under the name of a field: of a repeated field the table of its values,
  -- of another one the last value, and what stood there before if there are no values.
  abbrev pub Shows : List (Entries a) → Value a → Value a → Bool → List (Value a) → Type 0
  Shows ts before v false vs = v ≡ latest before vs
  Shows ts before v true [] = v ≡ before
  Shows ts before v true (w ∷ ws) =
      (t : ℕ) × (v ≡ table t) × (nth_table a ts t ≡ items a 1 (w ∷ ws))

  -- The second table has nothing for a repeated field without values, and its array otherwise.
  abbrev pub Knows : Value a → Value a → Bool → List (Value a) → Type 0
  Knows v u false vs = Unit
  Knows v u true [] = u ≡ nil
  Knows v u true (w ∷ ws) = u ≡ v

  module _ (names : ℕ → List ℕ) (repeated : ℕ → Bool) (target ids : ℕ) (before : Entries a) where
    abbrev pub shown : List (Entries a) → ℕ → Value a
    shown ts i = get a (field (names i)) (nth_table a ts target)

    abbrev pub array_of_id : List (Entries a) → ℕ → Value a
    array_of_id ts i = get a (index i) (nth_table a ts ids)

    abbrev pub OfField : List (Entries a) → ℕ → List (Value a) → Type 0
    OfField ts i vs =
        ArePresent a vs
        × Shows ts (get a (field (names i)) before) (shown ts i) (repeated i) vs
        × Knows (shown ts i) (array_of_id ts i) (repeated i) vs

    -- The tables while the fields are decoded, with the values so far.
    pub record Decoded (ts : List (Entries a)) (history : ℕ → List (Value a)) : Type 0 where
      pub target-lt : target < length ts
      pub ids-lt : ids < length ts
      pub inside :
          (i t : ℕ) → array_of_id ts i ≡ table t → (t < length ts) × (t ≢ target) × (t ≢ ids)
      pub apart : (i j t : ℕ) → array_of_id ts i ≡ table t → array_of_id ts j ≡ table t → i ≡ j
      pub separate : target ≢ ids
      pub fields : (i : ℕ) → OfField ts i (history i)
