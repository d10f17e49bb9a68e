-- ===== src/Gcobj/Laws.antt =====
-- The garbage-collected object deletes what was added to it.
use socktestprogram.Prelude.{
  ℕ, ◌+◌, ◌<◌, ◌≡◌, refl, ap, ap₂, sym, ◌∙◌, Option, none, some, List, [], ◌∷◌, ◌++◌, map, length,
  arith, int_limit, append-nil, append_assoc,
}
use socktestprogram.Gcobj.{
  Alloc, Table, Gcobj, Deletion, pbc_pattern_delete, pbc_rmessage_delete, free_tables, pbc_delete,
  Addition, pattern_of, rmessage_of, new_table, gc, add, add_pattern, add_rmessage, add_all,
  clear_gcobj,
}
use socktestprogram.Gcobj.Growth.{IsValid, held, Added, add_lem}

-- The patterns and the messages among the additions, in order.
abbrev pub patterns : List Addition → List ℕ
patterns [] = []
patterns (pattern_of p ∷ xs) = p ∷ patterns xs
patterns (rmessage_of p ∷ xs) = patterns xs

abbrev pub rmessages : List Addition → List ℕ
rmessages [] = []
rmessages (pattern_of p ∷ xs) = rmessages xs
rmessages (rmessage_of p ∷ xs) = p ∷ rmessages xs

-- An object with valid tables after some additions to `g`.
record Filled (g : Gcobj) (xs : List Addition) (o : Option Gcobj) : Type 0 where
  object : Gcobj
  given : o ≡ some object
  env : object.env ≡ g.env
  pats : held object.pat ≡ held g.pat ++ patterns xs
  msgs : held object.msg ≡ held g.msg ++ rmessages xs

abbrev with_pat : Gcobj → Option Table → Option Gcobj
with_pat g none = none
with_pat g (some t) = some (record g { pat = t })

abbrev with_msg : Gcobj → Option Table → Option Gcobj
with_msg g none = none
with_msg g (some t) = some (record g { msg = t })

abbrev then_all : Alloc → List Addition → Option Gcobj → Option Gcobj
then_all a xs none = none
then_all a xs (some k) = add_all a xs k

add_all_lem :
    (a : Alloc) (xs : List Addition) (g : Gcobj)
    → IsValid g.pat
    → IsValid g.msg
    → (g.pat.size + g.msg.size + length xs) + (g.pat.size + g.msg.size + length xs) < int_limit
    → Filled g xs (add_all a xs g)
unfolding add_all add_pattern add_rmessage
add_all_lem a [] g v w h = record {
  object = g;
  given = refl;
  env = refl;
  pats = sym (append-nil (held g.pat));
  msgs = sym (append-nil (held g.msg));
}
add_all_lem a (pattern_of p ∷ xs) g v w h =
    let t : Added p g.pat (add a p g.pat) = add_lem a p g.pat v (omega arith) in
    let rest : Filled (record g { pat = t.table }) xs (add_all a xs (record g { pat = t.table })) =
      add_all_lem a xs (record g { pat = t.table }) t.valid w (omega (arith, t.size)) in
    record {
      object = rest.object;
      given = ap (λ o. then_all a xs (with_pat g o)) t.given ∙ rest.given;
      env = rest.env;
      pats =
          rest.pats
          ∙ (ap (λ l. l ++ patterns xs) t.more ∙ append_assoc (held g.pat) (p ∷ []) (patterns xs));
      msgs = rest.msgs;
    }
add_all_lem a (rmessage_of p ∷ xs) g v w h =
    let t : Added p g.msg (add a p g.msg) = add_lem a p g.msg w (omega arith) in
    let rest : Filled (record g { msg = t.table }) xs (add_all a xs (record g { msg = t.table })) =
      add_all_lem a xs (record g { msg = t.table }) v t.valid (omega (arith, t.size)) in
    record {
      object = rest.object;
      given = ap (λ o. then_all a xs (with_msg g o)) t.given ∙ rest.given;
      env = rest.env;
      pats = rest.pats;
      msgs =
          rest.msgs
          ∙ (ap (λ l. l ++ rmessages xs) t.more
              ∙ append_assoc (held g.msg) (p ∷ []) (rmessages xs));
    }

new_table-IsValid : (a : Alloc) → IsValid (new_table a)
unfolding new_table
new_table-IsValid a = record {
  fits = omega arith;
  whole = a.length-block 4;
  not_empty = omega arith;
}

abbrev deletions : List ℕ → List ℕ → ℕ → List Deletion
deletions ps ms env =
    map pbc_pattern_delete ps ++ (map pbc_rmessage_delete ms ++ (free_tables ∷ pbc_delete env ∷ []))

-- Fewer than 2 ^ 30 patterns and messages, added in any order, are all held, and the collection
-- deletes each of them once: the patterns in the order of their additions, then the messages, then
-- the tables and the environment.
pub clear-add_all :
    (a : Alloc) (env : ℕ) (xs : List Addition)
    → length xs + length xs < int_limit
    → (g : Gcobj) × (add_all a xs (gc a env) ≡ some g)
      × (clear_gcobj g
          ≡ map pbc_pattern_delete (patterns xs)
            ++ (map pbc_rmessage_delete (rmessages xs) ++ (free_tables ∷ pbc_delete env ∷ [])))
unfolding clear_gcobj gc new_table
clear-add_all a env xs h =
    let k : Filled (gc a env) xs (add_all a xs (gc a env)) =
      add_all_lem a xs (gc a env) (new_table-IsValid a) (new_table-IsValid a) (omega arith) in
    (
      k.object,
      k.given,
      ap₂ (λ x y. deletions x y k.object.env) k.pats k.msgs
          ∙ ap (deletions (patterns xs) (rmessages xs)) k.env,
    )
