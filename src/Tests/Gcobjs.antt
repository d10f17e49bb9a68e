-- ===== src/Tests/Gcobjs.antt =====
-- The theorems on the garbage-collected object at concrete additions.
use socktestprogram.Prelude.{◌≡◌, some, List, [], ◌∷◌, arith, replicate, length-replicate}
use socktestprogram.Gcobj.{
  Alloc, Gcobj, pbc_pattern_delete, pbc_rmessage_delete, free_tables, pbc_delete, Addition,
  pattern_of, rmessage_of, gc, add_all, clear_gcobj,
}
use socktestprogram.Gcobj.Laws.{clear-add_all}

abbrev stale : Alloc
stale = record { block = λ n. replicate n 0; length-block = λ n. length-replicate n 0 }

-- Five patterns, so that the table grows, and a message among them.
abbrev additions : List Addition
additions =
    pattern_of 11
    ∷ pattern_of 12
    ∷ rmessage_of 21
    ∷ pattern_of 13
    ∷ pattern_of 14
    ∷ pattern_of 15
    ∷ []

clear-add_all_example :
    (g : Gcobj) × (add_all stale additions (gc stale 7) ≡ some g)
    × (clear_gcobj g
        ≡ pbc_pattern_delete 11
          ∷ pbc_pattern_delete 12
          ∷ pbc_pattern_delete 13
          ∷ pbc_pattern_delete 14
          ∷ pbc_pattern_delete 15
          ∷ pbc_rmessage_delete 21
          ∷ free_tables
          ∷ pbc_delete 7
          ∷ [])
clear-add_all_example = clear-add_all stale 7 additions (omega arith)
