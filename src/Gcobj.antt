-- ===== src/Gcobj.antt =====
-- The garbage-collected object of pbc-lua.c: the environment of pbc with the patterns and the
-- messages that the script has made in it, which are deleted together. The objects of pbc are known
-- by numbers.
pub mod Growth
pub mod Laws
use socktestprogram.Prelude.{
  ℕ, suc, ◌+◌, ◌*◌, ◌≡◌, Bool, Option, none, some, List, [], ◌∷◌, ◌++◌, map, ltb, leb,
  if◌then◌else◌, length, take, set, mul32, is_negative,
}

-- `malloc` and `realloc` of the C library, on blocks of pointers: what a fresh block holds, and what
-- follows the old block in a larger one, is not determined.
pub record Alloc : Type 0 where
  pub block : ℕ → List ℕ
  pub length-block : (n : ℕ) → length (block n) ≡ n

-- `size_pat`, `cap_pat` and `pat`, or those of the messages.
pub record Table : Type 0 where
  pub size : ℕ
  pub cap : ℕ
  pub block : List ℕ

pub record Gcobj : Type 0 where
  pub env : ℕ
  pub pat : Table
  pub msg : Table

-- What the object asks of pbc and of the C library.
pub data Deletion : Type 0 where
  pbc_pattern_delete : ℕ → Deletion
  pbc_rmessage_delete : ℕ → Deletion
  free_tables : Deletion
  pbc_delete : ℕ → Deletion

-- What the script adds to the object.
pub data Addition : Type 0 where
  pattern_of : ℕ → Addition
  rmessage_of : ℕ → Addition

pub new_table : Alloc → Table
new_table a = record { size = 0; cap = 4; block = a.block 4 }

-- `_gc`
pub gc : Alloc → ℕ → Gcobj
unfolding new_table
gc a env = record { env = env; pat = new_table a; msg = new_table a }

-- The doubling of a full table. The capacity is an `int`; `none` is one that overflows.
unfoldable pub make_place : Alloc → Table → Option Table
make_place a t =
    if leb t.cap t.size
    then (if is_negative (mul32 t.cap 2)
        then none
        else some (record t { cap = mul32 t.cap 2; block = t.block ++ a.block t.cap }))
    else some t

-- `obj->pat[obj->size_pat++] = pat`: `none` is a store outside the block.
unfoldable pub store : ℕ → Table → Option Table
store p t =
    if ltb t.size (length t.block)
    then some (record t { size = suc t.size; block = set t.block t.size p })
    else none

unfoldable pub add : Alloc → ℕ → Table → Option Table
add a p t = elim (make_place a t) [ none ↦ none | some u ↦ store p u ]

-- `_add_pattern`
unfoldable pub add_pattern : Alloc → ℕ → Gcobj → Option Gcobj
add_pattern a p g = elim (add a p g.pat) [ none ↦ none | some t ↦ some (record g { pat = t }) ]

-- `_add_rmessage`
unfoldable pub add_rmessage : Alloc → ℕ → Gcobj → Option Gcobj
add_rmessage a p g = elim (add a p g.msg) [ none ↦ none | some t ↦ some (record g { msg = t }) ]

-- The calls of the script, one after the other.
unfoldable pub add_all : Alloc → List Addition → Gcobj → Option Gcobj
add_all a [] g = some g
add_all a (pattern_of p ∷ xs) g = elim (add_pattern a p g) [ none ↦ none | some h ↦ add_all a xs h ]
add_all a (rmessage_of p ∷ xs) g = elim (add_rmessage a p g) [
  | none ↦ none
  | some h ↦ add_all a xs h
]

-- `_clear_gcobj`: the loops go up to the sizes.
unfoldable pub clear_gcobj : Gcobj → List Deletion
clear_gcobj g =
    map pbc_pattern_delete (take g.pat.size g.pat.block)
    ++ (map pbc_rmessage_delete (take g.msg.size g.msg.block)
        ++ (free_tables ∷ pbc_delete g.env ∷ []))
