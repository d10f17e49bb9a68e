-- ===== src/Tests/Buffers.antt =====
-- The theorems on io/StreamBuffer.cc at concrete buffers.
use socktestprogram.Prelude.{
  ℕ, ◌<◌, ◌≤◌, ◌≡◌, ◌⊎◌, refl, true, some, List, [], ◌∷◌, arith, replicate, length-replicate,
}
use socktestprogram.Host.{x86}
use socktestprogram.StreamBuffer.{
  Malloc, Store, ok, fault, append, destroy, read_int32, read_int16, read_string, pay_length, left,
  total_left, payload,
}
use socktestprogram.StreamBuffer.Append.{Holds, ReadsBehind, append_lem, append-leaks}
use socktestprogram.StreamBuffer.Queue.{
  Call, put, get_int32, get_int16, get_string, silent, refused, number, text, Agrees, buffer_step,
  buffer_run, queue_run, all_kept,
}
use socktestprogram.StreamBuffer.Queue.Refinement.{run-refines}
use socktestprogram.StreamBuffer.{
  overwrite, slice, le_sum, commit, create, compact, grow, make_room, copy_in, append_fuel,
}

-- An allocator whose blocks hold 170 in every byte.
abbrev stale : Malloc
stale = record { block = λ n. replicate n 170; length-block = λ n. length-replicate n 170 }

abbrev owning : List ℕ → ℕ → ℕ → Store
owning bytes read write = record {
  buffer = record { bytes = bytes; read = read; write = write; owned = true };
  live = 1;
}

-- One byte has been read, three are held, and the block is full.
abbrev full : Store
full = owning (9 ∷ 1 ∷ 2 ∷ 3 ∷ []) 1 4

-- Three of the four bytes have been read.
abbrev mostly_read : Store
mostly_read = owning (9 ∷ 8 ∷ 7 ∷ 6 ∷ []) 3 4

-- `memmove` moves one of the three bytes: the buffer holds 1, 1, 2 and the new byte 5.
append_lem_example :
    (ReadsBehind full 1 × (append stale full (5 ∷ []) ≡ fault))
    ⊎ ((ReadsBehind full 1 → ⊥) × Holds (append stale full (5 ∷ [])) (1 ∷ 1 ∷ 2 ∷ 5 ∷ []) 1)
unfolding pay_length left total_left payload
append_lem_example = append_lem stale full 5 [] (omega arith) refl (omega arith)

fault_test : append stale mostly_read (5 ∷ 6 ∷ []) ≡ fault
unfolding append append_fuel make_room left total_left pay_length
fault_test = refl

append-leaks_example :
    (t : Store) × (append stale full (5 ∷ 6 ∷ []) ≡ ok t) × (1 < t.live) × (1 ≤ destroy t)
unfolding pay_length total_left
append-leaks_example =
    append-leaks stale full 5 (6 ∷ []) (omega arith) refl (omega arith) (omega arith)

-- Five bytes make a new block grow twice, and the last two are put behind a `memmove`.
abbrev calls : List Call
calls =
    put (0 ∷ 0 ∷ 1 ∷ 2 ∷ 5 ∷ [])
    ∷ get_int32
    ∷ put (6 ∷ 7 ∷ 8 ∷ [])
    ∷ put (9 ∷ 10 ∷ [])
    ∷ get_string 3
    ∷ get_int16
    ∷ get_int32
    ∷ []

new-Agrees : Agrees (create stale 0) []
unfolding create payload
new-Agrees = record { valid = omega arith; owned = refl; holds = refl; bytes = tt }

run-refines_example :
    (t : Store) × (buffer_run stale x86 calls (create stale 0)
      ≡ some (
        silent ∷ number 258 ∷ silent ∷ silent ∷ text (5 ∷ 6 ∷ 7 ∷ []) ∷ number 2057 ∷ refused ∷ [],
        t,
      ))
    × Agrees t (10 ∷ [])
unfolding queue_run all_kept create append copy_in compact grow make_room append_fuel left
    total_left pay_length read_int32 read_int16 read_string buffer_step overwrite slice le_sum
    commit
run-refines_example = run-refines stale x86 calls (create stale 0) [] new-Agrees (omega arith) refl
