-- ===== src/Script/Steps.antt =====
-- The steps of a call into Lua, one by one.
use socktestprogram.Prelude.{
  ℕ, suc, ◌≤◌, ◌<◌, ◌≡◌, ap, ◌∙◌, true, false, Option, some, List, ◌∷◌, String, length, take, arith,
  le→leb, ◌==◌,
}
use socktestprogram.Lua.{Lua, Machine, done, aborted, fault, ◌>>◌, Script, pop}
use socktestprogram.Script.{push_filled, push_buffer, get_function, assert_top}
use socktestprogram.Script.Chunks.{fill_lem}

==-refl : (n : ℕ) → (n == n) ≡ true
==-refl n = ground arith

==-lt : (a b : ℕ) → a < b → (a == b) ≡ false
==-lt a b h = ground arith

module _ (l : Lua) where
  -- The script has made a global a function.
  abbrev pub IsDefined : String → Machine l → Type 0
  IsDefined name s = l.is_function (l.global name s.vm) ≡ true

  -- The call of a global function of the script under the script's message handler.
  abbrev pub called : String → List l.Value → Machine l → l.Vm × Option l.Value
  called name args s =
      l.call (some (l.global "__G__TRACKBACK__" s.vm)) (l.global name s.vm) args s.vm

  -- The machine with the stack as it was.
  abbrev pub in_state : Machine l → l.Vm → Machine l
  in_state s vm = record s { vm = vm }

  pub push_buffer_lem :
      (n : ℕ) (memory : List ℕ) (s : Machine l)
      → n ≤ length memory
      → push_buffer l n memory s ≡ done tt (record s { stack = l.string (take n memory) ∷ s.stack })
  unfolding push_buffer push_filled
  push_buffer_lem n memory s h =
      let (cs, e, c, w) =
        fill_lem (suc n) l.buffer_size n memory l.buffer_size-positive (omega arith) h in
      rw (e, c)

  pub then-done :
      {B : Type 0} (m : Script l (Unit {0})) (k : Script l B) {s t : Machine l}
      → m s ≡ done tt t
      → ◌>>◌ m k s ≡ k t
  then-done m k e = ap (λ r. elim r [ done a t ↦ k t | aborted ↦ aborted | fault ↦ fault ]) e

  pub get_function_lem :
      (name : String) (s : Machine l)
      → IsDefined name s
      → get_function l name s ≡ done tt (record s { stack = l.global name s.vm ∷ s.stack })
  unfolding get_function
  get_function_lem name s p = rw (p)

  pub assert_top_lem : (s : Machine l) → assert_top l (length s.stack) s ≡ done tt s
  unfolding assert_top
  assert_top_lem s = rw (==-refl (length s.stack))

  pub pop_lem :
      (v : l.Value) (vs : List l.Value) (vm : l.Vm) (out : List String)
      → pop l 1 (record { stack = v ∷ vs; vm = vm; printed = out })
        ≡ done tt (record { stack = vs; vm = vm; printed = out })
  unfolding pop
  pop_lem v vs vm out = rw (le→leb 1 (suc (length vs)) (omega arith))

  pub pop2_lem :
      (v w : l.Value) (vs : List l.Value) (vm : l.Vm) (out : List String)
      → pop l 2 (record { stack = v ∷ w ∷ vs; vm = vm; printed = out })
        ≡ done tt (record { stack = vs; vm = vm; printed = out })
  unfolding pop
  pop2_lem v w vs vm out = rw (le→leb 2 (suc (suc (length vs))) (omega arith))

  pub pop_end :
      (g : l.Value) (vs : List l.Value) (vm : l.Vm) (out : List String)
      → ◌>>◌
          (pop l 1)
          (assert_top l (length vs))
          (record { stack = g ∷ vs; vm = vm; printed = out })
        ≡ done tt (record { stack = vs; vm = vm; printed = out })
  pop_end g vs vm out =
      then-done (pop l 1) _ (pop_lem g vs vm out)
      ∙ assert_top_lem (record { stack = vs; vm = vm; printed = out })

  pub assert_top-off : (n : ℕ) (s : Machine l) → n < length s.stack → assert_top l n s ≡ aborted
  unfolding assert_top
  assert_top-off n s h = rw (==-lt n (length s.stack) h)
