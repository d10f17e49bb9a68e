-- ===== src/Script/Ends.antt =====
-- What the calls into Lua do behind `lua_pcall`, on each of its results.
use socktestprogram.Prelude.{
  ◌≡◌, ◌∙◌, Bool, true, false, Option, none, some, List, [], ◌∷◌, ◌++◌, String, length, arith,
  if◌then◌else◌, not,
}
use socktestprogram.Lua.{Lua, Ran, done, aborted, leave, ◌>>=◌, ◌>>◌, pop, skip, p_call}
use socktestprogram.Script.{assert_top, frame_failed, load_failed, init_failed}
use socktestprogram.Script.Steps.{
  then-done, assert_top_lem, pop_lem, pop2_lem, pop_end, assert_top-off,
}

module _ (l : Lua) where
  -- What follows the call of `L_onDecodeBuffer`, on its result `r`.
  pub decode_end :
      (g : l.Value) (vs : List l.Value) (out : List String) (vm : l.Vm) (r : Option l.Value)
      → ◌>>=◌
          (λ s. leave l (g ∷ vs) out vm r)
          (λ res. (if res then pop l 1 else skip l) >> (pop l 1 >> assert_top l (length vs)))
          (record { stack = vs; vm = vm; printed = out })
        ≡ done tt (record { stack = vs; vm = vm; printed = out })
  decode_end g vs out vm none = pop_end l g vs vm out
  decode_end g vs out vm (some e) =
      then-done l (pop l 1) _ (pop_lem l e (g ∷ vs) vm out) ∙ pop_end l g vs vm out

  -- What follows the call of `L_onServerConnectionEstablished`: nothing is popped for the handler
  -- after an error.
  unfoldable pub server_end :
      l.Value → List l.Value → List String → l.Vm → Option l.Value → Ran l (Unit {0})
  server_end g vs out vm none = done tt (record { stack = vs; vm = vm; printed = out })
  server_end g vs out vm (some e) = aborted

  pub server_end_lem :
      (g : l.Value) (vs : List l.Value) (out : List String) (vm : l.Vm) (r : Option l.Value)
      → ◌>>=◌
          (λ s. leave l (g ∷ vs) out vm r)
          (λ res. pop l 1 >> assert_top l (length vs))
          (record { stack = vs; vm = vm; printed = out })
        ≡ server_end g vs out vm r
  unfolding server_end
  server_end_lem g vs out vm none = pop_end l g vs vm out
  server_end_lem g vs out vm (some e) =
      then-done l (pop l 1) _ (pop_lem l e (g ∷ vs) vm out)
      ∙ assert_top-off l (length vs) (record { stack = g ∷ vs; vm = vm; printed = out })
          (omega arith)

  -- What follows the call of `frameUpdate`.
  unfoldable pub frame_end :
      l.Value → List l.Value → List String → l.Vm → Option l.Value → List String
  frame_end g vs out vm none = out
  frame_end g vs out vm (some e) = out ++ "Error running" ∷ []

  pub frame_end_lem :
      (g : l.Value) (vs : List l.Value) (out : List String) (vm : l.Vm) (r : Option l.Value)
      → ◌>>=◌
          (λ s. leave l (g ∷ vs) out vm r)
          (λ res. if res then frame_failed l (length vs) else pop l 1 >> assert_top l (length vs))
          (record { stack = vs; vm = vm; printed = out })
        ≡ done tt (record { stack = vs; vm = vm; printed = frame_end g vs out vm r })
  unfolding frame_end frame_failed
  frame_end_lem g vs out vm none = pop_end l g vs vm out
  frame_end_lem g vs out vm (some e) =
      then-done l (pop l 2) _ (pop2_lem l e g vs vm out)
      ∙ then-done l (assert_top l (length vs)) _
          (assert_top_lem l (record { stack = vs; vm = vm; printed = out }))

  -- What follows the call of `loadInit`.
  unfoldable pub init_report : List String → Option l.Value → List String
  init_report out none = out
  init_report out (some e) = out ++ "Error loading init script" ∷ []

  pub init_report_lem :
      (g : l.Value) (vs : List l.Value) (out : List String) (vm : l.Vm) (r : Option l.Value)
      → ◌>>=◌
          (λ s. leave l (g ∷ vs) out vm r)
          (λ res. (if res then init_failed l else skip l) >> (pop l 1 >> assert_top l (length vs)))
          (record { stack = vs; vm = vm; printed = out })
        ≡ done tt (record { stack = vs; vm = vm; printed = init_report out r })
  unfolding init_report init_failed
  init_report_lem g vs out vm none = pop_end l g vs vm out
  init_report_lem g vs out vm (some e) =
      then-done l (pop l 1) _ (pop_lem l e (g ∷ vs) vm (init_report out (some e)))
      ∙ pop_end l g vs vm (init_report out (some e))

  -- `loadInit` behind the test of what `luaL_loadfile` has left.
  pub load_rest :
      (c g : l.Value) (vs : List l.Value) (vm : l.Vm) (out : List String) (b : Bool)
      → (if not b
            then load_failed l (length vs)
            else (p_call l 0 2 >>= λ res.
                (if res then init_failed l else skip l) >> (pop l 1 >> assert_top l (length vs))))
          (record { stack = c ∷ g ∷ vs; vm = vm; printed = out })
        ≡ (if b
            then done tt (record {
              stack = vs;
              vm = (l.call (some g) c [] vm).0;
              printed = init_report out (l.call (some g) c [] vm).1;
            })
            else done tt (record { stack = vs; vm = vm; printed = out ++ "Loading failed" ∷ [] }))
  unfolding load_failed
  load_rest c g vs vm out true = init_report_lem g vs out _ _
  load_rest c g vs vm out false =
      then-done l (pop l 2) _ (pop2_lem l c g vs vm out)
      ∙ assert_top_lem l (record { stack = vs; vm = vm; printed = out ++ "Loading failed" ∷ [] })
