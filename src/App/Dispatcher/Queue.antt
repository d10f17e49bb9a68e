-- ===== src/App/Dispatcher/Queue.antt =====
-- What `check` does with the queue.
use socktestprogram.Prelude.{
  ℕ, zero, suc, ◌≡◌, refl, sym, ap, subst, ◌∙◌, Option, none, some, List, [], ◌∷◌, ◌++◌, length,
  append-nil, append_assoc,
}
use socktestprogram.App.Dispatcher.{
  Name, Cached, Dispatcher, Ran, done, raised, dispatch, run_chain, check, without_first,
  check_first, go_on, keep,
}

module _ (H A W : Type 0) (call : H → Name → A → Dispatcher H A W → Ran H A W) where
  abbrev D : Type 0
  D = Dispatcher H A W

  module _ (act : H → Name → A → W → W) (P : W → Type 0) where
    -- From a state with `P`, the handlers act on what they share and leave it with `P`, and neither
    -- raise an error nor use the dispatcher.
    abbrev pub Acts : List H → Name → A → Type 0
    Acts [] e more = Unit
    Acts (h ∷ hs) e more =
        ((d : D)
          → P d.world
          → (call h e more d ≡ done (record d { world = act h e more d.world }))
            × P (act h e more d.world))
        × Acts hs e more

    abbrev pub AllAct : List (Cached H A W) → Type 0
    AllAct [] = Unit
    AllAct (c ∷ cs) = Acts c.chain c.event c.more × AllAct cs

    abbrev pub acted : List H → Name → A → W → W
    acted [] e more w = w
    acted (h ∷ hs) e more w = acted hs e more (act h e more w)

    abbrev pub all_acted : List (Cached H A W) → W → W
    all_acted [] w = w
    all_acted (c ∷ cs) w = all_acted cs (acted c.chain c.event c.more w)

    run_chain_lem :
        (hs : List H) (e : Name) (more : A) (d : D)
        → Acts hs e more
        → P d.world
        → (run_chain H A W call hs e more d ≡ done (record d { world = acted hs e more d.world }))
          × P (acted hs e more d.world)
    unfolding run_chain
    run_chain_lem [] e more d acts p = (refl, p)
    run_chain_lem (h ∷ hs) e more d acts p =
        let (q, k) = acts.0 d p in
        let (r, l) = run_chain_lem hs e more (record d { world = act h e more d.world }) acts.1 k in
        (ap (λ r. go_on H A W r (run_chain H A W call hs e more) raised) q ∙ r, l)

    -- If the handlers act on what they share and do no more, `check` runs the handlers of all events
    -- in the order in which the events came, and leaves no event; a round for each event and one
    -- more are enough.
    pub check_lem :
        (cs : List (Cached H A W)) (f : Name → Option (List H)) (w : W)
        → AllAct cs
        → P w
        → (check H A W call (suc (length cs)) (record { handlers = f; cache = cs; world = w })
            ≡ some (done (record { handlers = f; cache = []; world = all_acted cs w })))
          × P (all_acted cs w)
    unfolding check
    check_lem [] f w acts p = (refl, p)
    check_lem (c ∷ cs) f w acts p =
        let (q, k) =
          run_chain_lem c.chain c.event c.more (record { handlers = f; cache = c ∷ cs; world = w })
            acts.0 p in
        let (r, l) = check_lem cs f (acted c.chain c.event c.more w) acts.1 k in
        (
          ap
                (λ r.
                  go_on H A W r
                    (λ e. check H A W call (suc (length cs)) (without_first H A W call e))
                    (λ e. some (raised e)))
                q
              ∙ r,
          l,
        )

  -- Checks and dispatches from outside, in any order. A check may end with an error.
  pub data Later : D → D → Type 0 where
    now : {d : D} → Later d d
    dispatched :
        {d e : D} (event : Name) (more : A) → Later d e → Later d (dispatch H A W event more e)
    checked :
        {d e f : D} (fuel : ℕ) → Later d e → check H A W call fuel e ≡ some (done f) → Later d f
    stopped :
        {d e f : D} (fuel : ℕ) → Later d e → check H A W call fuel e ≡ some (raised f) → Later d f

  -- The handlers of an entry end with an error, whatever the state is; they may dispatch events
  -- before it.
  abbrev pub Fails : Cached H A W → Type 0
  Fails c =
      (d : D)
      → (e : D) × (cs : List (Cached H A W)) × (run_chain H A W call c.chain c.event c.more d
          ≡ raised e)
        × (e.cache ≡ d.cache ++ cs)

  abbrev Behind : List (Cached H A W) → D → Type 0
  Behind cs d = (new : List (Cached H A W)) × (d.cache ≡ cs ++ new)

  keep-Behind :
      (cs : List (Cached H A W)) (event : Name) (more : A) (hs : Option (List H)) (d : D)
      → Behind cs d
      → Behind cs (keep H A W event more hs d)
  keep-Behind cs event more none d b = b
  keep-Behind cs event more (some chain) d (new, e) =
      let c : Cached H A W = record { event = event; chain = chain; more = more } in
      (new ++ c ∷ [], ap (λ xs. xs ++ c ∷ []) e ∙ append_assoc cs new (c ∷ []))

  check-raised :
      (fuel : ℕ) (c : Cached H A W) (cs : List (Cached H A W)) (d : D)
      → Fails c
      → Behind (c ∷ cs) d
      → (e : D) × Behind (c ∷ cs) e × (check H A W call (suc fuel) d ≡ some (raised e))
  unfolding check
  check-raised fuel c cs d fails (old, q) =
      let (f, new, r, p) = fails d in
      (
        f,
        (old ++ new, p ∙ ap (λ xs. xs ++ new) q ∙ append_assoc (c ∷ cs) old new),
        ap (λ xs. check_first H A W call xs d (check H A W call fuel)) q
            ∙ ap
                (λ x.
                  go_on H A W x (λ e. check H A W call fuel (without_first H A W call e))
                    (λ e. some (raised e)))
                r,
      )

  abbrev EndedRaised : Option (Ran H A W) → Type 0
  EndedRaised (some (done d)) = ⊥
  EndedRaised _ = Unit

  none-some : {r : Ran H A W} → none ≡ some r → ⊥
  none-some e = cc

  raised-injective :
      {x y : D} → ◌≡◌ {A = Option (Ran H A W)} (some (raised x)) (some (raised y)) → x ≡ y
  raised-injective e = cc

  later-Behind :
      (c : Cached H A W) (cs : List (Cached H A W)) (d e : D)
      → Fails c
      → Behind (c ∷ cs) d
      → Later d e
      → Behind (c ∷ cs) e
  unfolding dispatch check
  later-Behind c cs d e fails b now = b
  later-Behind c cs d e fails b (dispatched event more l) =
      keep-Behind (c ∷ cs) event more _ _ (later-Behind c cs d _ fails b l)
  later-Behind c cs d e fails b (checked zero l h) = absurd (none-some h)
  later-Behind c cs d e fails b (checked (suc fuel) l h) =
      let (f, x, r) = check-raised fuel c cs _ fails (later-Behind c cs d _ fails b l) in
      absurd (subst EndedRaised (sym r ∙ h) tt)
  later-Behind c cs d e fails b (stopped zero l h) = absurd (none-some h)
  later-Behind c cs d e fails b (stopped (suc fuel) l h) =
      let (f, x, r) = check-raised fuel c cs _ fails (later-Behind c cs d _ fails b l) in
      subst (Behind (c ∷ cs)) (raised-injective (sym r ∙ h)) x

  -- Once an event whose handlers end with an error is the first one, every later `check` ends with
  -- an error, and that event and all behind it stay in the queue, whatever is dispatched.
  pub check-sticks :
      (c : Cached H A W) (cs : List (Cached H A W)) (d e : D)
      → Fails c
      → d.cache ≡ c ∷ cs
      → Later d e
      → ((new : List (Cached H A W)) × (e.cache ≡ (c ∷ cs) ++ new))
        × ((fuel : ℕ) → (f : D) × (check H A W call (suc fuel) e ≡ some (raised f)))
  check-sticks c cs d e fails q l =
      let b = later-Behind c cs d e fails ([], q ∙ sym (append-nil (c ∷ cs))) l in
      (b, λ fuel. let (f, x, r) = check-raised fuel c cs e fails b in (f, r))
