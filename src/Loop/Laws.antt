-- ===== src/Loop/Laws.antt =====
-- When the master loop ends, and the run with it.
use socktestprogram.Prelude.{
  ℕ, ℤ, sub_ℕ, ◌≡◌, refl, true, false, List, [], ◌∷◌, ◌++◌, arith, Bool-cases, inl, inr, sym, ◌∙◌,
  ap,
}
use socktestprogram.Session.{Exception}
use socktestprogram.Manager.{World, Outcome, ok, threw, fault, has_current_session, current_failed}
use socktestprogram.Loop.{
  Round, Loop, running, stopped, escaped, crashed, quits, played, polled, turn, master_loop,
}

-- The current session is there and has failed.
abbrev pub IsDown : World → Type 0
IsDown w = (has_current_session w ≡ true) × (current_failed w ≡ true)

-- The current session has failed, and `poll` ran no handler.
abbrev pub IsOver : World → ℕ → Type 0
IsOver w rv = IsDown w × (rv ≡ 0)

quits-IsOver : (w : World) (rv : ℕ) → quits w rv ≡ true → IsOver w rv
unfolding quits
quits-IsOver w rv h = ground arith

IsOver-quits : (w : World) (rv : ℕ) → IsOver w rv → quits w rv ≡ true
unfolding quits
IsOver-quits w rv h = ground arith

true-false : true ≡ false → ⊥
true-false e = cc

module _ (update : ℤ → World → Outcome) where
  -- The rounds return, and after none of them the loop is over: from one time and world to another.
  pub data Plays : ℕ → World → List Round → ℕ → World → Type 0 where
    no_round : {t : ℕ} {w : World} → Plays t w [] t w
    round :
        {t s : ℕ} {w u v : World} {r : Round} {rs : List Round} (rv : ℕ)
        → played update t r w ≡ (ok u, rv)
        → (IsOver u rv → ⊥)
        → Plays r.now u rs s v
        → Plays t w (r ∷ rs) s v

  pub turn-over :
      (o : Outcome × ℕ) (v : World) (rv : ℕ) (rs : List Round) (next : World → Loop)
      → o ≡ (ok v, rv)
      → IsOver v rv
      → turn o rs next ≡ stopped v rs
  unfolding turn
  turn-over o v rv rs next e h = ap (λ p. turn p rs next) e ∙ rw (IsOver-quits v rv h) refl

  turn-on :
      (o : Outcome × ℕ) (v : World) (rv : ℕ) (rs : List Round) (next : World → Loop)
      → o ≡ (ok v, rv)
      → (quits v rv ≡ false)
      → turn o rs next ≡ next v
  unfolding turn
  turn-on o v rv rs next e h = ap (λ p. turn p rs next) e ∙ rw h refl

  not_over : (v : World) (rv : ℕ) → (IsOver v rv → ⊥) → quits v rv ≡ false
  not_over v rv n = elim (Bool-cases (quits v rv)) [
    | inl h ↦ absurd (n (quits-IsOver v rv h))
    | inr h ↦ h
  ]

  -- Rounds that are played leave the loop to the rounds behind them.
  pub master_loop-Plays :
      {t s : ℕ} {w v : World} {rs : List Round}
      → Plays t w rs s v
      → (left : List Round) → master_loop update t (rs ++ left) w ≡ master_loop update s left v
  unfolding master_loop
  master_loop-Plays no_round left = refl
  master_loop-Plays (round rv e n p) left =
      turn-on _ _ rv _ _ e (not_over _ rv n) ∙ master_loop-Plays p left

  -- The rounds from `start` and `w` up to the round `last`, which is the first one to end the loop.
  pub record UpTo (start : ℕ) (rs : List Round) (w : World) : Type 0 where
    pub before : List Round
    pub last : Round
    pub left : List Round
    pub time : ℕ
    pub world : World
    pub split : rs ≡ before ++ last ∷ left
    pub plays : Plays start w before time world

  abbrev pub at_last : {start : ℕ} {rs : List Round} {w : World} → UpTo start rs w → Outcome × ℕ
  at_last u = played update u.time u.last u.world

  -- How the loop goes for the rounds.
  pub data Goes (start : ℕ) (rs : List Round) (w : World) : Type 0 where
    plays_all :
        {t : ℕ} {v : World}
        → Plays start w rs t v
        → master_loop update start rs w ≡ running v
        → Goes start rs w
    leaves :
        (u : UpTo start rs w) {v : World} {rv : ℕ}
        → at_last u ≡ (ok v, rv)
        → IsOver v rv
        → master_loop update start rs w ≡ stopped v u.left
        → Goes start rs w
    escapes :
        (u : UpTo start rs w) {e : Exception} {v : World} {rv : ℕ}
        → at_last u ≡ (threw e v, rv)
        → master_loop update start rs w ≡ escaped e v u.left
        → Goes start rs w
    crashes :
        (u : UpTo start rs w) {rv : ℕ}
        → at_last u ≡ (fault, rv)
        → master_loop update start rs w ≡ crashed u.left
        → Goes start rs w

  abbrev here : (start : ℕ) (r : Round) (rs : List Round) (w : World) → UpTo start (r ∷ rs) w
  here start r rs w = record {
    before = [];
    last = r;
    left = rs;
    time = start;
    world = w;
    split = refl;
    plays = no_round;
  }

  abbrev behind :
      {start : ℕ} {r : Round} {rs : List Round} {w v : World} (rv : ℕ)
      → played update start r w ≡ (ok v, rv)
      → (IsOver v rv → ⊥)
      → UpTo r.now rs v
      → UpTo start (r ∷ rs) w
  behind {r} rv e n u = record {
    before = r ∷ u.before;
    last = u.last;
    left = u.left;
    time = u.time;
    world = u.world;
    split = ap (◌∷◌ r) u.split;
    plays = round rv e n u.plays;
  }

  Goes-behind :
      {start : ℕ} {r : Round} {rs : List Round} {w v : World} (rv : ℕ)
      → played update start r w ≡ (ok v, rv)
      → quits v rv ≡ false
      → Goes r.now rs v
      → Goes start (r ∷ rs) w
  unfolding master_loop
  Goes-behind {start} {r} {rs} {w} {v} rv e q g = elim g [
    | plays_all p k ↦ plays_all (round rv e n p) (on ∙ k)
    | leaves u p h k ↦ leaves (behind rv e n u) p h (on ∙ k)
    | escapes u p k ↦ escapes (behind rv e n u) p (on ∙ k)
    | crashes u p k ↦ crashes (behind rv e n u) p (on ∙ k)
  ]
    where
      n : IsOver v rv → ⊥
      n h = true-false (sym (IsOver-quits v rv h) ∙ q)

      on :
          turn (played update start r w) rs (master_loop update r.now rs)
          ≡ master_loop update r.now rs v
      on = turn-on _ v rv rs _ e q

  -- The master loop plays all its rounds, when each of them returns and after none the current
  -- session has failed with an idle `poll`; or it leaves at the first round after which that is so;
  -- or, if an exception or undefined behaviour of a round comes before that, it ends with that one.
  pub master_loop_lem : (start : ℕ) (rs : List Round) (w : World) → Goes start rs w
  unfolding master_loop
  master_loop_lem start [] w = plays_all no_round refl
  master_loop_lem start (r ∷ rs) w =
      first (played update start r w) refl (λ v. master_loop_lem r.now rs v)
    where
      first :
          (o : Outcome × ℕ)
          → played update start r w ≡ o
          → ((v : World) → Goes r.now rs v)
          → Goes start (r ∷ rs) w
      first (ok v, rv) e g = elim (Bool-cases (quits v rv)) [
        | inl h ↦
            leaves (here start r rs w) e (quits-IsOver v rv h)
              (turn-over _ v rv rs _ e (quits-IsOver v rv h))
        | inr h ↦ Goes-behind rv e h (g v)
      ]
      first (threw x v, rv) e g =
          escapes (here start r rs w) e (ap (λ p. turn p rs (master_loop update r.now rs)) e)
      first (fault, rv) e g =
          crashes (here start r rs w) e (ap (λ p. turn p rs (master_loop update r.now rs)) e)

  -- A round returns, and keeps the current session failed.
  abbrev pub KeepsDown : Round → Type 0
  KeepsDown r =
      (start : ℕ) (w : World)
      → IsDown w
      → (v : World) × (rv : ℕ) × (played update start r w ≡ (ok v, rv)) × IsDown v

  abbrev pub AllKeepDown : List Round → Type 0
  AllKeepDown [] = Unit
  AllKeepDown (r ∷ rs) = KeepsDown r × AllKeepDown rs

  idle-polled :
      (r : Round) (o : Outcome) (v : World) (rv : ℕ)
      → ((w : World) → (r.poll w).1 ≡ 0)
      → polled o r ≡ (ok v, rv)
      → rv ≡ 0
  idle-polled r (ok w) v rv idle e = ap (λ p. p.1) (sym e) ∙ idle w
  idle-polled r (threw x w) v rv idle e = cc
  idle-polled r fault v rv idle e = cc

  -- Once the current session has failed, the loop leaves at the latest at the first round whose `poll`
  -- runs no handler, provided that the rounds up to it return and leave the failed session the
  -- current one.
  pub master_loop-leaves :
      (start : ℕ) (before : List Round) (r : Round) (rs : List Round) (w : World)
      → IsDown w
      → AllKeepDown before
      → KeepsDown r
      → ((v : World) → (r.poll v).1 ≡ 0)
      → (v : World) × (left : List Round) × (master_loop update start (before ++ r ∷ rs) w
          ≡ stopped v left)
        × IsDown v
  unfolding master_loop
  master_loop-leaves start [] r rs w d keep last idle =
      let (v, rv, e, down) = last start w d in
      let none_ran : rv ≡ 0 = idle-polled r (update (sub_ℕ r.now start) w) v rv idle e in
      (v, rs, turn-over _ v rv rs _ e (down, none_ran), down)
  master_loop-leaves start (b ∷ before) r rs w d keep last idle =
      let (v, rv, e, down) = keep.0 start w d in
      let (u, left, k, q) = master_loop-leaves b.now before r rs v down keep.1 last idle in
      elim (Bool-cases (quits v rv)) [
        | inl h ↦ (v, before ++ r ∷ rs, turn-over _ v rv _ _ e (quits-IsOver v rv h), down)
        | inr h ↦ (u, left, turn-on _ v rv _ _ e h ∙ k, q)
      ]
