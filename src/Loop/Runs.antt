-- ===== src/Loop/Runs.antt =====
-- When a run of ConnFw comes to its end.
use socktestprogram.Prelude.{ℕ, ℤ, ◌≡◌, ◌↔◌, refl, List, ◌∷◌, sym, ◌∙◌, ap, ap₂, subst}
use socktestprogram.Manager.{World, Outcome, ok, threw, fault, register_io, unregister_id}
use socktestprogram.Loop.{
  ConnFw, Round, Loop, running, stopped, escaped, crashed, master_loop, End, returned, then_end,
  finish, run,
}
use socktestprogram.Loop.Laws.{
  IsDown, UpTo, at_last, plays_all, leaves, escapes, crashes, master_loop_lem, master_loop-Plays,
  turn-over,
}

-- The handles `prepare`, `before` and `after` return, and so do the rounds, up to the first one after
-- which the current session has failed with an idle `poll`.
pub record Finishes (c : ConnFw) (start : ℕ) (rs : List Round) (w v : World) : Type 0 where
  pub prepared : World
  pub begun : World
  pub over : World
  pub done : World
  pub rounds : UpTo c.update start rs begun
  pub prepares : c.prepare w ≡ ok prepared
  pub begins : c.before (register_io prepared) ≡ ok begun
  pub last : at_last c.update rounds ≡ (ok over, 0)
  pub down : IsDown over
  pub after : c.after over ≡ ok done
  pub result : v ≡ unregister_id done

then_end-returned :
    (o : Outcome) (next : World → End) (v : World)
    → then_end o next ≡ returned v
    → (u : World) × (o ≡ ok u) × (next u ≡ returned v)
then_end-returned (ok w) next v h = (w, refl, h)
then_end-returned (threw e w) next v h = cc
then_end-returned fault next v h = cc

finish-returned :
    (c : ConnFw) (l : Loop) (v : World)
    → finish c l ≡ returned v
    → (u : World) × (left : List Round) × (l ≡ stopped u left)
      × ((y : World) × (c.after u ≡ ok y) × (v ≡ unregister_id y))
unfolding finish
finish-returned c (running w) v h = cc
finish-returned c (stopped w rs) v h =
    let (y, e, k) = then_end-returned (c.after w) _ v h in (w, rs, refl, (y, e, cc))
finish-returned c (escaped e w rs) v h = cc
finish-returned c (crashed rs) v h = cc

stopped-eq : {u v : World} {rs qs : List Round} → stopped u rs ≡ stopped v qs → u ≡ v
stopped-eq e = cc

-- A loop that was left was left at the first round after which it was over.
Over : (ℤ → World → Outcome) → ℕ → List Round → World → World → Type 0
Over update start rs w x = (u : UpTo update start rs w) × (at_last update u ≡ (ok x, 0)) × IsDown x

stopped-Over :
    (update : ℤ → World → Outcome) (start : ℕ) (rs left : List Round) (w x : World)
    → master_loop update start rs w ≡ stopped x left
    → Over update start rs w x
unfolding Over
stopped-Over update start rs left w x e = elim (master_loop_lem update start rs w) [
  | plays_all p k ↦ cc
  | leaves u p h k ↦
      let same = stopped-eq (sym k ∙ e) in
      (u, p ∙ ap₂ (λ v rv. (ok v, rv)) same h.1, subst IsDown same h.0)
  | escapes u p k ↦ cc
  | crashes u p k ↦ cc
]

Over-stopped :
    (update : ℤ → World → Outcome) (start : ℕ) (rs : List Round) (w x : World)
    (u : UpTo update start rs w)
    → at_last update u ≡ (ok x, 0)
    → IsDown x
    → master_loop update start rs w ≡ stopped x u.left
unfolding master_loop
Over-stopped update start rs w x u e d =
    ap (λ qs. master_loop update start qs w) u.split
    ∙ master_loop-Plays update u.plays (u.last ∷ u.left)
    ∙ turn-over update _ x 0 u.left _ e (d, refl)

-- A run returns a world exactly if the three handles and the rounds return, up to the first round after
-- which the current session has failed and whose `poll` ran no handler, and then the service is taken
-- from the manager in the world that `after` leaves. In particular a run in which an exception comes
-- through a handle or through `poll` before that does not return.
pub run_lem :
    (c : ConnFw) (start : ℕ) (rs : List Round) (w v : World)
    → (run c start rs w ≡ returned v) ↔ Finishes c start rs w v
unfolding run Over finish
run_lem c start rs w v = (to, from)
  where
    to : run c start rs w ≡ returned v → Finishes c start rs w v
    to h =
        let (a, prepares, h1) = then_end-returned (c.prepare w) _ v h in
        let (b, begins, h2) = then_end-returned (c.before (register_io a)) _ v h1 in
        let (x, left, e, (y, after, result)) = finish-returned c _ v h2 in
        let (u, last, down) = stopped-Over c.update start rs left b x e in
        record {
          prepared = a;
          begun = b;
          over = x;
          done = y;
          rounds = u;
          prepares = prepares;
          begins = begins;
          last = last;
          down = down;
          after = after;
          result = result;
        }

    from : Finishes c start rs w v → run c start rs w ≡ returned v
    from f =
        ap
          (λ o. then_end o (λ a.
            then_end (c.before (register_io a)) (λ b. finish c (master_loop c.update start rs b))))
          f.prepares
        ∙ ap (λ o. then_end o (λ b. finish c (master_loop c.update start rs b))) f.begins
        ∙ ap (finish c) (Over-stopped c.update start rs f.begun f.over f.rounds f.last f.down)
        ∙ ap (λ o. then_end o (λ u. returned (unregister_id u))) f.after
        ∙ ap returned (sym f.result)
