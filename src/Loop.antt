-- ===== src/Loop.antt =====
-- ConnFw of main.cpp: the frame of the program, with its master loop. A handle, and a handler that
-- `io.poll()` runs, may throw: no function of the class catches it.
pub mod Laws
pub mod Runs
use socktestprogram.Prelude.{ℕ, ℤ, sub_ℕ, Bool, ◌&&◌, List, [], ◌∷◌, ◌==◌, if◌then◌else◌}
use socktestprogram.Session.{Exception}
use socktestprogram.Manager.{
  World, Outcome, ok, threw, fault, register_io, unregister_id, has_current_session, current_failed,
}

-- The four handles. `update` gets the time that has passed, in microseconds, which is negative when
-- the clock was set back: the source divides it down to seconds.
pub record ConnFw : Type 0 where
  pub prepare : World → Outcome
  pub before : World → Outcome
  pub after : World → Outcome
  pub update : ℤ → World → Outcome

-- ConnFw::ConnFw
unfoldable pub create : ConnFw
create = record { prepare = ok; before = ok; after = ok; update = λ pass. ok }

unfoldable pub set_prepare : (World → Outcome) → ConnFw → ConnFw
set_prepare f c = record c { prepare = f }

unfoldable pub set_before : (World → Outcome) → ConnFw → ConnFw
set_before f c = record c { before = f }

unfoldable pub set_after : (World → Outcome) → ConnFw → ConnFw
set_after f c = record c { after = f }

unfoldable pub set_update : (ℤ → World → Outcome) → ConnFw → ConnFw
set_update f c = record c { update = f }

-- A round of the master loop as its environment makes it: the clock, and `io.poll()`, which runs
-- the handlers that are ready and, if it returns, returns how many it ran.
pub record Round : Type 0 where
  pub now : ℕ
  pub poll : World → Outcome × ℕ

-- `stopped` is left by `break`, `escaped` by an exception, both before the rounds that they keep;
-- `crashed` is undefined behaviour, and `running` has used up its rounds.
pub data Loop : Type 0 where
  running : World → Loop
  stopped : World → List Round → Loop
  escaped : Exception → World → List Round → Loop
  crashed : List Round → Loop

-- The test of the loop's `break`.
unfoldable pub quits : World → ℕ → Bool
quits w rv = rv == 0 && (has_current_session w && current_failed w)

-- `io.poll()`, if `update_` has returned.
abbrev pub polled : Outcome → Round → Outcome × ℕ
polled (ok w) r = r.poll w
polled (threw e w) r = (threw e w, 0)
polled fault r = (fault, 0)

-- The two calls of a round.
abbrev pub played : (ℤ → World → Outcome) → ℕ → Round → World → Outcome × ℕ
played update start r w = polled (update (sub_ℕ r.now start) w) r

-- What a round makes of the loop: `next` is the loop from the next round on.
unfoldable pub turn : Outcome × ℕ → List Round → (World → Loop) → Loop
unfolding quits
turn (ok v, rv) rs next = let rest = next v in if quits v rv then stopped v rs else rest
turn (threw e v, rv) rs next = escaped e v rs
turn (fault, rv) rs next = crashed rs

unfoldable pub master_loop : (ℤ → World → Outcome) → ℕ → List Round → World → Loop
unfolding turn
master_loop update start [] w = running w
master_loop update start (r ∷ rs) w =
    turn (played update start r w) rs (master_loop update r.now rs)

-- How a run ends, if it does. `uncaught` is an exception, for which the program is terminated.
pub data End : Type 0 where
  in_loop : World → End
  returned : World → End
  uncaught : Exception → World → End
  undefined : End

abbrev pub then_end : Outcome → (World → End) → End
then_end (ok w) next = next w
then_end (threw e w) next = uncaught e w
then_end fault next = undefined

unfoldable pub finish : ConnFw → Loop → End
finish c (running w) = in_loop w
finish c (stopped w rs) = then_end (c.after w) (λ v. returned (unregister_id v))
finish c (escaped e w rs) = uncaught e w
finish c (crashed rs) = undefined

-- ConnFw::run, from the time `start`: the service is known to the manager from before the
-- `before` handle until after the `after` handle.
unfoldable pub run : ConnFw → ℕ → List Round → World → End
unfolding finish
run c start rs w =
    then_end (c.prepare w)
      (λ a. then_end (c.before (register_io a)) (λ b. finish c (master_loop c.update start rs b)))
