-- ===== src/Tests/Loops.antt =====
-- The theorems on main.cpp at concrete rounds.
use socktestprogram.Prelude.{ℤ, ◌≡◌, ◌↔◌, refl, true, false, some, none, List, [], ◌∷◌}
use socktestprogram.Session.{Session, is_socket_failed, length_error}
use socktestprogram.Manager.{
  World, Outcome, ok, threw, has_current_session, current_failed, service, failed_at, unregister_id,
}
use socktestprogram.Loop
use socktestprogram.Loop.{Round, stopped, escaped, master_loop, returned, run}
use socktestprogram.Loop.Laws.{IsDown, Goes, master_loop_lem, master_loop-leaves}
use socktestprogram.Loop.Runs.{Finishes, run_lem}

abbrev lost : Session
lost = record {
  last_op = none;
  timeout = 3_000_000;
  connecting_timeout = true;
  socket_failed = false;
  head_length = 0 ∷ 0 ∷ 0 ∷ 0 ∷ [];
  buffer = [];
  host = "";
  port = "";
  description = "";
  callback = none;
  on_connected = none;
  connecting_server = "";
}

abbrev down : World
down = record {
  manager = record { ptr = some 0; io = service; redistribute = none; server_connected = none };
  sessions = lost ∷ [];
  pending = [];
  calls = [];
}

-- A round in which a handler ran, one in which none did, and one in which a handler throws.
abbrev busy : Round
busy = record { now = 20; poll = λ w. (ok w, 1) }

abbrev quiet : Round
quiet = record { now = 15; poll = λ w. (ok w, 0) }

abbrev throwing : Round
throwing = record { now = 40; poll = λ w. (threw length_error w, 0) }

abbrev still : ℤ → World → Outcome
still pass w = ok w

down-IsDown : IsDown down
unfolding has_current_session current_failed failed_at is_socket_failed
down-IsDown = (refl, refl)

master_loop_lem_example : Goes still 10 (busy ∷ quiet ∷ throwing ∷ []) down
master_loop_lem_example = master_loop_lem still 10 (busy ∷ quiet ∷ throwing ∷ []) down

-- The loop leaves at the second round; if it comes earlier, the exception ends it.
leaves_test :
    master_loop still 10 (busy ∷ quiet ∷ throwing ∷ []) down ≡ stopped down (throwing ∷ [])
unfolding master_loop has_current_session current_failed failed_at is_socket_failed
leaves_test = refl

escapes_test :
    master_loop still 10 (busy ∷ throwing ∷ quiet ∷ []) down
    ≡ escaped length_error down (quiet ∷ [])
unfolding master_loop has_current_session current_failed failed_at is_socket_failed
escapes_test = refl

master_loop-leaves_example :
    (v : World) × (left : List Round) × (master_loop still 10 (busy ∷ quiet ∷ []) down
      ≡ stopped v left)
    × IsDown v
master_loop-leaves_example =
    master_loop-leaves still 10 (busy ∷ []) quiet [] down down-IsDown
      ((λ start w d. (w, 1, refl, d)), tt) (λ start w d. (w, 0, refl, d)) (λ v. refl)

run_lem_example :
    (run Loop.create 10 (busy ∷ quiet ∷ []) down ≡ returned (unregister_id down))
    ↔ Finishes Loop.create 10 (busy ∷ quiet ∷ []) down (unregister_id down)
run_lem_example = run_lem Loop.create 10 (busy ∷ quiet ∷ []) down (unregister_id down)
