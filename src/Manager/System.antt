-- ===== src/Manager/System.antt =====
-- The program as steps: asio completes an operation, or the script layer calls the manager.
use socktestprogram.Prelude.{
  ℕ, ◌≡◌, refl, Option, none, some, List, [], ◌∷◌, ◌++◌, String, arith, get_elem?, inl, inr,
  Option-cases,
}
use socktestprogram.Host.{ByteOrder}
use socktestprogram.Session.{
  Session, State, Result, Effect, M, done, raised, undefined, run, print, write, close, create,
}
use socktestprogram.Manager.{
  World, Outcome, ok, fault, settle, after, on_session, manager_write, set_up, close_current, adopt,
  connect_to, Completion, handler, Io, unset, null, service,
}

module _ (o : ByteOrder) (resolve : String → String → Option ℕ) where
  -- Operations are completed in any order. An exception ends the program, so no step follows.
  pub data Step (w : World) : World → Type 0 where
    completes :
        (before rest : List (ℕ × Effect)) (i : ℕ) (e : Effect) (c : Completion) {v : World}
        → w.pending ≡ before ++ (i, e) ∷ rest
        → on_session i (handler o e c) (record w { pending = before ++ rest }) ≡ ok v
        → Step w v
    writes :
        (now type_code : ℕ) (msg : List ℕ) (n : ℕ) {v : World}
        → manager_write o now type_code msg n w ≡ ok v
        → Step w v
    connects :
        (now : ℕ) (host port server_id descr : String) {v : World}
        → connect_to resolve now host port server_id descr w ≡ ok v
        → Step w v

  pub data Reach (w : World) : World → Type 0 where
    here : Reach w w
    next : {u v : World} → Reach w u → Step u v → Reach w v

-- A call on session `i` that returned.
pub record Settled (i : ℕ) (m : M (Unit {0})) (w v : World) : Type 0 where
  pub session : Session
  pub state : State
  pub found : get_elem? w.sessions i ≡ some session
  pub returned : run m session ≡ done tt state
  pub result : v ≡ settle w i state

after-Settled :
    (i : ℕ) (m : M (Unit {0})) (w v : World) (x : Session) (r : Result (Unit {0}))
    → get_elem? w.sessions i ≡ some x
    → run m x ≡ r
    → after w i r ≡ ok v
    → Settled i m w v
unfolding after
after-Settled i m w v x (done a t) f e h = record {
  session = x;
  state = t;
  found = f;
  returned = e;
  result = cc;
}
after-Settled i m w v x (raised e' t) f e h = cc
after-Settled i m w v x undefined f e h = cc

pub on_session-Settled :
    (i : ℕ) (m : M (Unit {0})) (w v : World) → on_session i m w ≡ ok v → Settled i m w v
unfolding on_session
on_session-Settled i m w v h = elim (Option-cases (get_elem? w.sessions i)) [
  | inl e ↦ cc (rw (e, on_session) at h)
  | inr (x, e) ↦ after-Settled i m w v x (run m x) e refl (rw (e, on_session) at h)
]

pub ok-injective : {u v : World} → ok u ≡ ok v → u ≡ v
ok-injective e = cc

pub manager_write-none :
    (o : ByteOrder) (now t : ℕ) (msg : List ℕ) (n : ℕ) (w : World)
    → w.manager.ptr ≡ none
    → manager_write o now t msg n w
      ≡ ok (record w { calls = w.calls ++ (none, print "Error: session is not present") ∷ [] })
unfolding manager_write
manager_write-none o now t msg n w e = ground arith

pub manager_write-some :
    (o : ByteOrder) (now t : ℕ) (msg : List ℕ) (n : ℕ) (w : World) (i : ℕ)
    → w.manager.ptr ≡ some i
    → manager_write o now t msg n w ≡ on_session i (write o now t msg n) w
unfolding manager_write
manager_write-some o now t msg n w i e = ground arith

pub close_current-none : (w : World) → w.manager.ptr ≡ none → close_current w ≡ ok w
unfolding close_current
close_current-none w e = ground arith

pub close_current-some :
    (w : World) (i : ℕ) → w.manager.ptr ≡ some i → close_current w ≡ on_session i close w
unfolding close_current
close_current-some w i e = ground arith

-- `connectTo` that returned had a service, and has adopted the session that it set up.
connect_io :
    (io : Io) (r : Outcome) (v : World)
    → (elim io [ unset ↦ fault | null ↦ fault | service ↦ r ]) ≡ ok v
    → r ≡ ok v
connect_io unset r v h = cc
connect_io null r v h = cc
connect_io service r v h = h

pub connect_to-ok :
    (resolve : String → String → Option ℕ) (now : ℕ) (host port server_id descr : String)
    (w v : World)
    → connect_to resolve now host port server_id descr w ≡ ok v
    → adopt w (run (set_up resolve now server_id w.manager) (create host port descr)) ≡ ok v
unfolding connect_to
connect_to-ok resolve now host port server_id descr w v h = connect_io w.manager.io _ v h
