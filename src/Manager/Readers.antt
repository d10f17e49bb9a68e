-- ===== src/Manager/Readers.antt =====
-- A session never has two reads under way, whatever the order in which asio completes its
-- operations: a second one would mix up headers and bodies.
use socktestprogram.Prelude.{
  ℕ, ◌+◌, ◌≤◌, ◌<◌, ◌≡◌, refl, sym, ap, ◌∙◌, subst, Option, List, [], ◌∷◌, ◌++◌, String, arith,
  length, length-set, lt-of-get_elem?, length-append, ◌==◌, if◌then◌else◌, inl, inr, Option-cases,
}
use socktestprogram.Host.{ByteOrder}
use socktestprogram.Session.{
  Session, State, Result, Effect, M, done, raised, undefined, run, write, close, create,
}
use socktestprogram.Manager.{
  World, Outcome, ok, threw, fault, operations, immediate, settle, on_session, manager_write,
  close_current, make_current, adopt, connect_to, Completion, handler,
}
use socktestprogram.Manager.Requests.{
  is_reading, readings, readers, Asks, handler-Asks, write-Asks, set_up-Asks, close-Asks,
  readers-append, readers-operations, AllBelow, AllBelow-append, AllBelow-split, AllBelow-mono,
  AllBelow-operations, readers-fresh,
}
use socktestprogram.Manager.System.{
  Step, completes, writes, connects, Reach, here, next, Settled, on_session-Settled, ok-injective,
  manager_write-none, manager_write-some, close_current-none, close_current-some, connect_to-ok,
}

-- No session has two reads under way, and none that is not there has an operation.
pub record IsOrderly (w : World) : Type 0 where
  pub single : (i : ℕ) → readers i w.pending ≤ 1
  pub known : AllBelow (length w.sessions) w.pending

-- A member function of session `j` that asks for no more reads than `n`, where `n` and what is
-- under way are at most one.
settle-IsOrderly :
    (w : World) (j n : ℕ) (t : State)
    → j < length w.sessions
    → readings t.effects ≤ n
    → ((i : ℕ) → readers i w.pending + (if i == j then n else 0) ≤ 1)
    → AllBelow (length w.sessions) w.pending
    → IsOrderly (settle w j t)
unfolding settle
settle-IsOrderly w j n t h few single known = record {
  single = λ i. ground (
    arith,
    readers-append i w.pending (operations j t.effects),
    readers-operations i j t.effects,
    single i,
    few,
  );
  known =
      subst (λ k. AllBelow k (w.pending ++ operations j t.effects))
        (sym (length-set w.sessions j t.session))
        (AllBelow-append (length w.sessions) w.pending (operations j t.effects) known
          (AllBelow-operations (length w.sessions) j t.effects h));
}

-- What a settled call may ask for, in terms of its member function.
Settled-Asks :
    {i n : ℕ} {m : M (Unit {0})} {w v : World} (s : Settled i m w v)
    → ((x : Session) → Asks (run m x) n)
    → readings s.state.effects ≤ n
Settled-Asks {n = n} s h = subst (λ r. Asks r n) s.returned (h s.session)

-- A call that returned keeps the order, if there was room for its reads.
call-IsOrderly :
    (i n : ℕ) (m : M (Unit {0})) (w v : World)
    → ((x : Session) → Asks (run m x) n)
    → ((k : ℕ) → readers k w.pending + (if k == i then n else 0) ≤ 1)
    → AllBelow (length w.sessions) w.pending
    → on_session i m w ≡ ok v
    → IsOrderly v
call-IsOrderly i n m w v few single known h =
    let s : Settled i m w v = on_session-Settled i m w v h in
    subst IsOrderly (sym s.result) (
      settle-IsOrderly w i n s.state (lt-of-get_elem? w.sessions i s.found) (Settled-Asks s few)
        single known)

complete-IsOrderly :
    (o : ByteOrder) (w v : World) (before rest : List (ℕ × Effect)) (i : ℕ) (e : Effect)
    (c : Completion)
    → IsOrderly w
    → w.pending ≡ before ++ (i, e) ∷ rest
    → on_session i (handler o e c) (record w { pending = before ++ rest }) ≡ ok v
    → IsOrderly v
complete-IsOrderly o w v before rest i e c q p h =
    let all : AllBelow (length w.sessions) (before ++ (i, e) ∷ rest) =
      subst (AllBelow (length w.sessions)) p q.known in
    let (left, right) = AllBelow-split (length w.sessions) before ((i, e) ∷ rest) all in
    call-IsOrderly i (is_reading e) (handler o e c) (record w { pending = before ++ rest }) v
      (handler-Asks o e c)
      (λ k. ground (
        arith,
        q.single k,
        ap (readers k) p,
        readers-append k before ((i, e) ∷ rest),
        readers-append k before rest,
      ))
      (AllBelow-append (length w.sessions) before rest left right.1) h

write-IsOrderly :
    (o : ByteOrder) (now t : ℕ) (msg : List ℕ) (n : ℕ) (w v : World)
    → IsOrderly w
    → manager_write o now t msg n w ≡ ok v
    → IsOrderly v
write-IsOrderly o now t msg n w v q h = elim (Option-cases w.manager.ptr) [
  | inl e ↦
      subst IsOrderly (ok-injective (sym (manager_write-none o now t msg n w e) ∙ h))
        (record { single = q.single; known = q.known })
  | inr (i, e) ↦
      call-IsOrderly i 0 (write o now t msg n) w v (write-Asks o now t msg n)
        (λ k. ground (arith, q.single k)) q.known (sym (manager_write-some o now t msg n w i e) ∙ h)
]

close-IsOrderly : (w v : World) → IsOrderly w → close_current w ≡ ok v → IsOrderly v
close-IsOrderly w v q h = elim (Option-cases w.manager.ptr) [
  | inl e ↦ subst IsOrderly (ok-injective (sym (close_current-none w e) ∙ h)) q
  | inr (i, e) ↦
      call-IsOrderly i 0 close w v close-Asks (λ k. ground (arith, q.single k)) q.known
        (sym (close_current-some w i e) ∙ h)
]

make_current-IsOrderly :
    (i : ℕ) (r : Outcome) (v : World)
    → ((u : World) → r ≡ ok u → IsOrderly u)
    → make_current i r ≡ ok v
    → IsOrderly v
unfolding make_current
make_current-IsOrderly i (ok w) v q h =
    let k : IsOrderly w = q w refl in
    subst IsOrderly (ok-injective h) (record { single = k.single; known = k.known })
make_current-IsOrderly i (threw e w) v q h = cc
make_current-IsOrderly i fault v q h = cc

-- The world of a new session, before the old one is closed.
adopted :
    (w : World) (t : State)
    → readings t.effects ≤ 1
    → IsOrderly w
    → IsOrderly (record w {
      sessions = w.sessions ++ t.session ∷ [];
      pending = w.pending ++ operations (length w.sessions) t.effects;
      calls = w.calls ++ immediate (length w.sessions) t.effects;
    })
adopted w t few q =
    let n : ℕ = length w.sessions in
    let longer : length (w.sessions ++ t.session ∷ []) ≡ n + 1 =
      omega (arith, length-append w.sessions (t.session ∷ [])) in
    record {
      single = λ i. ground (
        arith,
        readers-append i w.pending (operations n t.effects),
        readers-operations i n t.effects,
        q.single i,
        few,
        readers-fresh n i w.pending,
        q.known,
      );
      known =
          subst (λ k. AllBelow k (w.pending ++ operations n t.effects)) (sym longer)
            (AllBelow-append (n + 1) w.pending (operations n t.effects)
              (AllBelow-mono n (n + 1) w.pending (omega arith) q.known)
              (AllBelow-operations (n + 1) n t.effects (omega arith)));
    }

adopt-IsOrderly :
    (w v : World) (r : Result (Unit {0})) → Asks r 1 → IsOrderly w → adopt w r ≡ ok v → IsOrderly v
unfolding adopt
adopt-IsOrderly w v (done a t) few q h =
    make_current-IsOrderly (length w.sessions) _ v
      (λ u e. close-IsOrderly _ u (adopted w t few q) e) h
adopt-IsOrderly w v (raised e t) few q h = cc
adopt-IsOrderly w v undefined few q h = cc

connect-IsOrderly :
    (resolve : String → String → Option ℕ) (now : ℕ) (host port server_id descr : String)
    (w v : World)
    → IsOrderly w
    → connect_to resolve now host port server_id descr w ≡ ok v
    → IsOrderly v
connect-IsOrderly resolve now host port server_id descr w v q h =
    adopt-IsOrderly w v _ (set_up-Asks resolve now server_id w.manager (create host port descr)) q
      (connect_to-ok resolve now host port server_id descr w v h)

-- Every step keeps the order.
Step-IsOrderly :
    (o : ByteOrder) (resolve : String → String → Option ℕ) {w v : World}
    → IsOrderly w
    → Step o resolve w v
    → IsOrderly v
Step-IsOrderly o resolve {w} {v} q (completes before rest i e c p h) =
    complete-IsOrderly o w v before rest i e c q p h
Step-IsOrderly o resolve {w} {v} q (writes now t msg n h) = write-IsOrderly o now t msg n w v q h
Step-IsOrderly o resolve {w} {v} q (connects now host port server_id descr h) =
    connect-IsOrderly resolve now host port server_id descr w v q h

-- Whatever asio completes, in whatever order, and whatever the script layer asks of the manager,
-- from a world in which no session has more than one read under way no world is reached in which
-- one has more.
pub reach-IsOrderly :
    (o : ByteOrder) (resolve : String → String → Option ℕ) {w v : World}
    → IsOrderly w
    → Reach o resolve w v
    → IsOrderly v
reach-IsOrderly o resolve q here = q
reach-IsOrderly o resolve q (next r s) = Step-IsOrderly o resolve (reach-IsOrderly o resolve q r) s
