-- ===== src/Manager/Failures.antt =====
-- How the failure of a session is noted: for good, and for that session only.
use socktestprogram.Prelude.{
  ℕ, ◌≡◌, refl, sym, ap, ◌∙◌, subst, Bool, true, false, Option, some, List, [], ◌∷◌, ◌++◌, String,
  arith, length, get_elem?, set, lt-of-get_elem?, get_elem?-set_ne, get_elem?-set_self,
  get_elem?-append, ◌≢◌, ℕ_discrete, some-injective, inl, inr, Option-cases,
}
use socktestprogram.Host.{ByteOrder}
use socktestprogram.Session.{
  Session, Result, Effect, M, done, raised, undefined, run, async_connect, async_read_header,
  async_read_body, async_write, post_closed, close_socket, pump, server_on, print, handle_connected,
  handle_header_read, handle_body_read, handle_closed, handle_written, read_value, write, close,
  is_socket_failed,
}
use socktestprogram.Manager.{
  World, Outcome, ok, threw, fault, settle, on_session, close_current, make_current, adopt,
  Completion, failed, finished, handler,
}
use socktestprogram.Manager.System.{
  Step, completes, writes, connects, Reach, here, next, Settled, on_session-Settled, ok-injective,
  manager_write-none, manager_write-some, close_current-none, close_current-some, connect_to-ok,
}

-- A call does not clear the failure of its session.
abbrev Keeps : Session → Result (Unit {0}) → Type 0
Keeps x (done a t) = is_socket_failed x ≡ true → is_socket_failed t.session ≡ true
Keeps x (raised e t) = Unit
Keeps x undefined = Unit

header-Keeps :
    (o : ByteOrder) (b : Bool) (x : Session) (bytes : List ℕ)
    → Keeps x (run (handle_header_read o b) (record x { head_length = bytes }))
unfolding handle_header_read read_value is_socket_failed
header-Keeps o b x bytes = ground arith

body-Keeps :
    (o : ByteOrder) (b : Bool) (x : Session) (bytes : List ℕ)
    → Keeps x (run (handle_body_read o b) (record x { buffer = bytes }))
unfolding handle_body_read read_value is_socket_failed
body-Keeps o b x bytes = ground arith

connected-Keeps : (b : Bool) (x : Session) → Keeps x (run (handle_connected b) x)
unfolding handle_connected is_socket_failed
connected-Keeps b x = ground arith

handler-Keeps :
    (o : ByteOrder) (e : Effect) (c : Completion) (x : Session) → Keeps x (run (handler o e c) x)
unfolding handler handle_written handle_closed
handler-Keeps o (async_connect e) failed x = connected-Keeps true x
handler-Keeps o (async_connect e) (finished bytes) x = connected-Keeps false x
handler-Keeps o async_read_header failed x = header-Keeps o true x x.head_length
handler-Keeps o async_read_header (finished bytes) x = header-Keeps o false x bytes
handler-Keeps o (async_read_body n) failed x = body-Keeps o true x x.buffer
handler-Keeps o (async_read_body n) (finished bytes) x = body-Keeps o false x bytes
handler-Keeps o (async_write bytes) failed x = λ h. h
handler-Keeps o (async_write bytes) (finished got) x = λ h. h
handler-Keeps o post_closed failed x = λ h. h
handler-Keeps o post_closed (finished bytes) x = λ h. h
handler-Keeps o close_socket c x = λ h. h
handler-Keeps o (pump cb t m) c x = λ h. h
handler-Keeps o (server_on cb name) c x = λ h. h
handler-Keeps o (print message) c x = λ h. h

write-Keeps :
    (o : ByteOrder) (now t : ℕ) (msg : List ℕ) (n : ℕ) (x : Session)
    → Keeps x (run (write o now t msg n) x)
unfolding write is_socket_failed
write-Keeps o now t msg n x = ground arith

close-Keeps : (x : Session) → Keeps x (run close x)
unfolding close
close-Keeps x = λ h. h

-- Session `k` is there, and has failed.
pub record HasFailed (k : ℕ) (w : World) : Type 0 where
  pub session : Session
  pub found : get_elem? w.sessions k ≡ some session
  pub failed : is_socket_failed session ≡ true

-- A call on session `i` changes no other session and nothing of the manager.
pub record Only (i : ℕ) (w v : World) : Type 0 where
  pub same_manager : v.manager ≡ w.manager
  pub others : (j : ℕ) → i ≢ j → get_elem? v.sessions j ≡ get_elem? w.sessions j

on_session-Only : (i : ℕ) (m : M (Unit {0})) (w v : World) → on_session i m w ≡ ok v → Only i w v
unfolding settle
on_session-Only i m w v h =
    let s : Settled i m w v = on_session-Settled i m w v h in
    subst (Only i w) (sym s.result) (record {
      same_manager = refl;
      others = λ j ne. get_elem?-set_ne w.sessions i j s.state.session ne;
    })

on_session-HasFailed :
    (i k : ℕ) (m : M (Unit {0})) (w v : World)
    → ((x : Session) → Keeps x (run m x))
    → HasFailed k w
    → on_session i m w ≡ ok v
    → HasFailed k v
unfolding settle
on_session-HasFailed i k m w v keep f h =
    let s : Settled i m w v = on_session-Settled i m w v h in
    elim (ℕ_discrete i k) [
      | yes e ↦
          let same : s.session ≡ f.session =
            some-injective (sym s.found ∙ (ap (get_elem? w.sessions) e ∙ f.found)) in
          let kept : is_socket_failed s.state.session ≡ true =
            subst (Keeps s.session) s.returned (keep s.session)
              (ap is_socket_failed same ∙ f.failed) in
          record {
            session = s.state.session;
            found =
                ap (λ u. get_elem? u.sessions k) s.result
                ∙ (ap (get_elem? (set w.sessions i s.state.session)) (sym e)
                    ∙ get_elem?-set_self w.sessions i s.state.session
                        (lt-of-get_elem? w.sessions i s.found));
            failed = kept;
          }
      | no ne ↦ record {
        session = f.session;
        found = (on_session-Only i m w v h).others k ne ∙ f.found;
        failed = f.failed;
      }
    ]

make_current-HasFailed :
    (i k : ℕ) (r : Outcome) (v : World)
    → ((u : World) → r ≡ ok u → HasFailed k u)
    → make_current i r ≡ ok v
    → HasFailed k v
unfolding make_current
make_current-HasFailed i k (ok w) v q h =
    let f : HasFailed k w = q w refl in
    subst (HasFailed k) (ok-injective h)
      (record { session = f.session; found = f.found; failed = f.failed })
make_current-HasFailed i k (threw e w) v q h = cc
make_current-HasFailed i k fault v q h = cc

close_current-HasFailed :
    (k : ℕ) (w v : World) → HasFailed k w → close_current w ≡ ok v → HasFailed k v
close_current-HasFailed k w v f h = elim (Option-cases w.manager.ptr) [
  | inl e ↦ subst (HasFailed k) (ok-injective (sym (close_current-none w e) ∙ h)) f
  | inr (i, e) ↦
      on_session-HasFailed i k close w v close-Keeps f (sym (close_current-some w i e) ∙ h)
]

adopt-HasFailed :
    (k : ℕ) (w v : World) (r : Result (Unit {0})) → HasFailed k w → adopt w r ≡ ok v → HasFailed k v
unfolding adopt
adopt-HasFailed k w v (done a t) f h =
    make_current-HasFailed (length w.sessions) k _ v
      (λ u e.
        close_current-HasFailed k _ u
          (record {
            session = f.session;
            found =
                get_elem?-append w.sessions (t.session ∷ []) k
                  (lt-of-get_elem? w.sessions k f.found)
                ∙ f.found;
            failed = f.failed;
          })
          e)
      h
adopt-HasFailed k w v (raised e t) f h = cc
adopt-HasFailed k w v undefined f h = cc

Step-HasFailed :
    (o : ByteOrder) (resolve : String → String → Option ℕ) (k : ℕ) {w v : World}
    → HasFailed k w
    → Step o resolve w v
    → HasFailed k v
Step-HasFailed o resolve k {w} {v} f (completes before rest i e c p h) =
    on_session-HasFailed i k (handler o e c) (record w { pending = before ++ rest }) v
      (handler-Keeps o e c) (record { session = f.session; found = f.found; failed = f.failed }) h
Step-HasFailed o resolve k {w} {v} f (writes now t msg n h) = elim (Option-cases w.manager.ptr) [
  | inl e ↦
      subst (HasFailed k) (ok-injective (sym (manager_write-none o now t msg n w e) ∙ h))
        (record { session = f.session; found = f.found; failed = f.failed })
  | inr (i, e) ↦
      on_session-HasFailed i k (write o now t msg n) w v (write-Keeps o now t msg n) f
        (sym (manager_write-some o now t msg n w i e) ∙ h)
]
Step-HasFailed o resolve k {w} {v} f (connects now host port server_id descr h) =
    adopt-HasFailed k w v _ f (connect_to-ok resolve now host port server_id descr w v h)

-- A session that has failed stays failed, whatever is completed and called after that.
pub reach-HasFailed :
    (o : ByteOrder) (resolve : String → String → Option ℕ) (k : ℕ) {w v : World}
    → HasFailed k w
    → Reach o resolve w v
    → HasFailed k v
reach-HasFailed o resolve k f here = f
reach-HasFailed o resolve k f (next r s) =
    Step-HasFailed o resolve k (reach-HasFailed o resolve k f r) s
