-- ===== src/Manager/Connect.antt =====
-- `connectTo` of socket/SockSessionManager.cpp, on all its branches.
use socktestprogram.Prelude.{
  ℕ, ◌≡◌, refl, sym, ap, ap₂, ◌∙◌, Option, none, some, List, [], ◌∷◌, ◌++◌, String, length,
  get_elem?, set-get_self, lt-of-get_elem?, get_elem?-append, append-nil,
}
use socktestprogram.Session.{
  Session, State, Effect, done, raised, run, resolve_error, async_connect, post_closed, create,
  set_timeout, set_net_message_pumper, set_net_connected, connect, close,
}
use socktestprogram.Manager.{
  Manager, World, Outcome, ok, threw, fault, operations, immediate, is_operation, settle, after,
  on_session, set_up, close_current, make_current, adopt, connect_to, Io, unset, null, service,
}
use socktestprogram.Manager.System.{close_current-none, close_current-some}

-- The session that a call of `connectTo` makes.
abbrev pub new_session : Manager → ℕ → String → String → String → String → Session
new_session m now host port server_id descr = record (create host port descr) {
  last_op = some now;
  timeout = 3_000_000;
  callback = m.redistribute;
  on_connected = m.server_connected;
  connecting_server = server_id;
}

-- What it adds to the world: it is the last session and the current one.
abbrev pub with_new : World → Session → ℕ → List (ℕ × Effect) → World
with_new w x endpoint closing = record w {
  manager = record (w.manager) { ptr = some (length w.sessions) };
  sessions = w.sessions ++ x ∷ [];
  pending = (w.pending ++ (length w.sessions, async_connect endpoint) ∷ []) ++ closing;
}

set_up-resolved :
    (resolve : String → String → Option ℕ) (now : ℕ) (host port server_id descr : String)
    (m : Manager) (endpoint : ℕ)
    → resolve host port ≡ some endpoint
    → run (set_up resolve now server_id m) (create host port descr)
      ≡ done tt (record {
        session = new_session m now host port server_id descr;
        effects = async_connect endpoint ∷ [];
      })
unfolding set_up set_timeout set_net_message_pumper set_net_connected connect create
set_up-resolved resolve now host port server_id descr m endpoint e = rw e

set_up-unresolved :
    (resolve : String → String → Option ℕ) (now : ℕ) (host port server_id descr : String)
    (m : Manager)
    → resolve host port ≡ none
    → (t : State) × (run (set_up resolve now server_id m) (create host port descr)
        ≡ raised resolve_error t)
unfolding set_up set_timeout set_net_message_pumper set_net_connected connect create
set_up-unresolved resolve now host port server_id descr m e = (
  record {
    session = record (create host port descr) {
      timeout = 3_000_000;
      callback = m.redistribute;
      on_connected = m.server_connected;
    };
    effects = [];
  },
  rw e,
)

abbrev opened : World → Session → ℕ → World
opened w x endpoint = record w {
  sessions = w.sessions ++ x ∷ [];
  pending = w.pending ++ (length w.sessions, async_connect endpoint) ∷ [];
  calls = w.calls ++ [];
}

with_service :
    (io : Io) (r : Outcome)
    → io ≡ service
    → (elim io [ unset ↦ fault | null ↦ fault | service ↦ r ]) ≡ r
with_service unset r e = cc
with_service null r e = cc
with_service service r e = refl

adopts :
    (resolve : String → String → Option ℕ) (now : ℕ) (host port server_id descr : String)
    (w : World)
    → w.manager.io ≡ service
    → connect_to resolve now host port server_id descr w
      ≡ adopt w (run (set_up resolve now server_id w.manager) (create host port descr))
unfolding connect_to
adopts resolve now host port server_id descr w e = with_service w.manager.io _ e

-- The close of the old session, in the world that already has the new one.
close-some :
    (w : World) (i : ℕ) (x : Session)
    → w.manager.ptr ≡ some i
    → get_elem? w.sessions i ≡ some x
    → close_current w ≡ ok (record w { pending = w.pending ++ (i, post_closed) ∷ [] })
unfolding on_session after settle close operations immediate is_operation
close-some w i x p e =
    close_current-some w i p
    ∙ (rw (e, on_session)
        (ap₂
          (λ s c.
            ok (record w { sessions = s; pending = w.pending ++ (i, post_closed) ∷ []; calls = c }))
          (set-get_self w.sessions i e) (append-nil w.calls)))

tidy :
    (w : World) (x : Session) (endpoint : ℕ) (closing : List (ℕ × Effect))
    {pending : List (ℕ × Effect)}
    → pending ≡ (w.pending ++ (length w.sessions, async_connect endpoint) ∷ []) ++ closing
    → ok (record (opened w x endpoint) {
      manager = record (w.manager) { ptr = some (length w.sessions) };
      pending = pending;
    })
      ≡ ok (with_new w x endpoint closing)
tidy w x endpoint closing e =
    ap₂ (λ p c. ok (record (with_new w x endpoint closing) { pending = p; calls = c })) e
      (append-nil w.calls)

module _ (resolve : String → String → Option ℕ) (now : ℕ) (host port server_id descr : String)
    (w : World) (with_service : w.manager.io ≡ service) where
  abbrev entering : Session
  entering = new_session w.manager now host port server_id descr

  starts :
      connect_to resolve now host port server_id descr w
      ≡ adopt w (run (set_up resolve now server_id w.manager) (create host port descr))
  starts = adopts resolve now host port server_id descr w with_service

  opens :
      (endpoint : ℕ)
      → resolve host port ≡ some endpoint
      → connect_to resolve now host port server_id descr w
        ≡ make_current (length w.sessions) (close_current (opened w entering endpoint))
  unfolding adopt operations immediate is_operation
  opens endpoint r =
      starts
      ∙ ap (adopt w) (set_up-resolved resolve now host port server_id descr w.manager endpoint r)

  -- `connectTo`, with a service and a host that resolves, when there is no current session: the new
  -- session is the current one, has the manager's callbacks, a timeout of three seconds and a connect
  -- under way; nothing else changes.
  pub connect_to-first :
      (endpoint : ℕ)
      → resolve host port ≡ some endpoint
      → w.manager.ptr ≡ none
      → connect_to resolve now host port server_id descr w ≡ ok (with_new w entering endpoint [])
  unfolding make_current
  connect_to-first endpoint r p =
      opens endpoint r
      ∙ (ap (make_current (length w.sessions)) (close_current-none (opened w entering endpoint) p)
          ∙ tidy w entering endpoint [] (sym (append-nil _)))

  -- `connectTo`, with a service and a host that resolves, in place of a session: the new one is set
  -- up as the first one is, and the old one is asked to close; nothing else changes.
  pub connect_to-replaces :
      (endpoint i : ℕ) (old : Session)
      → resolve host port ≡ some endpoint
      → w.manager.ptr ≡ some i
      → get_elem? w.sessions i ≡ some old
      → connect_to resolve now host port server_id descr w
        ≡ ok (with_new w entering endpoint ((i, post_closed) ∷ []))
  unfolding make_current
  connect_to-replaces endpoint i old r p g =
      opens endpoint r
      ∙ (ap (make_current (length w.sessions)) (
            close-some (opened w entering endpoint) i old p
              (get_elem?-append w.sessions (entering ∷ []) i (lt-of-get_elem? w.sessions i g) ∙ g))
          ∙ tidy w entering endpoint ((i, post_closed) ∷ []) refl)

  -- `connectTo`, with a service and a host that does not resolve: the exception leaves the world as
  -- it was, the old session current and open.
  pub connect_to-unresolved :
      resolve host port ≡ none
      → connect_to resolve now host port server_id descr w ≡ threw resolve_error w
  unfolding adopt
  connect_to-unresolved r =
      let (t, u) = set_up-unresolved resolve now host port server_id descr w.manager r in
      starts ∙ ap (adopt w) u
