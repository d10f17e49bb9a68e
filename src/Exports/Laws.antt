-- ===== src/Exports/Laws.antt =====
-- What the exported functions do to the sessions.
use socktestprogram.Prelude.{
  ℕ, suc, ◌+◌, ◌%◌, ◌<◌, ◌≡◌, ap, ◌∙◌, Option, none, some, List, [], ◌∷◌, ◌++◌, String, length,
  take, get_elem?, set, arith, append-nil, lt→leb, take-all, word, int_limit,
}
use socktestprogram.Host.{ByteOrder}
use socktestprogram.Lua.{Lua}
use socktestprogram.Script.{concat}
use socktestprogram.Script.Chunks.{fill_lem}
use socktestprogram.Session.{Session, write, async_write, post_closed}
use socktestprogram.Session.Frame.{wire, write_lem}
use socktestprogram.Manager.{
  World, service, ok, after, settle, on_session, manager_write, operations, immediate, is_operation,
}
use socktestprogram.Manager.Connect.{with_new, new_session, connect_to-replaces}
use socktestprogram.Exports.{
  answered, lua_error, loaded, send_buffer, connect_server, load_binary_file, string_arg, int_arg,
  bytes_of, load_content, load_end,
}

-- The world after a message that the current session accepts.
abbrev pub sent : World → ℕ → Session → ℕ → ℕ → List ℕ → World
sent w i x now t msg = record w {
  sessions = set w.sessions i (record x { last_op = some now });
  pending = w.pending ++ (i, async_write (wire t msg)) ∷ [];
}

write_current :
    (o : ByteOrder) (now t i n : ℕ) (msg : List ℕ) (w : World)
    → w.manager.ptr ≡ some i
    → manager_write o now t msg n w ≡ on_session i (write o now t msg n) w
unfolding manager_write
write_current o now t i n msg w p = ground arith

manager_write_lem :
    (o : ByteOrder) (now t i : ℕ) (msg : List ℕ) (w : World) (x : Session)
    → w.manager.ptr ≡ some i
    → get_elem? w.sessions i ≡ some x
    → t < word
    → length msg + 8 < int_limit
    → manager_write o now t msg (length msg) w ≡ ok (sent w i x now t msg)
unfolding on_session after settle operations immediate is_operation
manager_write_lem o now t i msg w x p g ht hl =
    write_current o now t i (length msg) msg w p
    ∙ rw (g, on_session)
        (ap (after w i) (write_lem o now t msg x ht hl)
          ∙ ap (λ c. ok (record (sent w i x now t msg) { calls = c })) (append-nil w.calls))

module _ (l : Lua) (c_string : List ℕ → String) where
  -- A string of at most 2 ^ 31 - 9 bytes and an integer below 2 ^ 32 that the script sends reach
  -- the current session: one write is under way there, of the frame of the message, and the session
  -- has the time of it. Nothing else changes.
  pub send_buffer_lem :
      (o : ByteOrder) (now i : ℕ) (w : World) (x : Session) (a b : l.Value) (msg : List ℕ) (t : ℕ)
      → w.manager.ptr ≡ some i
      → get_elem? w.sessions i ≡ some x
      → l.to_string a ≡ some msg
      → l.to_integer b ≡ some t
      → t < word
      → length msg + 8 < int_limit
      → send_buffer l c_string o now (a ∷ b ∷ []) w ≡ answered (ok (sent w i x now t msg))
  unfolding send_buffer string_arg int_arg bytes_of
  send_buffer_lem o now i w x a b msg t p g sa ib ht hl =
      let size : length msg % word ≡ length msg = omega arith in
      ap
        (λ r. elim r [
          | none ↦ lua_error "bad argument"
          | some n ↦ answered (
              manager_write o now n (bytes_of l c_string (l.to_string a))
                (length (bytes_of l c_string (l.to_string a)) % word) w)
        ])
        ib
      ∙ (ap
            (λ r. answered (
              manager_write o now t (bytes_of l c_string r) (length (bytes_of l c_string r) % word)
                w))
            sa
          ∙ (ap (λ n. answered (manager_write o now t msg n w)) size
              ∙ ap answered (manager_write_lem o now t i msg w x p g ht hl)))

  -- A file of fewer than 2 ^ 31 bytes is returned whole, and the block that it was read into is not
  -- freed.
  pub load_binary_file_lem :
      (fopen : String → Option (List ℕ)) (a : l.Value) (name content : List ℕ) (live : ℕ)
      → l.to_string a ≡ some name
      → fopen (c_string name) ≡ some content
      → length content < int_limit
      → load_binary_file l c_string fopen (a ∷ []) live ≡ loaded (l.string content) (live + 1)
  unfolding load_binary_file string_arg load_content load_end
  load_binary_file_lem fopen a name content live sa oc h =
      let n : ℕ = length content in
      let size : n % word ≡ n = omega arith in
      let whole : take n content ≡ content = take-all n content (omega arith) in
      let (cs, e, c, u) =
        fill_lem (suc n) l.buffer_size n content l.buffer_size-positive (omega arith)
          (omega arith) in
      let all : concat cs ≡ content = c ∙ whole in
      rw (sa, oc, load_content, size, lt→leb int_limit n h, whole, e, load_end, all)

  -- `ConnectServer` with a service and a current session, of four strings of which the first two
  -- are a host and a port that resolve: the new session is the current one, with a connect under
  -- way, and a session that was current is asked to close.
  pub connect_server_lem :
      (resolve : String → String → Option ℕ) (now endpoint i : ℕ) (w : World) (old : Session)
      (a b c d : l.Value) (host port server_id descr : List ℕ)
      → w.manager.io ≡ service
      → w.manager.ptr ≡ some i
      → get_elem? w.sessions i ≡ some old
      → resolve (c_string host) (c_string port) ≡ some endpoint
      → l.to_string a ≡ some host
      → l.to_string b ≡ some port
      → l.to_string c ≡ some server_id
      → l.to_string d ≡ some descr
      → connect_server l c_string resolve now (a ∷ b ∷ c ∷ d ∷ []) w
        ≡ answered (
            ok (
              with_new w
                (new_session w.manager now
                  (c_string host)
                  (c_string port)
                  (c_string server_id)
                  (c_string descr))
                endpoint
                ((i, post_closed) ∷ [])))
  unfolding connect_server string_arg
  connect_server_lem resolve now endpoint i w old a b c d host port server_id descr io p g r ha hb
        hc hd =
      rw (ha, hb, hc, hd)
        (ap answered (
          connect_to-replaces resolve now (c_string host) (c_string port) (c_string server_id)
            (c_string descr) w io endpoint i old r p g))
