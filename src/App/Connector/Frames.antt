-- ===== src/App/Connector/Frames.antt =====
-- The frames of the application are what it is meant to do for the inputs in them.
use socktestprogram.Prelude.{
  ℕ, ◌≡◌, refl, ap, sym, subst, ◌∙◌, Option, none, some, List, [], ◌∷◌, ◌++◌, map, append-nil,
  append_assoc,
}
use socktestprogram.App.Dispatcher.{done, add_handler}
use socktestprogram.App.Dispatcher.Queue.{AllAct, all_acted, check_lem}
use socktestprogram.App.Handlers.{Decoded, Request, Outside, Connector, Handler}
use socktestprogram.App.Connector.{call, App, started, add_all, distribute_rules, frame_check}
use socktestprogram.App.Connector.Rules.{
  Response, proto, HasTable, handlers, started-HasTable, CodesDiffer, rules, distribute_rules_lem,
}
use socktestprogram.App.Connector.Flow.{
  IsUsable, Input, then_enter, play_frame, then_play, play, react, react_all, react_frames, CanCall,
  AllUsable, FramesUsable,
}
use socktestprogram.App.Connector.Entries.{
  Chosen, react-Chosen, Entry, entry_of, queued, enter_lem, act, entry-Acts, entry-react,
}

module _ (o : Outside) (id : Request → ℕ) (packed : Request → List ℕ)
    (can : CanCall o id packed) where
  abbrev Fits : Connector → Type 0
  Fits = Chosen o id packed can

  abbrev AllActIn : List (Entry o) → Type 0
  AllActIn = AllAct Handler (Option Decoded) Connector (call o) (act o id packed can) Fits

  abbrev all_in : List (Entry o) → Connector → Connector
  all_in = all_acted Handler (Option Decoded) Connector (call o) (act o id packed can) Fits

  AllAct-queued :
      (cs : List (Entry o)) (i : Input)
      → IsUsable o i
      → AllActIn cs
      → AllActIn (cs ++ entry_of o i ∷ [])
  AllAct-queued [] i q a = (entry-Acts o id packed can i q, tt)
  AllAct-queued (c ∷ cs) i q a = (a.0, AllAct-queued cs i q a.1)

  all_in-react :
      (is : List Input) (w : Connector)
      → AllUsable o is
      → Fits w
      → (all_in (map (entry_of o) is) w ≡ react_all o id packed is w)
        × Fits (react_all o id packed is w)
  all_in-react [] w q p = (refl, p)
  all_in-react (i ∷ is) w q p =
      let (e, k) =
        all_in-react is (react o id packed i w) q.1 (react-Chosen o id packed can i w q.0 p) in
      (ap (all_in (map (entry_of o) is)) (entry-react o id packed can i w p) ∙ e, k)

  play_frame-queue :
      (code : Response → ℕ) (is : List Input) (d : App o)
      → CodesDiffer o code
      → HasTable o d (handlers o)
      → AllUsable o is
      → AllActIn d.cache
      → Fits d.world
      → play_frame o code is d
        ≡ some (
            done (record d { cache = []; world = all_in (d.cache ++ map (entry_of o) is) d.world }))
  unfolding play_frame frame_check
  play_frame-queue code [] d differ t q a p =
      (check_lem Handler (Option Decoded) Connector (call o) (act o id packed can) Fits d.cache
        d.handlers d.world a p).0
      ∙ ap (λ cs. some (done (record d { cache = []; world = all_in cs d.world })))
          (sym (append-nil d.cache))
  play_frame-queue code (i ∷ is) d differ t q a p =
      ap (λ r. then_enter o r (play_frame o code is)) (enter_lem o code i d differ t q.0)
      ∙ play_frame-queue code is (queued o d (entry_of o i)) differ t q.1
          (AllAct-queued d.cache i q.0 a) p
      ∙ ap (λ cs. some (done (record d { cache = []; world = all_in cs d.world })))
          (append_assoc d.cache (entry_of o i ∷ []) (map (entry_of o) is))

  play-frames :
      (code : Response → ℕ) (fs : List (List Input)) (d : App o)
      → CodesDiffer o code
      → HasTable o d (handlers o)
      → FramesUsable o fs
      → d.cache ≡ []
      → Fits d.world
      → play o code fs d
        ≡ some (done (record d { cache = []; world = react_frames o id packed fs d.world }))
  unfolding play
  play-frames code [] d differ t q e p = ap (λ cs. some (done (record d { cache = cs }))) e
  play-frames code (f ∷ fs) d differ t q e p =
      let (reacts, fits) = all_in-react f d.world q.0 p in
      ap (λ r. then_play o r (play o code fs))
        (play_frame-queue code f d differ t q.0 (subst AllActIn (sym e) tt) p
          ∙ ap
              (λ cs.
                some (
                  done
                    (record d { cache = []; world = all_in (cs ++ map (entry_of o) f) d.world })))
              e
          ∙ ap (λ w. some (done (record d { cache = []; world = w }))) reacts)
      ∙ play-frames code fs (record d { cache = []; world = react_all o id packed f d.world })
          differ t q.1 refl fits

  -- From the end of init.lua on, if the messages have different type codes and are decoded, every
  -- request can be sent, and the hosts of the directory server and of the first server of every list
  -- are resolved: for any inputs, in any frames, every call returns, the queue is empty after each
  -- frame, and the application has made the calls of "mm", and has chosen the server, that are meant
  -- for the inputs in their order.
  pub play_lem :
      (code : Response → ℕ) (fs : List (List Input))
      → CodesDiffer o code
      → ((r : Response) → o.to_id (proto r) ≡ some (code r))
      → FramesUsable o fs
      → (distribute_rules o ≡ some (rules o code))
        × (play o code fs (started o)
            ≡ some (
                done (record {
                  handlers = (started o).handlers;
                  cache = [];
                  world =
                      react_frames o id packed fs (record { chosen_server = none; commands = [] });
                })))
  unfolding started add_all add_handler
  play_lem code fs differ ids q = (
    distribute_rules_lem o code ids,
    play-frames code fs (started o) differ (started-HasTable o) q refl tt,
  )
