-- ===== src/App/Dispatcher.antt =====
-- Dispatcher.lua: events are kept in a queue, each with the handlers that it has when it is
-- dispatched, and `check` runs them.
pub mod Queue
pub mod Chains
use socktestprogram.Prelude.{
  ℕ, zero, suc, ◌&&◌, Bool, Option, none, some, List, [], ◌∷◌, ◌++◌, if◌then◌else◌,
}
use socktestprogram.Binding.Decoding.{same_bytes}

-- The name of an event.
abbrev pub Name : Type 0
Name = List ℕ

-- Handlers, the further arguments of a dispatch, and what the handlers share.
module _ (H A W : Type 0) where
  -- An entry of `eventCache`, with the variables that its function has captured.
  pub record Cached : Type 0 where
    pub event : Name
    pub chain : List H
    pub more : A

  -- `handlers_` and `eventCache`.
  pub record Dispatcher : Type 0 where
    pub handlers : Name → Option (List H)
    pub cache : List Cached
    pub world : W

  -- A call returns, or raises a Lua error.
  pub data Ran : Type 0 where
    done : Dispatcher → Ran
    raised : Dispatcher → Ran

  -- The entry for a table of handlers.
  abbrev pub keep : Name → A → Option (List H) → Dispatcher → Dispatcher
  keep event more none d = d
  keep event more (some chain) d = record d {
    cache = d.cache ++ record { event = event; chain = chain; more = more } ∷ [];
  }

  -- EventDispatcher.dispatch
  unfoldable pub dispatch : Name → A → Dispatcher → Dispatcher
  dispatch event more d = keep event more (d.handlers event) d

  abbrev pub chain_of : Option (List H) → List H
  chain_of none = []
  chain_of (some chain) = chain

  -- EventDispatcher.addHandler
  unfoldable pub add_handler : Name → H → Dispatcher → Dispatcher
  add_handler event h d = record d {
    handlers = λ e.
        if same_bytes event e then some (chain_of (d.handlers event) ++ h ∷ []) else d.handlers e;
  }

  -- `table.remove` of the first handler that is equal, and whether there is one.
  unfoldable pub remove_first : (H → H → Bool) → H → List H → Option (List H)
  remove_first same h [] = none
  remove_first same h (g ∷ gs) =
      let rest = remove_first same h gs in
      if same g h then some gs else elim rest [ none ↦ none | some r ↦ some (g ∷ r) ]

  -- The handlers of an event when one of them is removed: there must be one.
  abbrev pub with_chain : Name → Dispatcher → Option (List H) → Ran
  with_chain event d none = raised d
  with_chain event d (some chain) =
      done (record d { handlers = λ e. if same_bytes event e then some chain else d.handlers e })

  -- EventDispatcher.removeHandler
  unfoldable pub remove_handler : (H → H → Bool) → Name → H → Dispatcher → Ran
  unfolding remove_first
  remove_handler same event h d =
      with_chain event d (remove_first same h (chain_of (d.handlers event)))

  abbrev pub go_on : {B : Type 0} → Ran → (Dispatcher → B) → (Dispatcher → B) → B
  go_on (done d) next stop = next d
  go_on (raised d) next stop = stop d

  -- The calls of handlers, which may use the dispatcher.
  module _ (call : H → Name → A → Dispatcher → Ran) where
    -- The function of an entry of `eventCache`.
    unfoldable pub run_chain : List H → Name → A → Dispatcher → Ran
    run_chain [] event more d = done d
    run_chain (h ∷ hs) event more d =
        go_on (call h event more d) (λ e. run_chain hs event more e) raised

    -- `table.remove(eventCache, 1)`
    abbrev pub without_first : Dispatcher → Dispatcher
    without_first d = record d { cache = elim d.cache [ [] ↦ [] | c ∷ cs ↦ cs ] }

    -- A round of `check`, from `eventCache`.
    abbrev pub check_first : List Cached → Dispatcher → (Dispatcher → Option Ran) → Option Ran
    check_first [] d next = some (done d)
    check_first (c ∷ cs) d next =
        go_on (run_chain c.chain c.event c.more d) (λ e. next (without_first e))
          (λ e. some (raised e))

    -- EventDispatcher.check, on fuel: a round for each event, and the last one.
    unfoldable pub check : ℕ → Dispatcher → Option Ran
    check zero d = none
    check (suc fuel) d = check_first d.cache d (check fuel)
