-- ===== src/App/Dispatcher/Chains.antt =====
-- The handlers of an event, as they are added and removed.
use socktestprogram.Prelude.{
  ◌≡◌, refl, ap, ◌∙◌, Bool, true, false, some, List, [], ◌∷◌, ◌++◌, if◌then◌else◌,
}
use socktestprogram.App.Dispatcher.{
  Name, Dispatcher, done, add_handler, remove_first, remove_handler, chain_of, with_chain,
}
use socktestprogram.Binding.Decoding.{same_bytes}
use socktestprogram.Binding.Decoding.Tables.{same_bytes_refl}

module _ (H A W : Type 0) (same : H → H → Bool) (h : H) where
  -- A handler that is none of the handlers.
  abbrev pub IsNew : List H → Type 0
  IsNew [] = Unit
  IsNew (g ∷ gs) = (same g h ≡ false) × IsNew gs

  remove_first-added :
      (gs : List H)
      → same h h ≡ true
      → IsNew gs
      → remove_first H A W same h (gs ++ h ∷ []) ≡ some gs
  unfolding remove_first
  remove_first-added [] e new = rw e refl
  remove_first-added (g ∷ gs) e new = rw (new.0, remove_first-added gs e new.1) refl

  -- A new handler that is added to an event and then removed again is removed without an error, and
  -- the event has the handlers that it had before.
  pub remove_handler-add_handler :
      (event : Name) (d : Dispatcher H A W)
      → same h h ≡ true
      → IsNew (chain_of H A W (d.handlers event))
      → (e : Dispatcher H A W) × (remove_handler H A W same event h (add_handler H A W event h d)
          ≡ done e)
        × (chain_of H A W (e.handlers event) ≡ chain_of H A W (d.handlers event))
  unfolding remove_handler add_handler
  remove_handler-add_handler event d e new =
      let chain : List H = chain_of H A W (d.handlers event) in
      let removed : Dispatcher H A W = record d {
        handlers = λ x.
            if same_bytes event x
            then some chain
            else (if same_bytes event x then some (chain ++ h ∷ []) else d.handlers x);
      } in
      (
        removed,
        ap (with_chain H A W event (add_handler H A W event h d)) (
            ap
              (λ b.
                remove_first H A W same h
                  (chain_of H A W (if b then some (chain ++ h ∷ []) else d.handlers event)))
              (same_bytes_refl event)
            ∙ remove_first-added chain e new),
        rw (same_bytes_refl event) refl,
      )
