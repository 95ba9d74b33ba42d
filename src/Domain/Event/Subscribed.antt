-- ===== src/Domain/Event/Subscribed.antt =====
-- A handler that is subscribed is told: internal/domain/event/event.go.
use paste_thek4n_ru.Prelude.{◌≡◌, refl, List, [], ◌∷◌, ◌++◌, inl, inr, Bool-cases}
use paste_thek4n_ru.Prelude.Bytes.{Bytes, bytes_eq, bytes_eq_refl}
use paste_thek4n_ru.Domain.Event.{
  Event, name, Handler, Publisher, handlers_of, put_handlers, notify_loop, notify, subscribe,
}

module _ {W : Type 0} where
  handlers_of-put_handlers :
      (n : Bytes) (hs : List (Handler W)) (m : List (Bytes × List (Handler W)))
      → handlers_of n (put_handlers n hs m) ≡ hs
  unfolding handlers_of put_handlers
  handlers_of-put_handlers n hs [] = rw (bytes_eq_refl n) refl
  handlers_of-put_handlers n hs ((k, old) ∷ rest) = elim (Bool-cases (bytes_eq k n)) [
    | inl same ↦ rw (same, same) refl
    | inr other ↦ rw (other, other) (handlers_of-put_handlers n hs rest)
  ]

  notify_loop-append :
      (hs gs : List (Handler W)) (e : Event) (w : W)
      → notify_loop (hs ++ gs) e w ≡ notify_loop gs e (notify_loop hs e w)
  unfolding notify_loop
  notify_loop-append [] gs e w = refl
  notify_loop-append (h ∷ hs) gs e w = notify_loop-append hs gs e (h.notify e w)

  -- A handler that is subscribed to an event is told of it after the handlers that were subscribed
  -- before, all of which are still told.
  pub notify-subscribe :
      (p : Publisher W) (h : Handler W) (e : Event) (w : W)
      → notify (subscribe p h (e ∷ [])) e w ≡ h.notify e (notify p e w)
  unfolding notify subscribe notify_loop
  notify-subscribe p h e w =
      let old = handlers_of (name e) p.handlers in
      rw (handlers_of-put_handlers (name e) (old ++ h ∷ []) p.handlers)
        (notify_loop-append old (h ∷ []) e w)
