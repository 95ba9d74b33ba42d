-- ===== src/Examples/Events.antt =====
-- A publisher with two handlers.
use paste_thek4n_ru.Prelude.{ℕ, ◌≡◌, ◌+◌, ◌*◌, []}
use paste_thek4n_ru.Prelude.{◌∷◌}
use paste_thek4n_ru.Prelude.Bytes.{codes}
use paste_thek4n_ru.Domain.Event.{
  Event, customkey, new_apikey_used_event, Handler, Publisher, new_publisher, notify, subscribe,
}
use paste_thek4n_ru.Domain.Event.Subscribed.{notify-subscribe}

abbrev used : Event
used = new_apikey_used_event (codes "id") customkey (codes "192.0.2.1")

-- The world is a number.
abbrev doubles : Handler ℕ
doubles = record { notify = λ e w. w * 2 }

abbrev adds : Handler ℕ
adds = record { notify = λ e w. w + 1 }

abbrev one_handler : Publisher ℕ
one_handler = subscribe new_publisher doubles (used ∷ [])

notify-subscribe_example :
    notify (subscribe one_handler adds (used ∷ [])) used 5 ≡ notify one_handler used 5 + 1
notify-subscribe_example = notify-subscribe one_handler adds used 5
