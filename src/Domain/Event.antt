-- ===== src/Domain/Event.antt =====
-- internal/domain/event: the publisher, and the event that an API key was used. `W` is the world.
pub mod Subscribed
use paste_thek4n_ru.Prelude.{Bool, true, List, [], ◌∷◌, ◌++◌, if◌then◌else◌}
use paste_thek4n_ru.Prelude.Bytes.{Bytes, bytes_eq, codes}

-- pkg/apikeys: the enumeration.
pub data UsageReason : Type 0 where
  customkey customkeylen persistkey largebody : UsageReason

-- `baseEvent`, which every event embeds.
pub record BaseEvent : Type 0 where
  pub name : Bytes
  pub is_asynchronous : Bool

pub record ApiKeyUsedEvent : Type 0 where
  pub base_event : BaseEvent
  pub apikey_id : Bytes
  pub reason : UsageReason
  pub from_ip : Bytes

-- `Event` has one implementation. `name` and `is_asynchronous` are its methods.
abbrev pub Event : Type 0
Event = ApiKeyUsedEvent

abbrev pub name : Event → Bytes
name e = e.base_event.name

abbrev pub is_asynchronous : Event → Bool
is_asynchronous e = e.base_event.is_asynchronous

unfoldable pub new_apikey_used_event : Bytes → UsageReason → Bytes → ApiKeyUsedEvent
new_apikey_used_event apikey_id reason from_ip = record {
  base_event = record { name = codes "usagereason.new"; is_asynchronous = true };
  apikey_id = apikey_id;
  reason = reason;
  from_ip = from_ip;
}

module _ (W : Type 0) where
  pub record Handler : Type 0 where
    pub notify : Event → W → W

  -- The map from an event's name to its handlers.
  pub record Publisher : Type 0 where
    pub handlers : List (Bytes × List Handler)

module _ {W : Type 0} where
  abbrev pub new_publisher : Publisher W
  new_publisher = record { handlers = [] }

  -- e.handlers[name], the empty slice for a missing key
  unfoldable pub handlers_of : Bytes → List (Bytes × List (Handler W)) → List (Handler W)
  handlers_of n [] = []
  handlers_of n ((k, hs) ∷ rest) = if bytes_eq k n then hs else handlers_of n rest

  -- e.handlers[name] = handlers
  unfoldable pub put_handlers :
      Bytes → List (Handler W) → List (Bytes × List (Handler W)) → List (Bytes × List (Handler W))
  put_handlers n hs [] = (n, hs) ∷ []
  put_handlers n hs ((k, old) ∷ rest) =
      if bytes_eq k n then (k, hs) ∷ rest else (k, old) ∷ put_handlers n hs rest

  unfoldable pub notify_loop : List (Handler W) → Event → W → W
  notify_loop [] e w = w
  notify_loop (h ∷ hs) e w = notify_loop hs e (h.notify e w)

  unfoldable pub notify : Publisher W → Event → W → W
  notify p e = notify_loop (handlers_of (name e) p.handlers) e

  -- `go_statement` starts a goroutine that runs the given change of the world.
  unfoldable pub notify_all : ((W → W) → W → W) → Publisher W → Event → W → W
  notify_all go_statement p e w =
      if is_asynchronous e then go_statement (notify p e) w else notify p e w

  unfoldable pub subscribe : Publisher W → Handler W → List Event → Publisher W
  subscribe p h [] = p
  subscribe p h (e ∷ es) =
      let handlers = handlers_of (name e) p.handlers in
      subscribe (record { handlers = put_handlers (name e) (handlers ++ h ∷ []) p.handlers }) h es
