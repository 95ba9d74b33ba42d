-- ===== src/Infrastructure/EventHandler.antt =====
-- internal/infrastructure/eventhandler/eventhandler.go
use paste_thek4n_ru.Prelude.{Bool, false}
use paste_thek4n_ru.Prelude.Bytes.{Bytes, codes}
use paste_thek4n_ru.Exec.{Result, Exec, lift, wrap, ◌>>=◌}
use paste_thek4n_ru.Domain.Event.{UsageReason, ApiKeyUsedEvent, Handler}

pub record ApiKeyUsage : Type 0 where
  pub apikey_id : Bytes
  pub reason : UsageReason
  pub from_ip : Bytes

-- amqp.Channel.Publish(exchange, routing key, mandatory, immediate, content type and body), and
-- proto.Marshal: parameters.
pub record Broker (W : Type 0) : Type 0 where
  pub marshal : ApiKeyUsage → Result Bytes
  pub publish : Bytes → Bytes → Bool → Bool → Bytes → Bytes → Exec W (Unit {0})

module _ {W : Type 0} (broker : Broker W) where
  unfoldable pub send_apikey_usage_log : Bytes → UsageReason → Bytes → Exec W (Unit {0})
  send_apikey_usage_log apikey_id reason from_ip = do
    body ← wrap "can`t marshal record" (
        lift
          (broker.marshal (record { apikey_id = apikey_id; reason = reason; from_ip = from_ip })))
    wrap "can`t publish apikeyusage log" (
        broker.publish (codes "apikeysusage") (codes "apikeysusage.msg") false false
          (codes "application/protobuf") body)

  -- The error is dropped.
  unfoldable pub notify : ApiKeyUsedEvent → W → W
  notify e w = (send_apikey_usage_log e.apikey_id e.reason e.from_ip w).1

  abbrev pub rabbitmq_event_handler : Handler W
  rabbitmq_event_handler = record { notify = notify }
