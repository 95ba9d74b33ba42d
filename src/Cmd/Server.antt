-- ===== src/Cmd/Server.antt =====
-- cmd/paste/paste.go: what the server does with a request, and `runServer`. `W` is the world.
pub mod Link
pub mod Posted
use paste_thek4n_ru.Prelude.{
  ℕ, Bool, true, false, List, [], ◌∷◌, ◌++◌, Option, none, some, if◌then◌else◌,
}
use paste_thek4n_ru.Prelude.Int.{ℤ}
use paste_thek4n_ru.Prelude.Bytes.{Bytes, codes}
use paste_thek4n_ru.Errors.{GoError}
use paste_thek4n_ru.Exec.{Result, ok, err, Exec, Act, outcome, wrap, pure, ◌>>=◌, ◌>>◌}
use paste_thek4n_ru.Config.{default_quota_config}
use paste_thek4n_ru.Domain.Event.{
  customkey, Publisher, new_publisher, subscribe, new_apikey_used_event,
}
use paste_thek4n_ru.Infrastructure.Redis.{RedisClient}
use paste_thek4n_ru.Infrastructure.RecordRepo.{RedisKeyRecord}
use paste_thek4n_ru.Infrastructure.QuotaRepo.{RedisQuotaRecord}
use paste_thek4n_ru.Infrastructure.ApiKeyRepo.{RedisApiKeyRecord, Uuid}
use paste_thek4n_ru.Infrastructure.EventHandler.{Broker, rabbitmq_event_handler}
use paste_thek4n_ru.Std.ServeMux.{route}
use paste_thek4n_ru.Web.Answers.{ResponseWriter}
use paste_thek4n_ru.Web.Request.{Request}
use paste_thek4n_ru.Web.Get
use paste_thek4n_ru.Web.Get.{HttpLibrary}
use paste_thek4n_ru.Web.Cache.{Url, validate_url, cache}
use paste_thek4n_ru.Web.Health.{HealthcheckResponse, healthcheck}
use paste_thek4n_ru.Web.Docs.{ApiDoc, docs_handler}
use paste_thek4n_ru.Cmd.Console.{Console, Exit}
use paste_thek4n_ru.Cmd.Clients.{RedisOptions, host_port}
use paste_thek4n_ru.Cmd.Options.{
  PasteOptions, features, LoggerHandler, new_logger_handler, with_redis_host, broker_connection_url,
  new_redis_client_options,
}
use paste_thek4n_ru.Cmd.Routes
use paste_thek4n_ru.Cmd.Routes.{Handler, Features}
use paste_thek4n_ru.Cmd.Frontend.{registered}
use paste_thek4n_ru.Cmd.Factory.{Environment, Handlers, handlers_factory}

-- What the handlers use of the libraries: time.ParseDuration, url.Parse, the response, net/http,
-- encoding/json, time.Duration.String and html/template; and what net/http answers by itself,
-- for the static files and for a request that no pattern matches.
pub record Libraries (W : Type 0) : Type 0 where
  pub parse_duration : Bytes → Result ℤ
  pub url_parse : Bytes → Result Url
  pub response : ResponseWriter W
  pub http : HttpLibrary W
  pub encode : HealthcheckResponse → Bytes
  pub duration_string : ℤ → Bytes
  pub execute : ApiDoc → Exec W (Unit {0})
  pub file_server : W → W
  pub no_match : W → W
  -- the build tag `frontend`, and the two file servers of the front end
  pub with_frontend : Bool
  pub assets_server : W → W
  pub index_server : W → W

-- r.PathValue("key"): the patterns have one wildcard at most.
abbrev path_value : List Bytes → Bytes
path_value [] = []
path_value (value ∷ _) = value

module _ {W : Type 0} (lib : Libraries W) (h : Handlers W) where
  unfoldable pub handle : Handler → List Bytes → Request W → W → W
  handle Routes.get values r w =
      Get.get h.clock h.records lib.response lib.http (path_value values) w
  handle Routes.get_clicks values r w =
      Get.get_clicks h.clock h.records lib.response lib.http (path_value values) w
  handle Routes.cache values r w =
      cache h.config lib.parse_duration (validate_url lib.url_parse) h.cache_service lib.response r
        w
  handle Routes.healthcheck values r w = healthcheck lib.encode lib.response h.version w
  handle Routes.docs values r w =
      docs_handler h.config lib.duration_string lib.execute lib.response h.version
        h.healthcheck_enabled r w
  handle Routes.docs_static values r w = lib.file_server w
  handle Routes.frontend_assets values r w = lib.assets_server w
  handle Routes.frontend_index values r w = lib.index_server w

  abbrev handled : Option (Handler × List Bytes) → Request W → W → W
  handled none r w = lib.no_match w
  handled (some (handler, values)) r w = handle handler values r w

  -- A request of a method and a path, to the mux that `addHandlers` has filled, after the
  -- `init` of the front end in a build that has it.
  unfoldable pub serve_http : Features → Bytes → Bytes → Request W → W → W
  unfolding handle
  serve_http opts method path r w =
      handled (route (registered lib.with_frontend opts) method path) r w

-- github.com/rabbitmq/amqp091-go: a connection, a channel, and the declaration of an exchange with
-- its name, its type and whether it is durable, auto-deleted, internal and not waited for.
pub record Amqp (W : Type 0) : Type 1 where
  pub Connection : Type 0
  pub Channel : Type 0
  pub dial : Bytes → Exec W Connection
  pub channel : Connection → Exec W Channel
  pub exchange_declare : Channel → Bytes → Bytes → Bool → Bool → Bool → Bool → Exec W (Unit {0})
  -- the broker that publishes to a channel
  pub broker : Channel → Broker W

unfoldable pub init_broker_channel : {W : Type 0} (amqp : Amqp W) → Bytes → Exec W amqp.Channel
init_broker_channel amqp connect_url = do
  connection ← wrap "failed to connect to rabbitmq" (amqp.dial connect_url)
  ch ← wrap "failed to create a rabbitmq channel" (amqp.channel connection)
  wrap "failed to create a rabbitmq exchange 'apikeysusage'"
      (amqp.exchange_declare ch (codes "apikeysusage") (codes "topic") true false false false)
  pure ch

-- What `runServer` uses of the system: go-flags, os.Getenv, redis.NewClient for the three
-- databases, slog.Level.String, and `ListenAndServe` of a server with an address and a handler,
-- which returns an error whenever it returns.
pub record System (W : Type 0) : Type 0 where
  pub parse_args : List Bytes → Exec W (PasteOptions × List Bytes)
  pub getenv : Bytes → Bytes
  pub new_records_client : RedisOptions → RedisClient W RedisKeyRecord
  pub new_quotas_client : RedisOptions → RedisClient W RedisQuotaRecord
  pub new_apikeys_client : RedisOptions → RedisClient W RedisApiKeyRecord
  pub level_string : ℤ → Bytes
  pub listen_and_serve : Bytes → (Bytes → Bytes → Request W → W → W) → Act W GoError

module _ {W : Type 0} (console : Console W) (system : System W) (amqp : Amqp W) (lib : Libraries W)
    (env : Environment W) (uuid : Uuid) (version : Bytes) where
  -- One handler of events is subscribed.
  unfoldable pub event_publisher : amqp.Channel → Publisher W
  event_publisher ch =
      subscribe new_publisher (rabbitmq_event_handler (amqp.broker ch))
        (new_apikey_used_event [] customkey [] ∷ [])

  unfoldable pub server_handlers : PasteOptions → amqp.Channel → Handlers W
  unfolding event_publisher
  server_handlers opts ch =
      handlers_factory env uuid version
        (system.new_records_client (new_redis_client_options opts 0))
        (system.new_quotas_client (new_redis_client_options opts 1))
        (system.new_apikeys_client (new_redis_client_options opts 2)) opts.enable_healthcheck
        (event_publisher ch) default_quota_config

  -- The server runs until it fails; what is logged before is left out.
  unfoldable pub serve_forever : PasteOptions → amqp.Channel → Exit W
  unfolding server_handlers serve_http
  serve_forever opts ch w =
      let handler = serve_http lib (server_handlers opts ch) (features opts) in
      let (e, w') = system.listen_and_serve (host_port opts.host opts.port) handler w in
      (1, console.stderr (codes "Error: " ++ console.error_text e) w')

  abbrev started : PasteOptions → Result LoggerHandler → Exit W
  unfolding serve_forever
  started opts (err e) w = (1, console.stderr (codes "Cant get logger: " ++ console.error_text e) w)
  started opts (ok logger) w =
      let opts' = with_redis_host (system.getenv (codes "REDIS_HOST")) opts in
      let url = broker_connection_url (system.getenv (codes "BROKER_HOST")) opts' in
      outcome (init_broker_channel amqp url w) (λ ch w'. serve_forever opts' ch w')
        (λ e w'. (1, w'))

  unfoldable pub run_with : PasteOptions → Exit W
  unfolding started
  run_with opts w =
      if opts.show_version
      then (0, console.stdout (version ++ (10 ∷ [])) w)
      else started opts (new_logger_handler system.level_string opts) w

  unfoldable pub run_server : List Bytes → Exit W
  unfolding run_with
  run_server args w =
      outcome (system.parse_args args w) (λ parsed w'. run_with parsed.0 w')
        (λ e w'. (
          2,
          console.stderr (codes "Parse params error: " ++ console.error_text e ++ (10 ∷ [])) w',
        ))
