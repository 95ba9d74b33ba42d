-- ===== src/Cmd/Options.antt =====
-- cmd/paste/paste.go: the options of the server, and what is read from them.
use paste_thek4n_ru.Prelude.{ℕ, Bool, false, not, ◌&&◌, ◌-◌, ◌==◌, leb, ◌++◌, map, if◌then◌else◌}
use paste_thek4n_ru.Prelude.Int.{ℤ, pos, negsuc}
use paste_thek4n_ru.Prelude.Bytes.{Bytes, codes, bytes_eq, is_empty}
use paste_thek4n_ru.Errors.{plain}
use paste_thek4n_ru.Exec.{Result, ok, err}
use paste_thek4n_ru.Cmd.Clients.{RedisOptions, redis_options, decimal}
use paste_thek4n_ru.Cmd.Routes.{Features}

pub record PasteOptions : Type 0 where
  pub port : ℤ
  pub host : Bytes
  pub enable_healthcheck : Bool
  pub db_port : ℤ
  pub db_host : Bytes
  pub show_version : Bool
  pub logger : Bytes
  pub log_level : Bytes
  pub broker_host : Bytes
  pub broker_port : ℤ
  pub broker_user : Bytes
  pub broker_password : Bytes
  pub enable_interactive_docs : Bool

-- What `addHandlers` reads of them.
abbrev pub features : PasteOptions → Features
features opts = record {
  enable_healthcheck = opts.enable_healthcheck;
  enable_interactive_docs = opts.enable_interactive_docs;
}

-- strings.ToUpper of an ASCII text, as the choices of the option are.
abbrev upper : ℕ → ℕ
upper b = if leb 97 b && leb b 122 then b - 32 else b

abbrev to_upper : Bytes → Bytes
to_upper s = map upper s

-- slog.Level: -8, -4, 0, 4 and 8.
abbrev pub level_trace : ℤ
level_trace = negsuc 7

abbrev pub level_debug : ℤ
level_debug = negsuc 3

-- A name that the map does not have gives the zero value.
unfoldable pub get_log_level : PasteOptions → ℤ
unfolding bytes_eq
get_log_level o =
    let name = to_upper o.log_level in
    if bytes_eq name (codes "TRACE")
    then level_trace
    else if bytes_eq name (codes "DEBUG")
    then level_debug
    else if bytes_eq name (codes "WARN")
    then pos 4
    else if bytes_eq name (codes "ERROR")
    then pos 8
    else pos 0

pub data LogFormat : Type 0 where
  text_format json_format : LogFormat

-- slog.Handler on the standard output, as it is made here: `label` is what `ReplaceAttr` writes of a
-- level.
pub record LoggerHandler : Type 0 where
  pub format : LogFormat
  pub level : ℤ
  pub add_source : Bool
  pub label : ℤ → Bytes

abbrev pub is_trace : ℤ → Bool
is_trace (negsuc n) = n == 7
is_trace (pos n) = false

-- With the options of `handlerOptions`; `level_string` is the method `String` of slog.Level.
logger_handler : (ℤ → Bytes) → PasteOptions → LogFormat → LoggerHandler
unfolding get_log_level
logger_handler level_string opts format = record {
  format = format;
  level = get_log_level opts;
  add_source = is_trace (get_log_level opts);
  label = λ level. if is_trace level then codes "TRACE" else level_string level;
}

unfoldable pub new_logger_handler : (ℤ → Bytes) → PasteOptions → Result LoggerHandler
unfolding logger_handler bytes_eq
new_logger_handler level_string opts =
    if bytes_eq opts.logger (codes "plain")
    then ok (logger_handler level_string opts text_format)
    else if bytes_eq opts.logger (codes "json")
    then ok (logger_handler level_string opts json_format)
    else err (plain "invalid logger")

abbrev pub new_redis_client_options : PasteOptions → ℕ → RedisOptions
new_redis_client_options opts db = redis_options opts.db_host opts.db_port db

-- The value of BROKER_HOST, empty when it is not set, goes first.
unfoldable pub get_broker_host : Bytes → PasteOptions → Bytes
get_broker_host broker_host opts = if is_empty broker_host then opts.broker_host else broker_host

-- The value of REDIS_HOST goes before the option too.
unfoldable pub with_redis_host : Bytes → PasteOptions → PasteOptions
with_redis_host redis_host opts =
    if not (is_empty redis_host) then record opts { db_host = redis_host } else opts

unfoldable pub broker_connection_url : Bytes → PasteOptions → Bytes
unfolding get_broker_host
broker_connection_url broker_host opts =
    codes "amqp://"
    ++ opts.broker_user
    ++ codes ":"
    ++ opts.broker_password
    ++ codes "@"
    ++ get_broker_host broker_host opts
    ++ codes ":"
    ++ decimal opts.broker_port
    ++ codes "/"
