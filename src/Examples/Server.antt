-- ===== src/Examples/Server.antt =====
-- The server of cmd/paste/paste.go over the memory of the examples.
use paste_thek4n_ru.Prelude.{◌≡◌, refl, true, false, [], ◌∷◌, ◌++◌, some}
use paste_thek4n_ru.Prelude.Int.{ℤ, pos}
use paste_thek4n_ru.Prelude.Bytes.{Bytes, codes, bytes_eq, elem}
use paste_thek4n_ru.Errors.{external}
use paste_thek4n_ru.Exec.{ok}
use paste_thek4n_ru.Config.{default_cache_validation_config}
use paste_thek4n_ru.Infrastructure.EventHandler.{Broker}
use paste_thek4n_ru.Std.ServeMux.{route}
use paste_thek4n_ru.Web.Params.{Values, parse_and_validate_request_params}
use paste_thek4n_ru.Web.Params
use paste_thek4n_ru.Web.Docs.{get_create_record_parameters}
use paste_thek4n_ru.Web.Docs.Parameters.{parse_documented}
use paste_thek4n_ru.Cmd.Options.{PasteOptions}
use paste_thek4n_ru.Cmd.Routes
use paste_thek4n_ru.Cmd.Routes.{Features, add_handlers}
use paste_thek4n_ru.Cmd.Routes.Reached.{link_path, reader}
use paste_thek4n_ru.Cmd.Frontend.{registered}
use paste_thek4n_ru.Cmd.Frontend.Reached.{route-registered}
use paste_thek4n_ru.Cmd.Server.{Libraries, Amqp, System, run_server, run_with}
use paste_thek4n_ru.Examples.World.{World, empty_world, client}
use paste_thek4n_ru.Examples.Quotas
use paste_thek4n_ru.Examples.ApiKeys
use paste_thek4n_ru.Examples.ApiKeys.{uuid}
use paste_thek4n_ru.Examples.Handlers.{query, parse_duration, response, http}
use paste_thek4n_ru.Examples.Commands.{console}
use paste_thek4n_ru.Examples.Factory.{environment}

abbrev features : Features
features = record { enable_healthcheck = true; enable_interactive_docs = true }

route-registered_example :
    (route (registered true features) (codes "GET") (link_path (codes "health"))
      ≡ some (reader features (codes "health")))
    × (route
          (registered true features)
          (codes "GET")
          (link_path (codes "health") ++ codes "clicks/")
        ≡ some (Routes.get_clicks, codes "health" ∷ []))
    × (route (registered true features) (codes "POST") (codes "/") ≡ some (Routes.cache, []))
unfolding elem
route-registered_example = route-registered true features (codes "health") refl refl

abbrev duration_string : ℤ → Bytes
duration_string d = codes "720h0m0s"

-- A query with a parameter more, which is not documented.
abbrev longer : Values
longer = (codes "utm", codes "x" ∷ []) ∷ query

parse_documented_example :
    parse_and_validate_request_params default_cache_validation_config parse_duration longer
    ≡ parse_and_validate_request_params default_cache_validation_config parse_duration query
unfolding Params.get bytes_eq get_create_record_parameters
parse_documented_example =
    parse_documented default_cache_validation_config duration_string parse_duration longer query (
      (λ _. refl),
      ((λ _. refl), ((λ _. refl), ((λ _. refl), ((λ _. refl), ((λ _. refl), ((λ _. refl), tt)))))),
    )

abbrev pub libraries : Libraries World
libraries = record {
  parse_duration = parse_duration;
  url_parse = λ url. ok (record { scheme = codes "https"; host = codes "localhost" });
  response = response;
  http = http;
  encode = λ health. [];
  duration_string = duration_string;
  execute = λ doc w. (ok tt, w);
  file_server = λ w. w;
  no_match = λ w. w;
  with_frontend = true;
  assets_server = λ w. w;
  index_server = λ w. w;
}

abbrev pub no_features : Features
no_features = record { enable_healthcheck = false; enable_interactive_docs = false }

abbrev options : PasteOptions
options = record {
  port = pos 80;
  host = codes "localhost";
  enable_healthcheck = true;
  db_port = pos 6379;
  db_host = codes "localhost";
  show_version = true;
  logger = codes "plain";
  log_level = codes "INFO";
  broker_host = codes "localhost";
  broker_port = pos 5672;
  broker_user = codes "guest";
  broker_password = codes "guest";
  enable_interactive_docs = false;
}

abbrev system : System World
system = record {
  parse_args = λ args w. (ok (options, args), w);
  getenv = λ name. [];
  new_records_client = λ o. client;
  new_quotas_client = λ o. Quotas.client;
  new_apikeys_client = λ o. ApiKeys.client;
  level_string = λ level. [];
  listen_and_serve = λ address handler w. (external "listen", w);
}

abbrev broker : Broker World
broker = record {
  marshal = λ usage. ok [];
  publish = λ exchange key mandatory immediate content_type body w. (ok tt, w);
}

abbrev amqp : Amqp World
amqp = record {
  Connection = Unit {0};
  Channel = Unit {0};
  dial = λ url w. (ok tt, w);
  channel = λ c w. (ok tt, w);
  exchange_declare = λ ch name kind durable deleted internal no_wait w. (ok tt, w);
  broker = λ ch. broker;
}

run_server_test :
    run_server console system amqp libraries environment uuid (codes "1") [] empty_world
    ≡ (0, empty_world)
unfolding run_server run_with
run_server_test = refl
