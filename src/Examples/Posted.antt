-- ===== src/Examples/Posted.antt =====
-- A request that is posted to the server and one for the link that it gives.
use paste_thek4n_ru.Prelude.{◌≡◌, refl, sym, subst, ◌∙◌, inl, false, [], ◌∷◌}
use paste_thek4n_ru.Prelude.Bytes.{codes, bytes_eq, elem}
use paste_thek4n_ru.Exec.{ok}
use paste_thek4n_ru.Config.{default_cache_validation_config, default_quota_config}
use paste_thek4n_ru.Std.Atoi.{atoi}
use paste_thek4n_ru.Std.Net.{split_host_port}
use paste_thek4n_ru.Application.Get
use paste_thek4n_ru.Web.Request.{Request, get_client_ip}
use paste_thek4n_ru.Web.Params
use paste_thek4n_ru.Web.Params.{
  parse_and_validate_request_params, get_ttl, get_length, get_disposable, get_url,
  get_requested_key, check_ttl, check_length, check_disposable, check_key,
}
use paste_thek4n_ru.Web.Cache.{
  validate_url, read_request_body, read_params, params_of, cache, cache_key, send_success_response,
}
use paste_thek4n_ru.Web.Get as WebGet
use paste_thek4n_ru.Cmd.Routes.Reached.{link_path}
use paste_thek4n_ru.Cmd.Server.{serve_http}
use paste_thek4n_ru.Cmd.Server.Posted.{WritesApart, serve_http-root, serve_http-post}
use paste_thek4n_ru.Examples.World.{World, empty_world, client, client-IsRedis, environment_kept}
use paste_thek4n_ru.Examples.Quotas
use paste_thek4n_ru.Examples.ApiKeys
use paste_thek4n_ru.Examples.ApiKeys.{uuid}
use paste_thek4n_ru.Examples.Memory.{only_key}
use paste_thek4n_ru.Examples.Inputs.{hour_long}
use paste_thek4n_ru.Examples.Handlers.{parse_duration, response, http, request}
use paste_thek4n_ru.Examples.Factory.{
  environment, publisher, handlers, separate, after_hour, after_get, storable, hour_served,
  hour_got, answer,
}
use paste_thek4n_ru.Examples.Server.{libraries, no_features}

abbrev hour_request : Request World
hour_request = record request {
  query =
      (codes "ttl", codes "1h" ∷ [])
      ∷ (codes "len", codes "14" ∷ [])
      ∷ (codes "disposable", codes "3" ∷ [])
      ∷ [];
}

hour_read :
    read_params default_cache_validation_config parse_duration
      (validate_url libraries.url_parse)
      handlers.cache_service
      response
      hour_request
      empty_world
    ≡ (ok hour_long, empty_world)
unfolding read_params get_client_ip split_host_port read_request_body params_of
    parse_and_validate_request_params get_ttl get_length get_disposable get_url get_requested_key
    check_ttl check_length check_disposable check_key atoi bytes_eq Params.get
hour_read = refl

posted :
    serve_http libraries handlers no_features (codes "POST") (codes "/") hour_request empty_world
    ≡ after_hour
unfolding cache cache_key send_success_response
posted =
    serve_http-root libraries handlers no_features hour_request empty_world
    ∙ (rw (hour_read, hour_served) refl)

writes_apart : WritesApart response client-IsRedis.hash
writes_apart = record {
  set_header = λ name value w k. inl refl;
  write_header = λ status w k. inl refl;
  write = λ text w k. inl refl;
}

serve_http-post_example :
    serve_http libraries handlers no_features (codes "GET") (link_path only_key) request (
      serve_http libraries handlers no_features (codes "POST") (codes "/") hour_request empty_world)
    ≡ WebGet.answer_body handlers.clock handlers.records response http
        (record { body = codes "hello"; is_url = false })
        after_get
unfolding elem
serve_http-post_example =
    serve_http-post libraries environment client Quotas.client ApiKeys.client publisher
      default_quota_config client-IsRedis uuid (codes "1") no_features separate environment_kept
      writes_apart hour_request request empty_world refl storable hour_read hour_served refl refl
      refl
      (subst (λ w. Get.get_body handlers.clock handlers.records only_key w ≡ (ok answer, after_get))
        (sym posted) hour_got)
