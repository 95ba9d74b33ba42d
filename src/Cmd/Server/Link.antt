-- ===== src/Cmd/Server/Link.antt =====
-- What the server answers to the link of a key: cmd/paste/paste.go.
use paste_thek4n_ru.Prelude.{◌≡◌, refl, ◌∙◌, false, [], ◌∷◌}
use paste_thek4n_ru.Prelude.Bytes.{Bytes, codes, is_empty, elem}
use paste_thek4n_ru.Exec.{ok}
use paste_thek4n_ru.Exec.Kept.{Kept}
use paste_thek4n_ru.Config.{QuotaConfig}
use paste_thek4n_ru.Domain.Params.{CacheRequestParams}
use paste_thek4n_ru.Domain.Event.{Publisher}
use paste_thek4n_ru.Application.Get
use paste_thek4n_ru.Application.Get.{GetBodyAnswer}
use paste_thek4n_ru.Application.Cache.Serve.{serve}
use paste_thek4n_ru.Infrastructure.Redis.{RedisClient}
use paste_thek4n_ru.Infrastructure.Redis.Laws.{IsRedis}
use paste_thek4n_ru.Infrastructure.RecordRepo.{RedisKeyRecord}
use paste_thek4n_ru.Infrastructure.RecordRepo.Read.{empty_record, Storable}
use paste_thek4n_ru.Infrastructure.RecordRepo.Store.{EnvironmentKept}
use paste_thek4n_ru.Infrastructure.QuotaRepo.{RedisQuotaRecord}
use paste_thek4n_ru.Infrastructure.ApiKeyRepo.{RedisApiKeyRecord, Uuid}
use paste_thek4n_ru.Web.Request.{Request}
use paste_thek4n_ru.Web.Get as WebGet
use paste_thek4n_ru.Cmd.Routes
use paste_thek4n_ru.Cmd.Routes.{Features}
use paste_thek4n_ru.Cmd.Routes.Reached.{link_path, reader}
use paste_thek4n_ru.Cmd.Frontend.Reached.{route-registered}
use paste_thek4n_ru.Cmd.Factory.{Environment, Handlers, record_repository_of, handlers_factory}
use paste_thek4n_ru.Cmd.Factory.RoundTrip.{Separate, handlers_factory-get_body}
use paste_thek4n_ru.Cmd.Server.{Libraries, serve_http}

-- A request for the path of a key's link, where no page has this name, goes to the handler `Get`.
serve_http-link_path :
    {W : Type 0} (lib : Libraries W) (h : Handlers W) (opts : Features) (key : Bytes)
    (r : Request W) (w : W)
    → is_empty key ≡ false
    → elem 47 key ≡ false
    → reader opts key ≡ (Routes.get, key ∷ [])
    → serve_http lib h opts (codes "GET") (link_path key) r w
      ≡ WebGet.get h.clock h.records lib.response lib.http key w
unfolding serve_http
serve_http-link_path lib h opts key r w full one free =
    rw ((route-registered lib.with_frontend opts key full one).0, free) refl

module _ {W : Type 0} (lib : Libraries W) (env : Environment W)
    (records_client : RedisClient W RedisKeyRecord) (quota_client : RedisClient W RedisQuotaRecord)
    (apikey_client : RedisClient W RedisApiKeyRecord) (publisher : Publisher W)
    (quotas : QuotaConfig) (redis : IsRedis records_client empty_record) (uuid : Uuid)
    (version : Bytes) (opts : Features) where
  -- The handlers of a server with these options.
  abbrev pub made : Handlers W
  made =
      handlers_factory env uuid version records_client quota_client apikey_client
        opts.enable_healthcheck publisher quotas

  -- The link of a key that the cache service has given answers later, when the get service does, with
  -- the body that was cached: as a redirect exactly if it was cached as a link, and as content
  -- otherwise; whatever was done between the two, if the records were left as they were or lost. The
  -- key is not empty, holds no slash, and is not the name of a page that is enabled; the body is not
  -- over the threshold of compression and does not begin like a gzip stream, and the databases are
  -- separate.
  pub serve_http-serve :
      Separate env records_client quota_client apikey_client publisher quotas redis
      → EnvironmentKept (record_repository_of env records_client) redis
      → (p : CacheRequestParams) (w : W) (r : Request W) {key : Bytes} {w1 v : W}
        {a : GetBodyAnswer} {w2 : W}
      → Storable (record_repository_of env records_client) p.body
      → is_empty key ≡ false
      → elem 47 key ≡ false
      → reader opts key ≡ (Routes.get, key ∷ [])
      → serve made.cache_service p w ≡ (ok key, w1)
      → Kept redis.hash w1 v
      → Get.get_body made.clock made.records key v ≡ (ok a, w2)
      → serve_http lib made opts (codes "GET") (link_path key) r v
        ≡ WebGet.answer_body made.clock made.records lib.response lib.http
            (record { body = p.body; is_url = p.is_url })
            w2
  unfolding WebGet.get
  serve_http-serve separate kept p w r {key} {w1} {v} {a} {w2} storable full one free served between
        got =
      let same =
        handlers_factory-get_body env records_client quota_client apikey_client publisher quotas
          redis separate uuid version opts.enable_healthcheck kept p w storable served between
          got in
      serve_http-link_path lib made opts key r v full one free ∙ (rw (got, same) refl)
