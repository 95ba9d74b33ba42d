-- ===== src/Cmd/Server/Posted.antt =====
-- A request that caches a body and a later one for its link, both through the mux of
-- cmd/paste/paste.go.
use paste_thek4n_ru.Prelude.{
  ◌≡◌, refl, ap, sym, subst, ◌∙◌, inl, inr, ℕ, false, Option, Bool, [], ◌∷◌, Bool-cases, arith,
}
use paste_thek4n_ru.Prelude.Int.{ℤ}
use paste_thek4n_ru.Prelude.Bytes.{Bytes, codes, is_empty, elem}
use paste_thek4n_ru.Exec.{Result, ok, err, run-cases, Result-cases, outcome}
use paste_thek4n_ru.Exec.Kept.{Kept, Kept-trans}
use paste_thek4n_ru.Config.{CacheValidationConfig, QuotaConfig}
use paste_thek4n_ru.Domain.Params.{CacheRequestParams}
use paste_thek4n_ru.Domain.Event.{Publisher}
use paste_thek4n_ru.Application.Get
use paste_thek4n_ru.Application.Get.{GetBodyAnswer}
use paste_thek4n_ru.Application.Cache.Serve.{CacheService, serve}
use paste_thek4n_ru.Infrastructure.Redis.{RedisClient}
use paste_thek4n_ru.Infrastructure.Redis.Laws.{IsRedis}
use paste_thek4n_ru.Infrastructure.RecordRepo.{RedisKeyRecord}
use paste_thek4n_ru.Infrastructure.RecordRepo.Read.{empty_record, Storable}
use paste_thek4n_ru.Infrastructure.RecordRepo.Store.{EnvironmentKept}
use paste_thek4n_ru.Infrastructure.QuotaRepo.{RedisQuotaRecord}
use paste_thek4n_ru.Infrastructure.ApiKeyRepo.{RedisApiKeyRecord, Uuid}
use paste_thek4n_ru.Web.Answers.{Answer, ResponseWriter, answer_of, send, handle_cache_error}
use paste_thek4n_ru.Web.Request.{Request, get_client_ip}
use paste_thek4n_ru.Web.Params.{parse_and_validate_request_params}
use paste_thek4n_ru.Web.Cache.{
  validate_url, params_of, failed_with, read_request_body, read_params, send_success_response,
  cache_key, cache,
}
use paste_thek4n_ru.Web.Get as WebGet
use paste_thek4n_ru.Cmd.Routes
use paste_thek4n_ru.Cmd.Routes.{Features, add_handlers}
use paste_thek4n_ru.Cmd.Frontend.Reached.{route-registered}
use paste_thek4n_ru.Cmd.Routes.Reached.{link_path, reader}
use paste_thek4n_ru.Cmd.Factory.{Environment, Handlers, record_repository_of}
use paste_thek4n_ru.Cmd.Factory.RoundTrip.{Separate}
use paste_thek4n_ru.Cmd.Server.{Libraries, serve_http}
use paste_thek4n_ru.Cmd.Server.Link.{made, serve_http-serve}

pub serve_http-root :
    {W : Type 0} (lib : Libraries W) (h : Handlers W) (opts : Features) (r : Request W) (w : W)
    → serve_http lib h opts (codes "POST") (codes "/") r w
      ≡ cache h.config lib.parse_duration
          (validate_url lib.url_parse)
          h.cache_service
          lib.response
          r
          w
unfolding serve_http elem
serve_http-root lib h opts r w =
    rw (route-registered lib.with_frontend opts (codes "key") refl refl).2 refl

-- Writing a response leaves what the database holds as it is, or loses some of it.
pub record WritesApart {W F : Type 0} (response : ResponseWriter W) (hash : W → Bytes → Option F)
    : Type 0 where
  pub set_header : (name value : Bytes) (w : W) → Kept hash w (response.set_header name value w)
  pub write_header : (status : ℕ) (w : W) → Kept hash w (response.write_header status w)
  pub write : (text : Bytes) (w : W) → Kept hash w (response.write text w).1

module _ {W F : Type 0} (response : ResponseWriter W) (hash : W → Bytes → Option F)
    (apart : WritesApart response hash) where
  send-Kept : (a : Answer) (w : W) → Kept hash w (send response a w)
  unfolding send
  send-Kept (status, message) w = elim (Bool-cases (is_empty message)) [
    | inl e ↦ rw e (apart.write_header status w)
    | inr e ↦ rw e (
        Kept-trans hash (apart.write_header status w)
          (apart.write message (response.write_header status w)))
  ]

  -- What follows the successful answer of the service.
  abbrev closing : Result (Unit {0}) × W → W
  closing x = outcome x (λ _ w'. w') (λ e w'. handle_cache_error response e w')

  closing-Kept : (x : Result (Unit {0}) × W) → Kept hash x.1 (closing x)
  unfolding handle_cache_error
  closing-Kept (ok _, w) = λ k. inl refl
  closing-Kept (err e, w) = send-Kept (answer_of e) w

  failed_with-Kept :
      (message text : Bytes) (w : W) → Kept hash w (failed_with message (response.write text) w).1
  failed_with-Kept message text w k = ground (arith, apart.write text w k)

  module _ (cfg : CacheValidationConfig) (parse_duration : Bytes → Result ℤ) (url_ok : Bytes → Bool)
      (service : CacheService W) where
    success-Kept :
        (r : Request W) (key : Bytes) (w : W)
        → Kept hash w (send_success_response cfg parse_duration url_ok service response r key w).1
    unfolding send_success_response
    success-Kept r key w =
        let w1 = response.set_header (codes "Access-Control-Allow-Origin") (codes "*") w in
        let w2 =
          response.set_header (codes "Content-Type") (codes "text/plain; charset=utf-8") w1 in
        let w3 = response.write_header 201 w2 in
        Kept-trans hash (apart.set_header _ _ w) (
          Kept-trans hash (apart.set_header _ _ w1)
            (Kept-trans hash (apart.write_header 201 w2) (failed_with-Kept _ _ w3)))

    -- After the service has given a key, the handler only writes.
    cache-Kept :
        (r : Request W) (w : W) {p : CacheRequestParams} {w0 : W} {key : Bytes} {w1 : W}
        → read_params cfg parse_duration url_ok service response r w ≡ (ok p, w0)
        → serve service p w0 ≡ (ok key, w1)
        → Kept hash w1 (cache cfg parse_duration url_ok service response r w)
    unfolding cache cache_key
    cache-Kept r w {p} {w0} {key} {w1} parsed served =
        rw (parsed, served)
          (Kept-trans hash (success-Kept r key w1) (
            closing-Kept
              (send_success_response cfg parse_duration url_ok service response r key w1)))

    -- The body of the parameters is the one that was read.
    read_params-body :
        (r : Request W) (w : W) {p : CacheRequestParams} {w0 : W}
        → read_params cfg parse_duration url_ok service response r w ≡ (ok p, w0)
        → r.read_all w ≡ (ok p.body, w0)
    unfolding read_params read_request_body params_of
    read_params-body r w {p} {w0} h =
        elim (Result-cases (parse_and_validate_request_params cfg parse_duration r.query)) [
          | inr (e, hq) ↦ absurd (ground arith)
          | inl (q, hq) ↦ elim (run-cases (r.read_all w)) [
            | inr (e, w1, hb) ↦ absurd (ground arith)
            | inl (body, w1, hb) ↦
                let same : params_of (get_client_ip r) q body ≡ p = ground arith in
                let there : w1 ≡ w0 = ground arith in hb ∙ (rw (← same, there) refl)
          ]
        ]

module _ {W : Type 0} (lib : Libraries W) (env : Environment W)
    (records_client : RedisClient W RedisKeyRecord) (quota_client : RedisClient W RedisQuotaRecord)
    (apikey_client : RedisClient W RedisApiKeyRecord) (publisher : Publisher W)
    (quotas : QuotaConfig) (redis : IsRedis records_client empty_record) (uuid : Uuid)
    (version : Bytes) (opts : Features) where
  abbrev handlers : Handlers W
  handlers =
      made lib env records_client quota_client apikey_client publisher quotas redis uuid version
        opts

  -- The body of a request that was posted, and whose parameters and key the handler and the cache
  -- service have accepted, is the answer to a later request for the link of this key, when the get
  -- service answers: as a redirect exactly if the parameters said that it is a link, and as content
  -- otherwise. The body is not over the threshold of compression and does not begin like a gzip
  -- stream; the key is not empty, holds no slash, and is not the name of a page that is enabled. Redis
  -- is as documented, the other databases, the events, the clock, the random numbers and the contexts
  -- leave the records alone, and writing a response leaves them as they are, or loses some.
  pub serve_http-post :
      Separate env records_client quota_client apikey_client publisher quotas redis
      → EnvironmentKept (record_repository_of env records_client) redis
      → WritesApart lib.response redis.hash
      → (r r' : Request W) (w : W) {body : Bytes} {p : CacheRequestParams} {w0 : W} {key : Bytes}
        {w1 : W} {a : GetBodyAnswer} {w2 : W}
      → r.read_all w ≡ (ok body, w0)
      → Storable (record_repository_of env records_client) body
      → read_params handlers.config lib.parse_duration
          (validate_url lib.url_parse)
          handlers.cache_service
          lib.response
          r
          w
        ≡ (ok p, w0)
      → serve handlers.cache_service p w0 ≡ (ok key, w1)
      → is_empty key ≡ false
      → elem 47 key ≡ false
      → reader opts key ≡ (Routes.get, key ∷ [])
      → Get.get_body handlers.clock handlers.records key
          (serve_http lib handlers opts (codes "POST") (codes "/") r w)
        ≡ (ok a, w2)
      → serve_http lib handlers opts
          (codes "GET")
          (link_path key)
          r'
          (serve_http lib handlers opts (codes "POST") (codes "/") r w)
        ≡ WebGet.answer_body handlers.clock handlers.records lib.response lib.http
            (record { body = body; is_url = p.is_url })
            w2
  serve_http-post separate kept apart r r' w {body} {p} {w0} {key} {w1} {a} {w2} read storable
        parsed served full one free got =
      let same : p.body ≡ body = cc (
        read,
        read_params-body lib.response redis.hash apart handlers.config lib.parse_duration
            (validate_url lib.url_parse) handlers.cache_service r w parsed,
      ) in
      let posted = serve_http-root lib handlers opts r w in
      let after = serve_http lib handlers opts (codes "POST") (codes "/") r w in
      let between : Kept redis.hash w1 after =
        subst (λ v. Kept redis.hash w1 v) (sym posted)
          (cache-Kept lib.response redis.hash apart handlers.config lib.parse_duration
            (validate_url lib.url_parse) handlers.cache_service r w parsed served) in
      serve_http-serve lib env records_client quota_client apikey_client publisher quotas redis uuid
        version opts separate kept p w0 r'
        (subst (Storable (record_repository_of env records_client)) (sym same) storable) full one
        free served between got
      ∙ ap
          (λ (b : Bytes).
            WebGet.answer_body handlers.clock handlers.records lib.response lib.http
              (record { body = b; is_url = p.is_url }) w2)
          same
