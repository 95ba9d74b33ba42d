-- ===== src/Examples/Handlers.antt =====
-- Requests over HTTP.
use paste_thek4n_ru.Prelude.{◌≡◌, refl, ◌⊎◌, inl, true, false, [], ◌∷◌, arith}
use paste_thek4n_ru.Prelude.Int.{ℤ, pos, ◌+ℤ◌}
use paste_thek4n_ru.Prelude.Bytes.{Bytes, codes, bytes_eq, elem}
use paste_thek4n_ru.Errors.{external, cache_error, sentinel, body_too_large}
use paste_thek4n_ru.Exec.{Result, ok, err, outcome}
use paste_thek4n_ru.Config.{default_cache_validation_config, hour}
use paste_thek4n_ru.Std.Atoi.{atoi}
use paste_thek4n_ru.Domain.Params.{CacheRequestParams}
use paste_thek4n_ru.Application.Cache.Validate.{validate_privileged_request_params}
use paste_thek4n_ru.Web.Params.{
  CacheRequestQuery, Values, get_url, check_disposable, get_disposable, check_length, get_length,
  check_key, get_requested_key, check_ttl, get_ttl, parse_and_validate_request_params,
}
use paste_thek4n_ru.Web.Params
use paste_thek4n_ru.Web.Params.Accepted.{IsSane, IsAccepted, parse-IsAccepted}
use paste_thek4n_ru.Web.Answers.{ResponseWriter, handle_cache_error}
use paste_thek4n_ru.Web.Request.{Request, get_client_ip}
use paste_thek4n_ru.Std.Net.{split_host_port, join_host_port}
use paste_thek4n_ru.Web.Request.Client.{Says, connected, get_client_ip-Says}
use paste_thek4n_ru.Web.Cache.{read_request_body, read_params, params_of, cache}
use paste_thek4n_ru.Web.Cache.Checked.{read_params-valid, cache_bad_query}
use paste_thek4n_ru.Web.Cache.Counted.{Made, new, read, IsCounted, Made-IsCounted}
use paste_thek4n_ru.Domain.Record.{Record, new_record, get_body}
use paste_thek4n_ru.Domain.Expiration.{new_expiration_date_from_ttl}
use paste_thek4n_ru.Domain.Expiration
use paste_thek4n_ru.Domain.Disposable
use paste_thek4n_ru.Application.Cache.Serve.{record_of}
use paste_thek4n_ru.Web.Get
use paste_thek4n_ru.Web.Get.{HttpLibrary, answer_not_found}
use paste_thek4n_ru.Web.Get.Answered.{get-gone}
use paste_thek4n_ru.Examples.World.{World, empty_world, clock}
use paste_thek4n_ru.Examples.Memory.{service, memory}

-- Reads nothing but `1h`.
abbrev pub parse_duration : Bytes → Result ℤ
parse_duration s = elim (bytes_eq s (codes "1h")) [
  | true ↦ ok (pos hour)
  | false ↦ err (external "time: invalid duration")
]

sane : IsSane default_cache_validation_config
sane = record {
  default_not_long = omega arith;
  default_not_short = omega arith;
  min_length = omega arith;
  max_length = omega arith;
  fits = omega arith;
}

abbrev pub query : Values
query =
    (codes "ttl", codes "1h" ∷ [])
    ∷ (codes "len", codes "12" ∷ [])
    ∷ (codes "disposable", codes "3" ∷ [])
    ∷ []

abbrev query_read : CacheRequestQuery
query_read = record {
  apikey = [];
  requested_key = [];
  ttl = pos hour;
  length = pos 12;
  disposable = pos 3;
  is_url = false;
}

parsed :
    parse_and_validate_request_params default_cache_validation_config parse_duration query
    ≡ ok query_read
unfolding parse_and_validate_request_params get_ttl get_length get_disposable get_url
    get_requested_key check_ttl check_length check_disposable check_key atoi bytes_eq Params.get
parsed = refl

parse-IsAccepted_example : IsAccepted default_cache_validation_config query_read
parse-IsAccepted_example =
    parse-IsAccepted default_cache_validation_config sane parse_duration query parsed

-- A response writer that writes nowhere.
abbrev pub response : ResponseWriter World
response = record {
  set_header = λ name value w. w;
  write_header = λ status w. w;
  write = λ body w. (ok tt, w);
}

abbrev pub request : Request World
request = record {
  forwarded_for = [];
  real_ip = [];
  remote_addr = codes "192.0.2.1:4711";
  query = query;
  has_tls = false;
  forwarded_proto = [];
  host = codes "localhost";
  read_all = λ w. (ok (codes "hello"), w);
}

abbrev params : CacheRequestParams
params = params_of (codes "192.0.2.1") query_read (codes "hello")

params_read :
    read_params default_cache_validation_config parse_duration
      (λ url. true)
      service
      response
      request
      empty_world
    ≡ (ok params, empty_world)
unfolding read_params get_client_ip split_host_port read_request_body params_of
    parse_and_validate_request_params get_ttl get_length get_disposable get_url get_requested_key
    check_ttl check_length check_disposable check_key atoi bytes_eq Params.get
params_read = refl

read_params-valid_example :
    (validate_privileged_request_params default_cache_validation_config params ≡ ok tt)
    ⊎ (validate_privileged_request_params default_cache_validation_config params
        ≡ err (sentinel body_too_large))
read_params-valid_example =
    read_params-valid default_cache_validation_config parse_duration (λ url. true) service response
      sane request empty_world params_read

-- The record of that request, after one of its three reads.
abbrev new_one : Record
new_one = (record_of service params empty_world).0

abbrev read_once : Record
read_once = outcome (get_body clock new_one empty_world) (λ r w. r.1) (λ e w. new_one)

was_read : get_body clock new_one empty_world ≡ (ok (codes "hello", read_once), empty_world)
unfolding get_body record_of new_expiration_date_from_ttl new_record params_of Expiration.expired
    Disposable.sub Disposable.exhausted ◌+ℤ◌
was_read = refl

read_once-Made :
    Made default_cache_validation_config parse_duration
      (λ url. true)
      service
      response
      params
      read_once
read_once-Made =
    read new_one read_once (codes "hello") empty_world empty_world
      (new request empty_world empty_world empty_world params_read) was_read

Made-IsCounted_example :
    IsCounted default_cache_validation_config parse_duration
      (λ url. true)
      service
      response
      params
      read_once
Made-IsCounted_example =
    Made-IsCounted default_cache_validation_config parse_duration (λ url. true) service response
      params read_once read_once-Made

abbrev bad_request : Request World
bad_request = record request { query = (codes "len", codes "x" ∷ []) ∷ [] }

bad_query :
    parse_and_validate_request_params default_cache_validation_config parse_duration
      bad_request.query
    ≡ err (cache_error (codes "Invalid 'len' parameter") 400)
unfolding parse_and_validate_request_params get_ttl get_length atoi bytes_eq Params.get
bad_query = refl

cache_bad_query_example :
    (m : Bytes) × (cache default_cache_validation_config parse_duration
        (λ url. true)
        service
        response
        bad_request
        empty_world
      ≡ handle_cache_error response (cache_error m 400) empty_world)
cache_bad_query_example =
    cache_bad_query default_cache_validation_config parse_duration (λ url. true) service response
      bad_request empty_world bad_query

abbrev pub http : HttpLibrary World
http = record {
  detect_content_type = λ body. codes "text/plain; charset=utf-8";
  redirect = λ url status w. w;
}

get-gone_example :
    Get.get clock memory response http (codes "notes") empty_world
    ≡ answer_not_found clock memory response http empty_world
get-gone_example = get-gone clock memory response http (codes "notes") empty_world (inl refl)

abbrev ipv6 : Bytes
ipv6 = codes "2001:db8::1"

abbrev ipv6_request : Request World
ipv6_request = record request { remote_addr = codes "[2001:db8::1]:4711" }

ipv6_said : Says ipv6_request ipv6
unfolding elem join_host_port
ipv6_said =
    connected (codes "4711") refl refl (record { no_open = refl; no_close = refl })
      (record { no_open = refl; no_close = refl }) refl refl

get_client_ip-Says_example : get_client_ip ipv6_request ≡ ipv6
get_client_ip-Says_example = get_client_ip-Says ipv6_request ipv6_said
