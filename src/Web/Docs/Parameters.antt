-- ===== src/Web/Docs/Parameters.antt =====
-- The parameters that internal/presentation/webhandlers/docs.go documents, and those that cache.go
-- beside it reads.
use paste_thek4n_ru.Prelude.{◌≡◌, refl, All}
use paste_thek4n_ru.Prelude.Int.{ℤ}
use paste_thek4n_ru.Prelude.Bytes.{Bytes}
use paste_thek4n_ru.Exec.{Result}
use paste_thek4n_ru.Config.{CacheValidationConfig}
use paste_thek4n_ru.Web.Params.{
  Values, get, get_url, get_disposable, get_length, get_requested_key, get_ttl,
  parse_and_validate_request_params,
}
use paste_thek4n_ru.Web.Docs.{in_query, Parameter, get_create_record_parameters}

-- Two queries give a parameter the same value, if it is one of the query.
abbrev pub Agrees : Values → Values → Parameter → Type 0
Agrees v v' p = p.location ≡ in_query → get v p.name ≡ get v' p.name

-- Two queries that agree on each documented query parameter are parsed to the same result: the
-- parser reads no parameter that the documentation leaves out.
pub parse_documented :
    (cfg : CacheValidationConfig) (duration_string : ℤ → Bytes) (parse_duration : Bytes → Result ℤ)
    (v v' : Values)
    → All (Agrees v v') (get_create_record_parameters cfg duration_string)
    → parse_and_validate_request_params cfg parse_duration v
      ≡ parse_and_validate_request_params cfg parse_duration v'
unfolding parse_and_validate_request_params get_ttl get_length get_disposable get_url
    get_requested_key get_create_record_parameters
parse_documented cfg duration_string parse_duration v v'
      (ttl, (disposable, (len, (url, (key, (apikey, _)))))) =
    rw (ttl refl, disposable refl, len refl, url refl, key refl, apikey refl) refl
