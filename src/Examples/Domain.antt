-- ===== src/Examples/Domain.antt =====
-- Records, checks of requests, and queries.
use paste_thek4n_ru.Prelude.{◌≡◌, refl, ◌↔◌}
use paste_thek4n_ru.Exec.{ok}
use paste_thek4n_ru.Config.{default_cache_validation_config}
use paste_thek4n_ru.Application.Cache.Validate.{
  validate_privileged_request_params, validate_unprivileged_request_params,
}
use paste_thek4n_ru.Application.Cache.Validate.Accepts.{
  IsUnprivileged, IsPrivileged, validate-IsUnprivileged_iff, validate-IsPrivileged_iff,
}
use paste_thek4n_ru.Std.Runes.{all_runes_in}
use paste_thek4n_ru.Examples.Inputs.{hour_long, with_key}

validate-IsUnprivileged_iff_example :
    (validate_unprivileged_request_params default_cache_validation_config hour_long ≡ ok tt)
    ↔ IsUnprivileged default_cache_validation_config hour_long
validate-IsUnprivileged_iff_example =
    validate-IsUnprivileged_iff default_cache_validation_config hour_long

validate-IsPrivileged_iff_example :
    (validate_privileged_request_params default_cache_validation_config with_key ≡ ok tt)
    ↔ IsPrivileged default_cache_validation_config with_key
validate-IsPrivileged_iff_example =
    validate-IsPrivileged_iff default_cache_validation_config with_key

-- The runs that the first two are about.
hour_long-accepted :
    validate_unprivileged_request_params default_cache_validation_config hour_long ≡ ok tt
unfolding validate_unprivileged_request_params
hour_long-accepted = refl

with_key-accepted :
    validate_privileged_request_params default_cache_validation_config with_key ≡ ok tt
unfolding validate_privileged_request_params all_runes_in
with_key-accepted = refl
