-- ===== src/Application/Cache/Serve/Authorized.antt =====
-- Who is served by `Serve` of internal/application/service/cache.go.
use paste_thek4n_ru.Prelude.{◌≡◌, ◌≢◌, ◌⊎◌, inl, inr, Bool, true, false, [], arith, Bool-cases}
use paste_thek4n_ru.Prelude.Bytes.{Bytes, is_empty}
use paste_thek4n_ru.Exec.{ok, >>=-eq-ok}
use paste_thek4n_ru.Domain.Params.{CacheRequestParams}
use paste_thek4n_ru.Application.Cache.Validate.{
  validate_privileged_request_params, validate_unprivileged_request_params,
}
use paste_thek4n_ru.Application.Cache.Validate.Accepts.{
  IsUnprivileged, IsPrivileged, validate-IsUnprivileged_iff, validate-IsPrivileged_iff,
}
use paste_thek4n_ru.Application.Cache.Serve.{CacheService, check_apikey, identify, serve_as, serve}

module _ {W : Type 0} (s : CacheService W) where
  -- The key service has said of a key that it exists and that it is valid.
  pub record Vouched (apikey : Bytes) : Type 0 where
    pub given : apikey ≢ []
    pub before_exists : W
    pub after_exists : W
    pub found : s.apikey_service.exists apikey before_exists ≡ (ok true, after_exists)
    pub before_valid : W
    pub after_valid : W
    pub valid : s.apikey_service.check_valid apikey before_valid ≡ (ok true, after_valid)

  check_apikey-ok :
      (p : CacheRequestParams) (w : W) {b : Bool} {id : Bytes} {w' : W}
      → is_empty p.apikey ≡ false
      → check_apikey s p w ≡ (ok (b, id), w')
      → (b ≡ true) × Vouched p.apikey
  unfolding check_apikey
  check_apikey-ok p w {w'} h e =
      let w1 = (s.apikey_service.exists p.apikey w).1 in
      let w2 = (s.apikey_service.get_id p.apikey w1).1 in
      (
        ground arith,
        record {
          given = λ empty. cc (empty, h);
          before_exists = w;
          after_exists = w1;
          found = ground arith;
          before_valid = w2;
          after_valid = w';
          valid = ground arith;
        },
      )

  identify-ok :
      (p : CacheRequestParams) (w : W) {b : Bool} {id : Bytes} {w' : W}
      → identify s p w ≡ (ok (b, id), w')
      → (b ≡ false) ⊎ Vouched p.apikey
  unfolding identify
  identify-ok p w e = elim (Bool-cases (is_empty p.apikey)) [
    | inl none' ↦ inl (ground arith)
    | inr given ↦ inr (check_apikey-ok p w given (rw given at e)).1
  ]

  serve_as-privileged :
      (p : CacheRequestParams) (id : Bytes) (w : W) {k : Bytes} {w' : W}
      → serve_as s p (true, id) w ≡ (ok k, w')
      → validate_privileged_request_params s.validation_config p ≡ ok tt
  unfolding serve_as
  serve_as-privileged p id w e = ground arith

  serve_as-unprivileged :
      (p : CacheRequestParams) (id : Bytes) (w : W) {k : Bytes} {w' : W}
      → serve_as s p (false, id) w ≡ (ok k, w')
      → validate_unprivileged_request_params s.validation_config p ≡ ok tt
  unfolding serve_as
  serve_as-unprivileged p id w e = ground arith

  serve_as-ok :
      (p : CacheRequestParams) (b : Bool) (id : Bytes) (w : W) {k : Bytes} {w' : W}
      → (b ≡ false) ⊎ Vouched p.apikey
      → serve_as s p (b, id) w ≡ (ok k, w')
      → IsUnprivileged s.validation_config p
        ⊎ (Vouched p.apikey × IsPrivileged s.validation_config p)
  serve_as-ok p true id w (inl no') e = cc
  serve_as-ok p true id w (inr v) e =
      inr (v, (validate-IsPrivileged_iff s.validation_config p).0 (serve_as-privileged p id w e))
  serve_as-ok p false id w v e =
      inl ((validate-IsUnprivileged_iff s.validation_config p).0 (serve_as-unprivileged p id w e))

  -- A request that is served lies within the limits for everybody, or it lies within the
  -- privileged limits and gives an API key of which the key service has said that it exists and is
  -- valid.
  pub serve_authorized :
      (p : CacheRequestParams) (w : W) {k : Bytes} {w' : W}
      → serve s p w ≡ (ok k, w')
      → IsUnprivileged s.validation_config p
        ⊎ (Vouched p.apikey × IsPrivileged s.validation_config p)
  unfolding serve
  serve_authorized p w e =
      let (who, w1, h, rest) = >>=-eq-ok (identify s p) (serve_as s p) e in
      serve_as-ok p who.0 who.1 w1 (identify-ok p w h) rest
