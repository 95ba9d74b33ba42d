-- ===== src/Domain/Params.antt =====
-- internal/domain/objectvalue/request.go: the parameters of a cache request.
use paste_thek4n_ru.Prelude.{ℕ, Bool}
use paste_thek4n_ru.Prelude.Int.{ℤ}
use paste_thek4n_ru.Prelude.Bytes.{Bytes}

pub record CacheRequestParams : Type 0 where
  pub apikey : Bytes
  pub requested_key : Bytes
  pub source_ip : Bytes
  pub body : Bytes
  pub ttl : ℤ
  pub body_len : ℤ
  pub requested_key_length : ℕ
  pub disposable : ℕ
  pub is_url : Bool
