-- ===== src/Infrastructure/RecordRepo.antt =====
-- internal/infrastructure/repository/record.go: the repository of records. A body is a value here.
-- Pool/Repository has the methods with the slices and the shared buffers of the source; Pool/Agrees
-- compares the two, which differ where `compress` takes the buffer that the body was read into.
pub mod Read
pub mod Write
pub mod Store
pub mod Persistent
pub mod Renewed
use paste_thek4n_ru.Prelude.{ℕ, Bool, not, ltb, length, if◌then◌else◌}
use paste_thek4n_ru.Prelude.Int.{ℤ}
use paste_thek4n_ru.Prelude.Bytes.{Bytes}
use paste_thek4n_ru.Errors.{sentinel, record_not_found}
use paste_thek4n_ru.Exec.{Exec, pure, lift, perform, wrap, fail_if, ◌>>=◌, ◌>>◌}
use paste_thek4n_ru.Config.{CachingConfig}
use paste_thek4n_ru.Domain.Expiration.{Clock, new_expiration_date_from_ttl}
use paste_thek4n_ru.Domain.Record.Getters
use paste_thek4n_ru.Domain.Record.{Record, new_record, ttl}
use paste_thek4n_ru.Application.Repository.{RecordRepository}
use paste_thek4n_ru.Infrastructure.Redis.{RedisClient}
use paste_thek4n_ru.Infrastructure.Gzip.{Gzip, compress, decompress, is_compressed}
use paste_thek4n_ru.Infrastructure.KeyGen
use paste_thek4n_ru.Infrastructure.KeyGen.{KeySource}

pub record RedisKeyRecord : Type 0 where
  pub body : Bytes
  pub ttl : ℤ
  pub clicks : ℕ
  pub countdown : ℕ
  pub eternal : Bool
  pub url : Bool

-- The client, the configuration, and the parts of the environment that the methods use: the
-- clock, compress/gzip, and of `source` the random numbers and the context.
pub record RedisRecordRepository (W : Type 0) : Type 0 where
  pub client : RedisClient W RedisKeyRecord
  pub config : CachingConfig
  pub clock : Clock W
  pub gzip : Gzip
  pub rand_int : ℕ → Exec W ℕ
  pub ctx_done : W → Bool × W

module _ {W : Type 0} (r : RedisRecordRepository W) where
  unfoldable pub exists : Bytes → Exec W Bool
  exists key = do
    keys_number ← wrap "fail to check exists for key" (r.client.exists key)
    pure (ltb 0 keys_number)

  -- The body of a hash, as it was before `compress`.
  unfoldable pub plain_body : Bytes → Exec W Bytes
  plain_body body =
      if is_compressed body
      then wrap "fail to decompress compressed body"
          (lift (decompress r.gzip body r.config.max_body_size))
      else pure body

  -- The body that is written.
  unfoldable pub packed_body : Bytes → Exec W Bytes
  packed_body body =
      if ltb r.config.compress_threshold_bytes (length body)
      then wrap "failed to compress" (lift (compress r.gzip body))
      else pure body

  unfoldable pub get_by_key : Bytes → Exec W Record
  unfolding exists plain_body
  get_by_key key = do
    found ← wrap "fail to check record existing by key" (exists key)
    fail_if (not found) (sentinel record_not_found)
    hash ← wrap "fail to get record by key" (r.client.hget_all_scan key)
    body ← plain_body hash.body
    expiration_date ← perform (new_expiration_date_from_ttl r.clock hash.ttl)
    pure (new_record key expiration_date hash.countdown hash.eternal hash.clicks body hash.url)

  -- The last step of `SetByKey`: a record that is not eternal gets a timeout.
  unfoldable pub set_expire : Bytes → Record → Exec W (Unit {0})
  set_expire key rec' = if Getters.expiration_date_eternal rec' then pure tt else (do
    left ← perform (ttl r.clock rec')
    wrap "failed to set expire for key" (r.client.expire key left))

  unfoldable pub set_by_key : Bytes → Record → Exec W (Unit {0})
  set_by_key key rec' = do
    left ← perform (ttl r.clock rec')
    body ← packed_body (Getters.r_get_body rec')
    wrap "failed to set key" (
        r.client.hset key (record {
          body = body;
          ttl = left;
          clicks = Getters.clicks rec';
          countdown = Getters.disposable_counter rec';
          eternal = Getters.disposable_counter_eternal rec';
          url = Getters.url rec';
        }))
    set_expire key rec'

  abbrev key_source : KeySource W
  key_source = record { rand_int = r.rand_int; ctx_done = r.ctx_done; exists = exists }

  unfoldable pub generate_unique_key : ℕ → ℕ → Exec W Bytes
  generate_unique_key min_length max_length =
      KeyGen.generate_unique_key key_source r.config.keys_charset
        r.config.attempts_to_increase_key_min_length max_length min_length

  abbrev pub record_repository : RecordRepository W
  record_repository = record {
    get_by_key = get_by_key;
    set_by_key = set_by_key;
    exists = exists;
    generate_unique_key = generate_unique_key;
  }
