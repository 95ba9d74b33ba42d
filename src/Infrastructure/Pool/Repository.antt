-- ===== src/Infrastructure/Pool/Repository.antt =====
-- `GetByKey` and `SetByKey` of internal/infrastructure/repository/record.go with the buffers of the
-- pool, and `GetBody` of internal/application/service/get.go over them. A body is a slice here, which
-- a later `compress` may write over; `pick` says which idle buffer a call gets.
use paste_thek4n_ru.Prelude.{ℕ, Bool, not, ltb, length, if◌then◌else◌, []}
use paste_thek4n_ru.Prelude.Bytes.{Bytes}
use paste_thek4n_ru.Errors.{sentinel, record_not_found}
use paste_thek4n_ru.Exec.{Result, Exec, ok, pure, perform, wrap, fail_if, ◌>>=◌, ◌>>◌}
use paste_thek4n_ru.Domain.Expiration.{new_expiration_date_from_ttl}
use paste_thek4n_ru.Domain.Record
use paste_thek4n_ru.Domain.Record.Getters
use paste_thek4n_ru.Domain.Record.{Record, new_record, ttl}
use paste_thek4n_ru.Infrastructure.Gzip.{is_compressed}
use paste_thek4n_ru.Infrastructure.RecordRepo
use paste_thek4n_ru.Infrastructure.RecordRepo.{RedisRecordRepository, set_expire}
use paste_thek4n_ru.Infrastructure.Pool.{
  Slice, Memory, Runtime, contents, allocate, compress, decompress,
}

-- A record whose body is the slice; the field `body` is left empty.
abbrev pub Lent : Type 0
Lent = Record × Slice

module _ {W : Type 0} where
  abbrev pub attach : {A : Type 0} → Result A × W → Memory → Result A × (W × Memory)
  attach (x, w) m = (x, (w, m))

  abbrev pub on_world : {A : Type 0} → Exec W A → Exec (W × Memory) A
  on_world x (w, m) = attach (x w) m

  abbrev pub attach_memory : {A : Type 0} → W → Result A × Memory → Result A × (W × Memory)
  attach_memory w (x, m) = (x, (w, m))

  abbrev pub on_memory : {A : Type 0} → (Memory → Result A × Memory) → Exec (W × Memory) A
  on_memory x (w, m) = attach_memory w (x m)

  -- What a slice holds when it is read.
  abbrev pub bytes_of : Slice → Exec (W × Memory) Bytes
  bytes_of s (w, m) = (ok (contents m s), (w, m))

-- The body of a reply that is not compressed has an array of its own.
unfoldable pub reply : Bytes → Memory → Result Slice × Memory
unfolding allocate
reply body m = let (s, m') = allocate body (length body) m in (ok s, m')

module _ {W : Type 0} (go : Runtime) (r : RedisRecordRepository W) where
  unfoldable pub lent_body : ℕ → Bytes → Exec (W × Memory) Slice
  lent_body pick body =
      if is_compressed body
      then wrap "fail to decompress compressed body"
          (on_memory (decompress go pick body r.config.max_body_size))
      else on_memory (reply body)

  unfoldable pub get_by_key : ℕ → Bytes → Exec (W × Memory) Lent
  get_by_key pick key = do
    found ← on_world (wrap "fail to check record existing by key" (RecordRepo.exists r key))
    fail_if (not found) (sentinel record_not_found)
    hash ← on_world (wrap "fail to get record by key" (r.client.hget_all_scan key))
    body ← lent_body pick hash.body
    date ← on_world (perform (new_expiration_date_from_ttl r.clock hash.ttl))
    pure (new_record key date hash.countdown hash.eternal hash.clicks [] hash.url, body)

  -- What is sent: the body itself, or the slice of the buffer that it was packed into.
  unfoldable pub sent_body : ℕ → Slice → Exec (W × Memory) Slice
  sent_body pick body (w, m) =
      if ltb r.config.compress_threshold_bytes (length (contents m body))
      then wrap "failed to compress" (on_memory (compress go pick body)) (w, m)
      else (ok body, (w, m))

  unfoldable pub set_by_key : ℕ → Bytes → Record → Slice → Exec (W × Memory) (Unit {0})
  set_by_key pick key rec' body = do
    left ← on_world (perform (ttl r.clock rec'))
    sent ← sent_body pick body
    bytes ← bytes_of sent
    on_world (
        wrap "failed to set key" (
          r.client.hset key (record {
            body = bytes;
            ttl = left;
            clicks = Getters.clicks rec';
            countdown = Getters.disposable_counter rec';
            eternal = Getters.disposable_counter_eternal rec';
            url = Getters.url rec';
          })))
    on_world (set_expire r key rec')

  -- The answer's body is the slice of the record that was read.
  unfoldable pub get_body : ℕ → ℕ → Bytes → Exec (W × Memory) (Slice × Bool)
  get_body pick pick' key = do
    lent ← wrap "fail to get record from repository" (get_by_key pick key)
    read ← on_world (wrap "fail to read record body" (Record.get_body r.clock lent.0))
    wrap "fail to write record" (set_by_key pick' key read.1 lent.1)
    pure (lent.1, Getters.url read.1)
