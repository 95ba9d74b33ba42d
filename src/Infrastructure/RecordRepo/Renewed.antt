-- ===== src/Infrastructure/RecordRepo/Renewed.antt =====
-- How long a record lives once it is read: the repository of
-- internal/infrastructure/repository/record.go under internal/application/service/get.go.
use paste_thek4n_ru.Prelude.{◌≡◌, false, Option}
use paste_thek4n_ru.Prelude.Int.{ℤ, ◌+ℤ◌}
use paste_thek4n_ru.Prelude.Bytes.{Bytes}
use paste_thek4n_ru.Exec.{ok}
use paste_thek4n_ru.Domain.Expiration
use paste_thek4n_ru.Domain.Expiration.{ExpirationDate}
use paste_thek4n_ru.Domain.Disposable
use paste_thek4n_ru.Domain.Record
use paste_thek4n_ru.Domain.Record.{Record}
use paste_thek4n_ru.Infrastructure.Redis.Answers.{IsAnswering}
use paste_thek4n_ru.Infrastructure.RecordRepo.{RedisKeyRecord, RedisRecordRepository}
use paste_thek4n_ru.Infrastructure.RecordRepo.Read.{empty_record}
use paste_thek4n_ru.Infrastructure.RecordRepo.Persistent.{IsWriting}

module _ {W : Type 0} (r : RedisRecordRepository W) (hash : W → Bytes → Option RedisKeyRecord)
    (key : Bytes) (now : ℤ) where
  -- The clock stands at a time, and EXPIRE is answered.
  pub record IsTimed : Type 0 where
    pub now_is : (w : W) → (r.clock.now w).0 ≡ now
    pub expire_eq :
        (d : ℤ) (w : W) → (v : W) × (r.client.expire key d w ≡ (ok tt, v)) × (hash v ≡ hash w)

  module _ (answers : IsAnswering r.client empty_record hash) (writes : IsWriting r hash key)
      (timed : IsTimed) where
    -- A date that is as far away as a time to live.
    abbrev in_time : ℤ → ExpirationDate
    in_time t = record { date = now +ℤ t; eternal = false }
