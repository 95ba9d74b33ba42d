-- ===== src/Examples/Lent.antt =====
-- A request over Redis in memory whose record is packed, with two buffers in the pool.
use paste_thek4n_ru.Prelude.{◌≡◌, ◌≢◌, refl, false, some, [], ◌∷◌, arith, replicate}
use paste_thek4n_ru.Prelude.Int.{pos}
use paste_thek4n_ru.Prelude.Bytes.{Bytes, codes, bytes_eq}
use paste_thek4n_ru.Exec.{Result, ok, err}
use paste_thek4n_ru.Config.{default_caching_config}
use paste_thek4n_ru.Domain.Expiration.{new_expiration_date_from_ttl}
use paste_thek4n_ru.Domain.Record.{new_record}
use paste_thek4n_ru.Application.Get
use paste_thek4n_ru.Infrastructure.Gzip.{is_compressed}
use paste_thek4n_ru.Infrastructure.RecordRepo
use paste_thek4n_ru.Infrastructure.RecordRepo.{
  RedisKeyRecord, RedisRecordRepository, record_repository,
}
use paste_thek4n_ru.Infrastructure.Pool.{Memory, decompress, with_buffer, get}
use paste_thek4n_ru.Infrastructure.Pool.Sound.{IsSound}
use paste_thek4n_ru.Infrastructure.Pool.Own.{gzip_of}
use paste_thek4n_ru.Infrastructure.Pool.Repository.{Lent, lent_body, get_by_key, get_body}
use paste_thek4n_ru.Infrastructure.Pool.Agrees.{answer_seen, get_body-eq}
use paste_thek4n_ru.Examples.World.{World, put, empty_world, clock, redis_repository}
use paste_thek4n_ru.Examples.Buffers.{runtime, packed}

-- Bodies of more than 3 bytes are packed.
abbrev repository : RedisRecordRepository World
repository = record redis_repository {
  gzip = gzip_of runtime;
  config = record default_caching_config { compress_threshold_bytes = 3 };
}

abbrev notes : Bytes
notes = codes "notes"

abbrev stored : RedisKeyRecord
stored = record {
  body = packed;
  ttl = pos 0;
  clicks = 0;
  countdown = 2;
  eternal = false;
  url = false;
}

abbrev holding : World
holding = record empty_world { hashes = put notes (some stored) empty_world.hashes }

abbrev two_buffers : Memory
two_buffers = record {
  arrays = λ a. replicate 16 0;
  next = 2;
  idle = record { address = 0; size = 4 } ∷ record { address = 1; size = 0 } ∷ [];
}

two_buffers-IsSound : IsSound two_buffers
unfolding IsSound
two_buffers-IsSound = (omega arith, (omega arith, tt))

-- The second buffer of the pool is not the one of the body that was read.
abbrev Unlent : Result Lent × (World × Memory) → Type 0
Unlent (ok (r, s), (w, m)) = (get 1 m).0.address ≢ s.address
Unlent (err e, v) = Unit

read-Unlent : Unlent (get_by_key runtime repository 0 notes (holding, two_buffers))
unfolding get_by_key RecordRepo.exists bytes_eq lent_body is_compressed decompress with_buffer get
    new_expiration_date_from_ttl new_record
read-Unlent = λ e. absurd (omega (arith, e))

get_body-eq_example :
    answer_seen (get_body runtime repository 0 1 notes (holding, two_buffers))
    ≡ Get.get_body clock (record_repository repository) notes holding
get_body-eq_example =
    get_body-eq runtime repository refl 0 1 notes holding two_buffers two_buffers-IsSound
      (λ r s v h long. rw h at read-Unlent)
