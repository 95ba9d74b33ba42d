-- ===== src/Examples/Persistent.antt =====
-- Requests for a record with no time to live and for one that lives an hour, over Redis in memory.
use paste_thek4n_ru.Prelude.{arith, ◌≡◌, refl, false, some, ◌∷◌}
use paste_thek4n_ru.Prelude.Int.{pos}
use paste_thek4n_ru.Prelude.Bytes.{Bytes, codes, bytes_eq}
use paste_thek4n_ru.Application.Repository.Contract.{Content}
use paste_thek4n_ru.Config.{hour}
use paste_thek4n_ru.Application.Get.Disposable.{count_answers}
use paste_thek4n_ru.Infrastructure.Redis.Answers.{IsAnswering}
use paste_thek4n_ru.Infrastructure.Gzip.{compress, is_compressed}
use paste_thek4n_ru.Infrastructure.RecordRepo.{RedisKeyRecord, record_repository}
use paste_thek4n_ru.Infrastructure.RecordRepo.Read.{empty_record, decode}
use paste_thek4n_ru.Infrastructure.RecordRepo.Persistent.{
  IsWriting, Persists, count_answers-Persists,
}
use paste_thek4n_ru.Examples.World.{
  World, put, put-same, empty_world, clock, client, redis_repository,
}

abbrev notes : Bytes
notes = codes "notes"

abbrev stored : RedisKeyRecord
stored = record {
  body = codes "hello";
  ttl = pos 0;
  clicks = 0;
  countdown = 2;
  eternal = false;
  url = false;
}

abbrev content : Content
content = record { body = codes "hello"; clicks = 0; countdown = 2; eternal = false; url = false }

abbrev holding : World
holding = record empty_world { hashes = put notes (some stored) empty_world.hashes }

answering : IsAnswering client empty_record (λ w. w.hashes)
answering = record { exists_eq = λ k w. (w, refl, refl); hget_eq = λ k w. (w, refl, refl) }

writing : IsWriting redis_repository (λ w. w.hashes) notes
unfolding compress
writing = record {
  hset_eq = λ f w.
      (record w { hashes = put notes (some f) w.hashes }, refl, put-same notes (some f) w.hashes);
  compressed = λ body. (0x1f ∷ 0x8b ∷ body, refl);
  now_kept = λ w. refl;
}

persists : Persists redis_repository (λ w. w.hashes) notes content holding
unfolding bytes_eq decode is_compressed
persists = record {
  stored = stored;
  held = refl;
  no_ttl = refl;
  decoded = refl;
  storable = record { short = omega arith; unmarked = refl };
}

count_answers-Persists_example :
    count_answers clock (record_repository redis_repository) 5 notes holding ≡ 2
count_answers-Persists_example =
    count_answers-Persists redis_repository (λ w. w.hashes) notes answering writing 5 content
      holding persists

-- The same for an hour.
abbrev dated : RedisKeyRecord
dated = record stored { ttl = pos hour }

abbrev holding_dated : World
holding_dated = record empty_world { hashes = put notes (some dated) empty_world.hashes }
