-- ===== src/Examples/Store.antt =====
-- The repository over Redis, its keys and its compression.
use paste_thek4n_ru.Prelude.{ℕ, zero, suc, ◌≡◌, ◌≤◌, ◌<◌, refl, false, some, arith, length}
use paste_thek4n_ru.Prelude.Bytes.{Bytes, codes, bytes_eq}
use paste_thek4n_ru.Exec.{Result, ok, err}
use paste_thek4n_ru.Errors.{plain}
use paste_thek4n_ru.Config.{charset}
use paste_thek4n_ru.Application.Repository.Contract.{IsRecordStore, content}
use paste_thek4n_ru.Domain.Record
use paste_thek4n_ru.Domain.Disposable
use paste_thek4n_ru.Domain.Expiration
use paste_thek4n_ru.Application.Get
use paste_thek4n_ru.Application.Get.Disposable.{count_answers, count_answers-le_countdown}
use paste_thek4n_ru.Infrastructure.KeyGen.{
  KeySource, generate_key, generate_round, generate_rounds, generate_unique_key, next_length,
  next_countdown,
}
use paste_thek4n_ru.Infrastructure.KeyGen.Keys.{IsOver, RandInRange}
use paste_thek4n_ru.Infrastructure.KeyGen.Loop.{generate_unique_key-total, generate_unique_key-free}
use paste_thek4n_ru.Infrastructure.RecordRepo.{record_repository}
use paste_thek4n_ru.Infrastructure.RecordRepo.Read.{Storable, view}
use paste_thek4n_ru.Infrastructure.RecordRepo.Store.{record_repository-IsRecordStore}
use paste_thek4n_ru.Examples.World.{
  World, put, same_value, empty_world, clock, redis_repository, client-IsRedis, environment_kept,
}
use paste_thek4n_ru.Examples.Memory.{memory, memory_store}
use paste_thek4n_ru.Examples.Inputs.{two_reads}

record_repository-IsRecordStore_example :
    (store : IsRecordStore clock (record_repository redis_repository)) × (store.view
      ≡ view redis_repository client-IsRedis)
    × (store.Storable ≡ Storable redis_repository)
record_repository-IsRecordStore_example =
    record_repository-IsRecordStore redis_repository client-IsRedis environment_kept

-- Random numbers that are always 0; below, one key is taken.
abbrev roll : ℕ → World → Result ℕ × World
roll zero w = (err (plain "no range"), w)
roll (suc n) w = (ok 0, w)

abbrev source : KeySource World
source = record {
  rand_int = roll;
  ctx_done = λ w. (false, w);
  exists = λ k w. (ok (bytes_eq k (codes "aaa")), w);
}

-- Two rounds find `aaa` taken, and the third makes a longer key.
made : generate_unique_key source charset 2 5 3 empty_world ≡ (ok (codes "aaaa"), empty_world)
unfolding generate_unique_key generate_rounds generate_round generate_key next_length bytes_eq
    next_countdown
made = refl

generate_unique_key-total_example :
    (r : Result Bytes × World) × (generate_rounds source charset 2 5 65536 3 2 empty_world ≡ some r)
    × (generate_unique_key source charset 2 5 3 empty_world ≡ r)
generate_unique_key-total_example =
    generate_unique_key-total source charset 2 5 3 empty_world (omega arith) (omega arith)
      (omega arith) (omega arith)

roll-below : (n : ℕ) (w : World) {v : ℕ} {w' : World} → roll n w ≡ (ok v, w') → v < n
roll-below zero w e = absurd (cc e)
roll-below (suc n) w {v} e = let same : 0 ≡ v = same_value e in omega (arith, same)

source-RandInRange : RandInRange source charset
source-RandInRange = record { below = roll-below }

generate_unique_key-free_example :
    (3 ≤ length (codes "aaaa"))
    × (length (codes "aaaa") ≤ 5)
    × IsOver charset (codes "aaaa")
    × ((w : World) × (source.exists (codes "aaaa") w ≡ (ok false, empty_world)))
generate_unique_key-free_example =
    generate_unique_key-free source charset 2 5 source-RandInRange 3 empty_world (omega arith)
      (omega arith) made

abbrev holding : World
holding = record empty_world { records = put (codes "notes") (some two_reads) empty_world.records }

holds : memory_store.view holding (codes "notes") ≡ some (content two_reads)
unfolding bytes_eq
holds = refl

count_answers-le_countdown_example : count_answers clock memory 5 (codes "notes") holding ≤ 2
count_answers-le_countdown_example =
    count_answers-le_countdown clock memory memory_store 5 (codes "notes") (content two_reads)
      holding holds tt refl

-- The bound is reached.
count_answers-notes : count_answers clock memory 5 (codes "notes") holding ≡ 2
unfolding count_answers Get.get_body Get.get Record.get_body bytes_eq Disposable.sub
    Disposable.exhausted Expiration.expired
count_answers-notes = refl
