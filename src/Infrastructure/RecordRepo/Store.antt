-- ===== src/Infrastructure/RecordRepo/Store.antt =====
-- The repository of internal/infrastructure/repository/record.go keeps the contract of a store of
-- records.
use paste_thek4n_ru.Prelude.{ℕ, ◌≡◌, refl, ◌⊎◌, inl, inr, none, ap}
use paste_thek4n_ru.Prelude.Bytes.{Bytes}
use paste_thek4n_ru.Exec.{ok}
use paste_thek4n_ru.Exec.Kept.{Kept}
use paste_thek4n_ru.Application.Repository.Contract.{IsRecordStore}
use paste_thek4n_ru.Infrastructure.Redis.Laws.{IsRedis}
use paste_thek4n_ru.Infrastructure.KeyGen.Kept.{SourceKept, generate_unique_key-kept}
use paste_thek4n_ru.Infrastructure.RecordRepo.{
  RedisRecordRepository, generate_unique_key, record_repository, key_source,
}
use paste_thek4n_ru.Infrastructure.RecordRepo.Read
use paste_thek4n_ru.Infrastructure.RecordRepo.Read.{empty_record, Storable, view, Kept-view}
use paste_thek4n_ru.Infrastructure.RecordRepo.Write
use paste_thek4n_ru.Infrastructure.KeyGen.Loop.{generate_unique_key-exists}

module _ {W : Type 0} (r : RedisRecordRepository W) (redis : IsRedis r.client empty_record) where
  -- Reading the clock, drawing a number and asking the context change no record.
  pub record EnvironmentKept : Type 0 where
    pub now : (w : W) → Kept redis.hash w (r.clock.now w).1
    pub rand_int : (n : ℕ) (w : W) → Kept redis.hash w (r.rand_int n w).1
    pub ctx_done : (w : W) → Kept redis.hash w (r.ctx_done w).1

  module _ (env : EnvironmentKept) where
    pub source_kept : SourceKept redis.hash (key_source r)
    source_kept = record {
      rand_int = env.rand_int;
      ctx_done = env.ctx_done;
      exists = Read.exists_kept r redis;
    }

    pub generate_kept : (m n : ℕ) (w : W) → Kept redis.hash w (generate_unique_key r m n w).1
    unfolding generate_unique_key
    generate_kept m n w = generate_unique_key-kept redis.hash (key_source r) source_kept _ _ n m w

    pub generate_ok :
        (m n : ℕ) (w : W) {k : Bytes} {w' : W}
        → generate_unique_key r m n w ≡ (ok k, w')
        → view r redis w' k ≡ none
    unfolding generate_unique_key
    generate_ok m n w {k} e =
        let (w1, free) = generate_unique_key-exists (key_source r) _ _ n m w e in
        Read.exists_ok r redis k w1 free

    pub others :
        (k j : Bytes) {w w' : W}
        → (redis.hash w' j ≡ redis.hash w j) ⊎ (redis.hash w' j ≡ none)
        → (view r redis w' j ≡ view r redis w j) ⊎ (view r redis w' j ≡ none)
    others k j (inl same) = inl (ap (Read.decode_hash r) same)
    others k j (inr gone) = inr (ap (Read.decode_hash r) gone)

    -- The store that the repository is: its view is what the hashes of Redis decode to.
    unfoldable pub redis_store : IsRecordStore r.clock (record_repository r)
    redis_store = record {
      view = view r redis;
      Storable = Storable r;
      now_kept = λ w. Kept-view r redis (env.now w);
      get_kept = λ k w. Kept-view r redis (Read.get_kept r redis env.now k w);
      get_ok = Read.get_ok r redis;
      set_ok = λ k c w s e. Write.set_ok r redis env.now k c w s e;
      set_err = λ k c w s e. Write.set_err r redis env.now k c w s e;
      set_others = λ k j c w h. others k j (Write.set_others r redis env.now k c w j h);
      exists_kept = λ k w. Kept-view r redis (Read.exists_kept r redis k w);
      exists_ok = λ k w e. Read.exists_ok r redis k w e;
      generate_kept = λ m n w. Kept-view r redis (generate_kept m n w);
      generate_ok = generate_ok;
    }

    -- Over Redis as documented, the repository keeps the contract of a store of records. What it
    -- holds under a key is what the hash of Redis there decodes to, and the contract's bodies that
    -- are given back as they were are those that are not over the threshold of compression and do not
    -- begin like a gzip stream. Reading the clock, drawing a number and asking the context change no
    -- record.
    pub record_repository-IsRecordStore :
        (store : IsRecordStore r.clock (record_repository r)) × (store.view ≡ view r redis)
        × (store.Storable ≡ Storable r)
    unfolding redis_store
    record_repository-IsRecordStore = (redis_store, refl, refl)
