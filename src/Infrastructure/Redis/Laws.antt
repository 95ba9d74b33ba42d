-- ===== src/Infrastructure/Redis/Laws.antt =====
-- What the program relies on of Redis commands through go-redis, as documented. Any key may
-- expire at any moment.
use paste_thek4n_ru.Prelude.{ℕ, ◌≡◌, ◌⊎◌, false, Option, none, some, ltb}
use paste_thek4n_ru.Prelude.Int.{ℤ}
use paste_thek4n_ru.Prelude.Bytes.{Bytes, bytes_eq}
use paste_thek4n_ru.Errors.{GoError}
use paste_thek4n_ru.Exec.{ok, err}
use paste_thek4n_ru.Exec.Kept.{Kept}
use paste_thek4n_ru.Infrastructure.Redis.{RedisClient}

-- `empty` is the zero value of the struct, to which the reply for a missing key is scanned.
pub record IsRedis {W F : Type 0} (client : RedisClient W F) (empty : F) : Type 0 where
  -- the hash that a key holds
  pub hash : W → Bytes → Option F
  pub exists_kept : (k : Bytes) (w : W) → Kept hash w (client.exists k w).1
  pub exists_ok :
      (k : Bytes) (w : W) {n : ℕ} {w' : W}
      → client.exists k w ≡ (ok n, w')
      → ltb 0 n ≡ false
      → hash w' k ≡ none
  pub hget_kept : (k : Bytes) (w : W) → Kept hash w (client.hget_all_scan k w).1
  pub hget_ok :
      (k : Bytes) (w : W) {f : F} {w' : W}
      → client.hget_all_scan k w ≡ (ok f, w')
      → (hash w k ≡ some f) ⊎ (f ≡ empty)
  pub hset_ok :
      (k : Bytes) (f : F) (w : W) {w' : W}
      → client.hset k f w ≡ (ok tt, w')
      → (hash w' k ≡ some f) ⊎ (hash w' k ≡ none)
  pub hset_err :
      (k : Bytes) (f : F) (w : W) {e : GoError} {w' : W}
      → client.hset k f w ≡ (err e, w')
      → (hash w' k ≡ some f) ⊎ (hash w' k ≡ hash w k) ⊎ (hash w' k ≡ none)
  pub hset_others :
      (k j : Bytes) (f : F) (w : W)
      → bytes_eq k j ≡ false
      → (hash (client.hset k f w).1 j ≡ hash w j) ⊎ (hash (client.hset k f w).1 j ≡ none)
  pub expire_kept : (k : Bytes) (d : ℤ) (w : W) → Kept hash w (client.expire k d w).1
  pub del_ok : (k : Bytes) (w : W) {w' : W} → client.del k w ≡ (ok tt, w') → hash w' k ≡ none
  pub del_others :
      (k j : Bytes) (w : W)
      → bytes_eq k j ≡ false
      → (hash (client.del k w).1 j ≡ hash w j) ⊎ (hash (client.del k w).1 j ≡ none)
