-- ===== src/Infrastructure/Redis.antt =====
-- github.com/redis/go-redis, as the repositories call it: one client for each database, whose
-- hashes hold the fields of one Go struct `F`. A parameter of the model.
pub mod Laws
pub mod Answers
pub mod Script
use paste_thek4n_ru.Prelude.{ℕ, String, List}
use paste_thek4n_ru.Prelude.Int.{ℤ}
use paste_thek4n_ru.Prelude.Bytes.{Bytes}
use paste_thek4n_ru.Exec.{Exec}

-- An argument of a Lua script.
pub data ScriptArg : Type 0 where
  text : Bytes → ScriptArg
  number : ℕ → ScriptArg
  integer : ℤ → ScriptArg

pub record RedisClient (W F : Type 0) : Type 0 where
  -- Exists(ctx, key).Uint64()
  pub exists : Bytes → Exec W ℕ
  -- HGetAll(ctx, key).Scan(&f), over a zero value
  pub hget_all_scan : Bytes → Exec W F
  -- HSet(ctx, key, f).Err()
  pub hset : Bytes → F → Exec W (Unit {0})
  pub expire : Bytes → ℤ → Exec W (Unit {0})
  pub del : Bytes → Exec W (Unit {0})
  -- Scan(ctx, cursor, match, count).Result()
  pub scan : ℕ → Bytes → ℕ → Exec W (List Bytes × ℕ)
  -- Eval(ctx, script, keys, args…).Err()
  pub eval : String → List Bytes → List ScriptArg → Exec W (Unit {0})
