-- ===== src/Cmd/Clients.antt =====
-- cmd/paste: the Redis clients that its commands open.
use paste_thek4n_ru.Prelude.{ℕ, suc, [], ◌∷◌, ◌++◌, ◌*◌}
use paste_thek4n_ru.Prelude.Int.{ℤ, pos, negsuc}
use paste_thek4n_ru.Prelude.Bytes.{Bytes, codes}
use paste_thek4n_ru.Config.{second}
use paste_thek4n_ru.Std.Itoa.{itoa}

-- github.com/redis/go-redis: `redis.Options`, the fields that are set.
pub record RedisOptions : Type 0 where
  pub addr : Bytes
  pub pool_size : ℕ
  pub password : Bytes
  pub username : Bytes
  pub db : ℕ
  pub max_retries : ℕ
  pub dial_timeout : ℕ
  pub write_timeout : ℕ

-- "%d"
abbrev pub decimal : ℤ → Bytes
decimal (pos n) = itoa n
decimal (negsuc n) = 45 ∷ itoa (suc n)

abbrev pub host_port : Bytes → ℤ → Bytes
host_port host port = host ++ codes ":" ++ decimal port

abbrev pub redis_options : Bytes → ℤ → ℕ → RedisOptions
redis_options host port db = record {
  addr = host_port host port;
  pool_size = 100;
  password = [];
  username = [];
  db = db;
  max_retries = 5;
  dial_timeout = 10 * second;
  write_timeout = 5 * second;
}
