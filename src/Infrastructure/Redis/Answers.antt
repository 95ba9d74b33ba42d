-- ===== src/Infrastructure/Redis/Answers.antt =====
-- Redis where every command is answered and no key expires in between: what is relied on where a
-- result is shown to come, and of the databases whose keys have no timeout.
use paste_thek4n_ru.Prelude.{ℕ, ◌≡◌, Option, none, some}
use paste_thek4n_ru.Prelude.Bytes.{Bytes}
use paste_thek4n_ru.Exec.{ok}
use paste_thek4n_ru.Infrastructure.Redis.{RedisClient}

abbrev pub number_of {ℓ} : {A : Type ℓ} → Option A → ℕ
number_of none = 0
number_of (some _) = 1

-- The reply for a missing key leaves the struct as it was, at its zero value.
abbrev pub scanned {ℓ} : {A : Type ℓ} → A → Option A → A
scanned empty none = empty
scanned empty (some a) = a

module _ {W F : Type 0} (client : RedisClient W F) (empty : F) (hash : W → Bytes → Option F) where
  pub record IsAnswering : Type 0 where
    pub exists_eq :
        (k : Bytes) (w : W)
        → (v : W) × (client.exists k w ≡ (ok (number_of (hash w k)), v)) × (hash v ≡ hash w)
    pub hget_eq :
        (k : Bytes) (w : W)
        → (v : W) × (client.hget_all_scan k w ≡ (ok (scanned empty (hash w k)), v))
          × (hash v ≡ hash w)

  -- Commands may fail, but a key is there until it is removed.
  pub record IsLasting : Type 0 where
    pub exists_lasts : (k : Bytes) (w : W) → hash (client.exists k w).1 ≡ hash w
    pub hget_lasts : (k : Bytes) (w : W) → hash (client.hget_all_scan k w).1 ≡ hash w
    pub hget_ok :
        (k : Bytes) (w : W) {f : F} {w' : W}
        → client.hget_all_scan k w ≡ (ok f, w')
        → f ≡ scanned empty (hash w k)
    pub hset_ok :
        (k : Bytes) (f : F) (w : W) {w' : W} → client.hset k f w ≡ (ok tt, w') → hash w' k ≡ some f
