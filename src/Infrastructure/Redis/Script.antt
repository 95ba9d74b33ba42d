-- ===== src/Infrastructure/Redis/Script.antt =====
-- What Redis does with a Lua script, as documented, for the statements that the script of
-- internal/infrastructure/repository/quota.go is written in, over hashes that hold one number.
use paste_thek4n_ru.Prelude.{ℕ, ◌≡◌, String, Option, none, some, List, [], ◌∷◌, if◌then◌else◌}
use paste_thek4n_ru.Prelude.Int.{pos, ltb_ℤ}
use paste_thek4n_ru.Prelude.Bytes.{Bytes, codes, bytes_eq, is_empty}
use paste_thek4n_ru.Exec.{ok}
use paste_thek4n_ru.Std.Spaces.{split, trim_space}
use paste_thek4n_ru.Infrastructure.Redis.{RedisClient, ScriptArg, text, number, integer}

-- The first key and the first three arguments are all that the statements name.
pub data Statement : Type 0 where
  -- redis.call("HSET", KEYS[1], ARGV[1], ARGV[2])
  hset_call : Statement
  -- redis.call("EXPIRE", KEYS[1], ARGV[3])
  expire_call : Statement
  -- return 1
  return_one : Statement

-- The statement that a line is, without the space around it; any other line is not known.
unfoldable pub statement_of : Bytes → Option Statement
statement_of line =
    if bytes_eq line (codes "redis.call(\"HSET\", KEYS[1], ARGV[1], ARGV[2])")
    then some hset_call
    else if bytes_eq line (codes "redis.call(\"EXPIRE\", KEYS[1], ARGV[3])")
    then some expire_call
    else if bytes_eq line (codes "return 1")
    then some return_one
    else none

abbrev pub cons? : Option Statement → Option (List Statement) → Option (List Statement)
cons? none _ = none
cons? (some _) none = none
cons? (some s) (some rest) = some (s ∷ rest)

-- Blank lines are left out.
unfoldable pub statements_of : List Bytes → Option (List Statement)
unfolding statement_of
statements_of [] = some []
statements_of (line ∷ lines) =
    let rest = statements_of lines in
    let stripped = trim_space line in
    if is_empty stripped then rest else cons? (statement_of stripped) rest

unfoldable pub parse : String → Option (List Statement)
unfolding statements_of
parse script = statements_of (split 10 (codes script))

module _ {F : Type 0} (field : Bytes) (of_value : ℕ → F) where
  abbrev pub Hashes : Type 0
  Hashes = Bytes → Option F

  abbrev put : Bytes → Option F → Hashes → Hashes
  put k x hashes j = if bytes_eq k j then x else hashes j

  -- HSET of the one field of the struct, and EXPIRE, which deletes a key if the time is not above
  -- zero; of calls with other arguments nothing is said.
  unfoldable pub step : Statement → List Bytes → List ScriptArg → Hashes → Option Hashes
  step hset_call (k ∷ []) (text f ∷ number v ∷ _) hashes =
      if bytes_eq f field then some (put k (some (of_value v)) hashes) else none
  step expire_call (k ∷ []) (_ ∷ _ ∷ integer t ∷ []) hashes =
      if ltb_ℤ (pos 0) t then some hashes else some (put k none hashes)
  step _ keys args hashes = none

  abbrev pub then_run : Option Hashes → (Hashes → Option Hashes) → Option Hashes
  then_run none rest = none
  then_run (some hashes) rest = rest hashes

  -- The statements one after the other, up to the return.
  unfoldable pub run : List Statement → List Bytes → List ScriptArg → Hashes → Option Hashes
  run [] keys args hashes = some hashes
  run (return_one ∷ _) keys args hashes = some hashes
  run (hset_call ∷ rest) keys args hashes =
      then_run (step hset_call keys args hashes) (run rest keys args)
  run (expire_call ∷ rest) keys args hashes =
      then_run (step expire_call keys args hashes) (run rest keys args)

  -- A script whose statements are known is run as a whole: its calls take effect in their order.
  pub record RunsScripts {W : Type 0} (client : RedisClient W F) (hash : W → Hashes) : Type 0 where
    pub eval_eq :
        (script : String) (keys : List Bytes) (args : List ScriptArg) (w : W)
        → (statements : List Statement) (hashes : Hashes) → parse script ≡ some statements
        → run statements keys args (hash w) ≡ some hashes
        → (w' : W) × (client.eval script keys args w ≡ (ok tt, w')) × (hash w' ≡ hashes)
