-- ===== src/Cmd/Console.antt =====
-- cmd/paste: how its commands speak to the system. `W` is the world, in which the console stands.
use paste_thek4n_ru.Prelude.{ℕ}
use paste_thek4n_ru.Prelude.Bytes.{Bytes}
use paste_thek4n_ru.Errors.{GoError}

-- The two outputs, and the text of an error.
pub record Console (W : Type 0) : Type 0 where
  pub stdout : Bytes → W → W
  pub stderr : Bytes → W → W
  pub error_text : GoError → Bytes

-- A part of the program that ends it: the code of `os.Exit`, and the world then.
abbrev pub Exit : Type 0 → Type 0
Exit W = W → ℕ × W
