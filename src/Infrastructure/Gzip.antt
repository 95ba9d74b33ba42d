-- ===== src/Infrastructure/Gzip.antt =====
-- internal/infrastructure/repository/record.go: `isCompressed`, and what `compress` and `decompress`
-- give as values, over compress/gzip, a parameter. The two functions with the buffers that they take
-- from the pool and give back are those of Pool, which are compared with the values here.
use paste_thek4n_ru.Prelude.{
  String, Bool, false, Option, none, some, ◌∷◌, ◌&&◌, ◌==◌, leb, length, take, if◌then◌else◌,
}
use paste_thek4n_ru.Prelude.Int.{ℤ, pos_part}
use paste_thek4n_ru.Prelude.Bytes.{Bytes}
use paste_thek4n_ru.Errors.{GoError, wrapped}
use paste_thek4n_ru.Exec.{Result, ok, err}

-- What a reader gives: its bytes, the error that ends them (`none` is io.EOF), and that of `Close`.
pub record Stream : Type 0 where
  pub content : Bytes
  pub failure : Option GoError
  pub close_failure : Option GoError

pub record Gzip : Type 0 where
  -- NewWriterLevel(buf, BestCompression), Write(data) and Close(), each with its error
  pub new_writer_level : Result (Unit {0})
  pub write : Bytes → Result (Unit {0})
  pub close : Bytes → Result Bytes
  -- NewReader
  pub new_reader : Bytes → Result Stream

infixl 5 ◌>>=◌
abbrev pub ◌>>=◌ : {A B : Type 0} → Result A → (A → Result B) → Result B
ok a >>= f = f a
err e >>= f = err e

abbrev pub wrap : {A : Type 0} → String → Result A → Result A
wrap m (ok a) = ok a
wrap m (err e) = err (wrapped m e)

abbrev pub fail_with : String → Option GoError → Result (Unit {0})
fail_with m none = ok tt
fail_with m (some e) = err (wrapped m e)

-- io.CopyN(buf, gz, limit): the first `limit` bytes, or all of them where the stream ends before.
unfoldable pub copy_n : Stream → ℤ → Result Bytes
copy_n stream limit =
    if leb (pos_part limit) (length stream.content)
    then ok (take (pos_part limit) stream.content)
    else (fail_with "failed to decompress data" stream.failure >>= λ _. ok stream.content)

module _ (gzip : Gzip) where
  unfoldable pub compress : Bytes → Result Bytes
  compress body = wrap "failed to create gzip writer" gzip.new_writer_level >>= λ _.
      wrap "failed to write data" (gzip.write body) >>= λ _.
      wrap "failed to close gzip writer" (gzip.close body)

  unfoldable pub decompress : Bytes → ℤ → Result Bytes
  unfolding copy_n
  decompress body limit = wrap "failed to create gzip reader" (gzip.new_reader body) >>= λ stream.
      copy_n stream limit >>= λ out.
      fail_with "failed to close gzip reader" stream.close_failure >>= λ _. ok out

unfoldable pub is_compressed : Bytes → Bool
is_compressed (a ∷ b ∷ _) = a == 0x1f && b == 0x8b
is_compressed _ = false
