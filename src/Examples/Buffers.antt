-- ===== src/Examples/Buffers.antt =====
-- The pool of buffers of the record repository.
use paste_thek4n_ru.Prelude.{◌≡◌, ◌≢◌, refl, none, [], ◌∷◌, arith, length, take, replicate}
use paste_thek4n_ru.Prelude.Int.{pos}
use paste_thek4n_ru.Prelude.Bytes.{Bytes, codes}
use paste_thek4n_ru.Errors.{plain}
use paste_thek4n_ru.Exec.{Result, ok, err}
use paste_thek4n_ru.Infrastructure.Gzip
use paste_thek4n_ru.Infrastructure.Gzip.{Stream}
use paste_thek4n_ru.Infrastructure.Pool.{
  Slice, Memory, Runtime, emit, wrote, closed, contents, compress, decompress, with_buffer, store,
  get,
}
use paste_thek4n_ru.Infrastructure.Pool.Sound.{IsSound}
use paste_thek4n_ru.Infrastructure.Pool.Own.{seen, gzip_of, compress-eq, decompress-eq}
use paste_thek4n_ru.Infrastructure.Pool.Shared.{compress-decompress-Shared}

abbrev magic : Bytes
magic = 0x1f ∷ 0x8b ∷ []

abbrev new_reader : Bytes → Result Stream
new_reader (a ∷ b ∷ rest) = ok (record { content = rest; failure = none; close_failure = none })
new_reader _ = err (plain "unexpected EOF")

-- A writer that copies what it sees, behind the header.
abbrev pub runtime : Runtime
runtime = record {
  slack = λ capacity n. 3;
  new_writer_level = ok tt;
  header = magic;
  deflate = λ body. emit body (λ _. wrote closed);
  new_reader = new_reader;
}

abbrev one_buffer : Memory
one_buffer = record {
  arrays = λ a. replicate 16 0;
  next = 2;
  idle = record { address = 0; size = 4 } ∷ [];
}

abbrev pub packed : Bytes
packed = 0x1f ∷ 0x8b ∷ codes "hello"

abbrev body : Slice
body = record { address = 0; size = 5 }

abbrev after : Memory
after = record {
  arrays = store (λ a. replicate 16 0) 0 (104 ∷ 101 ∷ 108 ∷ 108 ∷ 111 ∷ replicate 11 0);
  next = 2;
  idle = body ∷ [];
}

one_buffer-IsSound : IsSound one_buffer
unfolding IsSound
one_buffer-IsSound = (omega arith, tt)

was_read : decompress runtime 0 packed (pos 10) one_buffer ≡ (ok body, after)
unfolding decompress with_buffer
was_read = refl

-- The body is no longer `hello`.
overwritten : contents (compress runtime 0 body after).1 body ≡ 0x1f ∷ 0x8b ∷ 0x1f ∷ 0x8b ∷ 108 ∷ []
unfolding compress
overwritten = refl

compress-decompress-Shared_example :
    take (length magic) (contents (compress runtime 0 body after).1 body) ≡ magic
compress-decompress-Shared_example =
    compress-decompress-Shared runtime 0 packed (pos 10) one_buffer one_buffer-IsSound was_read refl
      (omega arith)

abbrev other : Slice
other = record { address = 1; size = 5 }

get_other : (get 0 one_buffer).0.address ≢ other.address
unfolding get
get_other = λ e. absurd (omega (arith, e))

compress-eq_example :
    (seen (compress runtime 0 other one_buffer)
      ≡ Gzip.compress (gzip_of runtime) (contents one_buffer other))
    × (contents (compress runtime 0 other one_buffer).1 other ≡ contents one_buffer other)
compress-eq_example = compress-eq runtime 0 other one_buffer (omega arith) get_other

decompress-eq_example :
    seen (decompress runtime 0 packed (pos 10) one_buffer)
    ≡ Gzip.decompress (gzip_of runtime) packed (pos 10)
decompress-eq_example = decompress-eq runtime 0 packed (pos 10) one_buffer
