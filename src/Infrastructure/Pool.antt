-- ===== src/Infrastructure/Pool.antt =====
-- internal/infrastructure/repository/record.go: `bufferPool`, and `compress` and `decompress` as
-- they use its buffers. What they return is a slice of a buffer that goes back to the pool, so
-- that arrays, and who shares them, are part of the model. compress/gzip and what the allocator
-- adds to an array are parameters; sync.Pool may give any idle buffer or a new one.
pub mod Writes
pub mod Sound
pub mod Shared
pub mod Own
pub mod Repository
pub mod Agrees
use paste_thek4n_ru.Prelude.{
  ℕ, zero, suc, ◌+◌, ◌*◌, ◌/◌, String, Option, none, some, List, [], ◌∷◌, ◌++◌, ◌==◌, leb, length,
  take, replicate, if◌then◌else◌,
}
use paste_thek4n_ru.Prelude.Int.{ℤ, pos_part}
use paste_thek4n_ru.Prelude.Bytes.{Bytes}
use paste_thek4n_ru.Errors.{GoError, wrapped}
use paste_thek4n_ru.Exec.{Result, ok, err}
use paste_thek4n_ru.Infrastructure.Gzip.{Stream, copy_n}

-- A slice that begins where its array does; also a bytes.Buffer that nothing was read from.
pub record Slice : Type 0 where
  pub address : ℕ
  pub size : ℕ

-- The arrays, each with its whole capacity, the first free address, and the idle buffers.
pub record Memory : Type 0 where
  pub arrays : ℕ → Bytes
  pub next : ℕ
  pub idle : List Slice

abbrev pub drop : ℕ → Bytes → Bytes
drop zero xs = xs
drop (suc n) [] = []
drop (suc n) (x ∷ xs) = drop n xs

abbrev pub contents : Memory → Slice → Bytes
contents m s = take s.size (m.arrays s.address)

abbrev pub store : (ℕ → Bytes) → ℕ → Bytes → ℕ → Bytes
store arrays a xs b = if a == b then xs else arrays b

-- A new array.
unfoldable pub allocate : Bytes → ℕ → Memory → Slice × Memory
allocate xs size m = (
  record { address = m.next; size = size },
  record m { arrays = store m.arrays m.next xs; next = suc m.next },
)

unfoldable pub take_out : ℕ → List Slice → Option (Slice × List Slice)
take_out n [] = none
take_out zero (b ∷ bs) = some (b, bs)
take_out (suc n) (b ∷ bs) = elim (take_out n bs) [
  | none ↦ none
  | some (c, rest) ↦ some (c, b ∷ rest)
]

unfoldable pub taken : Option (Slice × List Slice) → Memory → Slice × Memory
unfolding allocate
taken none m = allocate [] 0 m
taken (some (b, rest)) m = (b, record m { idle = rest })

-- `bufferPool.Get()`: the idle buffer at this place, or what `New` gives.
unfoldable pub get : ℕ → Memory → Slice × Memory
unfolding take_out taken
get pick m = taken (take_out pick m.idle) m

-- `bufferPool.Put(buf)`
unfoldable pub put : Slice → Memory → Memory
put b m = record m { idle = b ∷ m.idle }

-- `buf.Reset()`
abbrev pub reset : Slice → Slice
reset b = record b { size = 0 }

-- What compress/gzip does from the first byte of `Write` to the end of `Close`: after each piece
-- that it writes it may look at the bytes that it was given, as they are then. `wrote` is where
-- `Write` returns.
pub data Emission : Type 0 where
  emit : Bytes → (Bytes → Emission) → Emission
  wrote : Emission → Emission
  failed : GoError → Emission
  closed : Emission

-- The allocator's `slack old needed` is what it gives beyond what was asked for. A writer first
-- writes its header, and reads what it was given after that.
pub record Runtime : Type 0 where
  pub slack : ℕ → ℕ → ℕ
  pub new_writer_level : Result (Unit {0})
  pub header : Bytes
  pub deflate : Bytes → Emission
  pub new_reader : Bytes → Result Stream

abbrev pub write_stage : String
write_stage = "failed to write data"

abbrev pub close_stage : String
close_stage = "failed to close gzip writer"

module _ (go : Runtime) where
  -- `buf.Grow(n)`: the array is kept if it has room, or else copied to a longer one.
  unfoldable pub grow : ℕ → Slice → Memory → Slice × Memory
  unfolding allocate
  grow n b m =
      let capacity = length (m.arrays b.address) in
      if leb (b.size + n) capacity
      then (b, m)
      else allocate (contents m b ++ replicate (n + go.slack capacity n) 0) b.size m

  -- Bytes into the array of a buffer that has room for them, behind what it holds.
  unfoldable pub fill : Bytes → Slice × Memory → Slice × Memory
  fill data' (b, m) = (
    record b { size = b.size + length data' },
    record m {
      arrays =
          store m.arrays b.address
            (contents m b ++ (data' ++ drop (b.size + length data') (m.arrays b.address)));
    },
  )

  -- `buf.Write(data)`
  unfoldable pub write : Bytes → Slice → Memory → Slice × Memory
  unfolding grow fill
  write data' b m = fill data' (grow (length data') b m)

  unfoldable pub emit_all :
      String → Emission → Slice → Slice → Memory → Result Slice × Slice × Memory
  unfolding write
  emit_all stage (emit piece next) src b m =
      let (b', m') = write piece b m in emit_all stage (next (contents m' src)) src b' m'
  emit_all stage (wrote t) src b m = emit_all close_stage t src b m
  emit_all stage (failed e) src b m = (err (wrapped stage e), b, m)
  emit_all stage closed src b m = (ok b, b, m)

  -- `defer bufferPool.Put(buf)`
  abbrev pub give_back : Result Slice × Slice × Memory → Result Slice × Memory
  give_back (r, b, m) = (r, put b m)

  -- What follows NewWriterLevel.
  abbrev pub if_opened :
      Result (Unit {0})
      → Slice × Memory
      → Result Slice × Slice × Memory
      → Result Slice × Slice × Memory
  if_opened (ok _) s rest = rest
  if_opened (err e) (b, m) rest = (err (wrapped "failed to create gzip writer" e), b, m)

  unfoldable pub pack : Slice → Slice × Memory → Result Slice × Slice × Memory
  unfolding emit_all
  pack src (b, m) =
      if_opened go.new_writer_level (b, m)
        (emit_all write_stage (emit go.header go.deflate) src b m)

  unfoldable pub compress : ℕ → Slice → Memory → Result Slice × Memory
  unfolding get put grow pack
  compress pick src m =
      let (b, m') = get pick m in give_back (pack src (grow (src.size / 2) (reset b) m'))

  abbrev pub returned :
      Result Bytes → Option GoError → Slice × Memory → Result Slice × Slice × Memory
  returned (err e) close_failure (b, m) = (err e, b, m)
  returned (ok _) none (b, m) = (ok b, b, m)
  returned (ok _) (some e) (b, m) = (err (wrapped "failed to close gzip reader" e), b, m)

  -- Of a reader, after `NewReader`: CopyN writes what it has read before its error is known.
  unfoldable pub unpack : Stream → ℤ → Slice × Memory → Result Slice × Slice × Memory
  unfolding write copy_n
  unpack stream limit (b, m) =
      returned (copy_n stream limit) stream.close_failure
        (write (take (pos_part limit) stream.content) b m)

  unfoldable pub with_buffer : ℕ → Stream → ℤ → ℕ → Memory → Result Slice × Memory
  unfolding get put grow unpack
  with_buffer room stream limit pick m =
      let (b, m') = get pick m in give_back (unpack stream limit (grow room (reset b) m'))

  abbrev pub if_read :
      Result Stream → (Stream → Memory → Result Slice × Memory) → Memory → Result Slice × Memory
  if_read (err e) rest m = (err (wrapped "failed to create gzip reader" e), m)
  if_read (ok stream) rest m = rest stream m

  -- The bytes of `data'` are those of the reply from Redis.
  unfoldable pub decompress : ℕ → Bytes → ℤ → Memory → Result Slice × Memory
  decompress pick data' limit =
      if_read (go.new_reader data') (λ stream. with_buffer (length data' * 2) stream limit pick)
