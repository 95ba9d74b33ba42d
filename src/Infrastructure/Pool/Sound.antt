-- ===== src/Infrastructure/Pool/Sound.antt =====
-- The buffers of the pool of internal/infrastructure/repository/record.go stay in the memory.
use paste_thek4n_ru.Prelude.{
  ℕ, zero, suc, ◌+◌, ◌*◌, ◌/◌, ◌≤◌, ◌<◌, inl, inr, String, Option, none, some, List, [], ◌∷◌, ◌++◌,
  arith, length, take, replicate, All,
}
use paste_thek4n_ru.Prelude.Int.{ℤ, pos_part}
use paste_thek4n_ru.Prelude.Bytes.{Bytes}
use paste_thek4n_ru.Errors.{GoError}
use paste_thek4n_ru.Exec.{Result, ok, err}
use paste_thek4n_ru.Infrastructure.Gzip.{Stream, copy_n}
use paste_thek4n_ru.Infrastructure.Pool.{
  Slice, Memory, Runtime, Emission, emit, wrote, failed, closed, contents, allocate, take_out,
  taken, get, put, reset, grow, fill, write, emit_all, give_back, if_opened, if_read, with_buffer,
  pack, compress, decompress, unpack, returned, write_stage,
}
use paste_thek4n_ru.Infrastructure.Pool.Writes.{State, left, grow-cases}

-- Of a buffer that was taken out, if one was, and of those that stay.
abbrev OutAll {ℓ} : (Slice → Type ℓ) → Option (Slice × List Slice) → Type ℓ
OutAll P none = Unit
OutAll P (some (b, rest)) = P b × All P rest

take_out-All {ℓ} :
    (P : Slice → Type ℓ) (n : ℕ) (bs : List Slice) → All P bs → OutAll P (take_out n bs)
unfolding take_out
take_out-All P n [] h = tt
take_out-All P zero (c ∷ cs) h = h
take_out-All P (suc n) (c ∷ cs) (h, hs) = deeper (take_out n cs) (take_out-All P n cs hs)
  where
    deeper :
        (o : Option (Slice × List Slice))
        → OutAll P o
        → OutAll P (elim o [ none ↦ none | some (d, rest) ↦ some (d, c ∷ rest) ])
    deeper none h' = tt
    deeper (some (d, rest)) (h', hs') = (h', (h, hs'))

-- Every idle buffer has an array.
unfoldable pub IsSound : Memory → Type 0
IsSound m = All (λ b. b.address < m.next) m.idle

-- A buffer in use has one, too.
abbrev pub InUse : State → Type 0
InUse (b, m) = (b.address < m.next) × IsSound m

All-lt :
    (k n : ℕ) (bs : List Slice) → k ≤ n → All (λ b. b.address < k) bs → All (λ b. b.address < n) bs
All-lt k n [] h hs = tt
All-lt k n (b ∷ bs) h (hb, hs) = (omega arith, All-lt k n bs h hs)

allocate-InUse : (xs : Bytes) (n : ℕ) (m : Memory) → IsSound m → InUse (allocate xs n m)
unfolding allocate IsSound
allocate-InUse xs n m h = (omega arith, All-lt m.next (suc m.next) m.idle (omega arith) h)

taken-InUse :
    (o : Option (Slice × List Slice)) (m : Memory)
    → IsSound m
    → OutAll (λ b. b.address < m.next) o
    → InUse (taken o m)
unfolding taken IsSound
taken-InUse none m sound h = allocate-InUse [] 0 m sound
taken-InUse (some (b, rest)) m sound h = h

pub get-InUse : (pick : ℕ) (m : Memory) → IsSound m → InUse (get pick m)
unfolding get IsSound
get-InUse pick m sound =
    taken-InUse (take_out pick m.idle) m sound
      (take_out-All (λ b. b.address < m.next) pick m.idle sound)

put-IsSound : (b : Slice) (m : Memory) → InUse (b, m) → IsSound (put b m)
unfolding put IsSound
put-IsSound b m h = h

module _ (go : Runtime) where
  pub grow-InUse : (n : ℕ) (b : Slice) (m : Memory) → InUse (b, m) → InUse (grow go n b m)
  grow-InUse n b m h = elim (grow-cases go n b m) [
    | inl (e, _) ↦ rw e h
    | inr (k, e) ↦ rw e (allocate-InUse (contents m b ++ replicate (n + k) 0) b.size m h.1)
  ]

  fill-InUse : (d : Bytes) (b : Slice) (m : Memory) → InUse (b, m) → InUse (fill go d (b, m))
  unfolding fill IsSound
  fill-InUse d b m h = h

  pub write-InUse : (d : Bytes) (b : Slice) (m : Memory) → InUse (b, m) → InUse (write go d b m)
  unfolding write
  write-InUse d b m h =
      let (b', m') = grow go (length d) b m in fill-InUse d b' m' (grow-InUse (length d) b m h)

  emit_all-InUse :
      (stage : String) (t : Emission) (src b : Slice) (m : Memory)
      → InUse (b, m)
      → InUse (left (emit_all go stage t src b m))
  unfolding emit_all
  emit_all-InUse stage (emit piece next) src b m h =
      let (b', m') = write go piece b m in
      emit_all-InUse stage (next (contents m' src)) src b' m' (write-InUse piece b m h)
  emit_all-InUse stage (wrote t) src b m h = emit_all-InUse _ t src b m h
  emit_all-InUse stage (failed e) src b m h = h
  emit_all-InUse stage closed src b m h = h

  if_opened-InUse :
      (r : Result (Unit {0})) (s : State) (x : Result Slice × Slice × Memory)
      → InUse s
      → InUse (left x)
      → InUse (left (if_opened go r s x))
  if_opened-InUse (ok _) s x h h' = h'
  if_opened-InUse (err e) s x h h' = h

  give_back-IsSound :
      (x : Result Slice × Slice × Memory) → InUse (left x) → IsSound (give_back go x).1
  give_back-IsSound (r, b, m) h = put-IsSound b m h

  returned-InUse :
      (r : Result Bytes) (c : Option GoError) (s : State)
      → InUse s
      → InUse (left (returned go r c s))
  returned-InUse (err e) c s h = h
  returned-InUse (ok _) none s h = h
  returned-InUse (ok _) (some e) s h = h

  pub compress-IsSound :
      (pick : ℕ) (src : Slice) (m : Memory) → IsSound m → IsSound (compress go pick src m).1
  unfolding compress pack
  compress-IsSound pick src m sound =
      let (b, m') = get pick m in
      let (b2, m2) = grow go (src.size / 2) (reset b) m' in
      let h = grow-InUse (src.size / 2) (reset b) m' (get-InUse pick m sound) in
      give_back-IsSound (pack go src (b2, m2)) (
        if_opened-InUse go.new_writer_level (b2, m2) _ h
          (emit_all-InUse write_stage (emit go.header go.deflate) src b2 m2 h))

  if_read-IsSound :
      (r : Result Stream) (rest : Stream → Memory → Result Slice × Memory) (m : Memory)
      → IsSound m
      → ((stream : Stream) → IsSound (rest stream m).1)
      → IsSound (if_read go r rest m).1
  if_read-IsSound (err e) rest m h f = h
  if_read-IsSound (ok stream) rest m h f = f stream

  pub decompress-IsSound :
      (pick : ℕ) (packed : Bytes) (limit : ℤ) (m : Memory)
      → IsSound m
      → IsSound (decompress go pick packed limit m).1
  unfolding decompress with_buffer unpack
  decompress-IsSound pick packed limit m sound =
      if_read-IsSound (go.new_reader packed) _ m sound (λ stream.
        let (b, m') = get pick m in
        let (b2, m2) = grow go (length packed * 2) (reset b) m' in
        let h = grow-InUse (length packed * 2) (reset b) m' (get-InUse pick m sound) in
        give_back-IsSound (returned go (copy_n stream limit) stream.close_failure _) (
          returned-InUse (copy_n stream limit) stream.close_failure _
            (write-InUse (take (pos_part limit) stream.content) b2 m2 h)))
