-- ===== src/Infrastructure/Pool/Own.antt =====
-- `compress` and `decompress` of internal/infrastructure/repository/record.go over buffers that
-- nobody else uses, against the same without a pool.
use paste_thek4n_ru.Prelude.{
  ℕ, ◌*◌, ◌/◌, ◌<◌, ◌≡◌, ◌≢◌, refl, ap, sym, ◌∙◌, inl, inr, String, Option, none, some, List, [],
  ◌++◌, arith, leb, Bool-cases, length, take, take_all,
}
use paste_thek4n_ru.Prelude.Int.{ℤ, pos_part}
use paste_thek4n_ru.Prelude.Bytes.{Bytes}
use paste_thek4n_ru.Errors.{GoError, wrapped}
use paste_thek4n_ru.Exec.{Result, ok, err}
use paste_thek4n_ru.Infrastructure.Gzip.{Gzip, Stream, copy_n, wrap, fail_with, ◌>>=◌}
use paste_thek4n_ru.Infrastructure.Gzip
use paste_thek4n_ru.Infrastructure.Pool.{
  Slice, Memory, Runtime, Emission, emit, wrote, failed, closed, contents, allocate, take_out,
  taken, get, if_opened, if_read, with_buffer, put, reset, grow, write, emit_all, give_back, pack,
  compress, decompress, write_stage, close_stage, unpack, returned,
}
use paste_thek4n_ru.Infrastructure.Pool.Writes.{
  State, left, HasRoom, store_other, Apart, array_at, held, grow-Apart, grow-reset, write-Apart,
  write-held,
}

-- What a writer does with bytes that do not change.
abbrev write_outcome : Emission → Bytes → Result (Unit {0})
write_outcome (emit piece next) body = write_outcome (next body) body
write_outcome (wrote t) body = ok tt
write_outcome (failed e) body = err e
write_outcome closed body = ok tt

abbrev close_outcome : Emission → Bytes → Bytes → Result Bytes
close_outcome (emit piece next) body out = close_outcome (next body) body (out ++ piece)
close_outcome (wrote t) body out = close_outcome t body out
close_outcome (failed e) body out = err e
close_outcome closed body out = ok out

abbrev pub gzip_of : Runtime → Gzip
gzip_of go = record {
  new_writer_level = go.new_writer_level;
  write = write_outcome (emit go.header go.deflate);
  close = λ body. close_outcome (emit go.header go.deflate) body [];
  new_reader = go.new_reader;
}

abbrev run : String → Emission → Bytes → Bytes → Result Bytes
run stage (emit piece next) body out = run stage (next body) body (out ++ piece)
run stage (wrote t) body out = run close_stage t body out
run stage (failed e) body out = err (wrapped stage e)
run stage closed body out = ok out

run-close :
    (t : Emission) (body out : Bytes)
    → run close_stage t body out ≡ wrap close_stage (close_outcome t body out)
run-close (emit piece next) body out = run-close (next body) body (out ++ piece)
run-close (wrote t) body out = run-close t body out
run-close (failed e) body out = refl
run-close closed body out = refl

-- The bytes of a slice that was returned, as they are at this moment.
abbrev pub seen : Result Slice × Memory → Result Bytes
seen (ok s, m) = ok (contents m s)
seen (err e, m) = err e

module _ (go : Runtime) where
  emit_all-Apart :
      (stage : String) (t : Emission) (src : Slice) (a : ℕ) (b : Slice) (m : Memory)
      → Apart a (b, m)
      → array_at a (left (emit_all go stage t src b m)) ≡ m.arrays a
  unfolding emit_all
  emit_all-Apart stage (emit piece next) src a b m apart =
      let (apart', e) = write-Apart go piece a b m apart in
      let (b', m') = write go piece b m in
      emit_all-Apart stage (next (contents m' src)) src a b' m' apart' ∙ e
  emit_all-Apart stage (wrote t) src a b m apart = emit_all-Apart _ t src a b m apart
  emit_all-Apart stage (failed e) src a b m apart = refl
  emit_all-Apart stage closed src a b m apart = refl

  -- What a writer leaves in a buffer that its source does not share.
  emit_all-run :
      (stage : String) (t : Emission) (src : Slice) (b : Slice) (m : Memory) {body out : Bytes}
      → contents m src ≡ body
      → contents m b ≡ out
      → Apart src.address (b, m)
      → HasRoom (b, m)
      → seen (give_back go (emit_all go stage t src b m)) ≡ run stage t body out
  unfolding emit_all put
  emit_all-run stage (emit piece next) src b m {body} {out} es eb apart fits =
      let (apart', e) = write-Apart go piece src.address b m apart in
      let (eb', fits') = write-held go piece b m fits in
      let (b', m') = write go piece b m in
      let es' : contents m' src ≡ body = ap (take src.size) e ∙ es in
      emit_all-run stage (next (contents m' src)) src b' m' es'
        (eb' ∙ ap (λ (l : Bytes). l ++ piece) eb) apart' fits'
      ∙ ap (λ (x : Bytes). run stage (next x) body (out ++ piece)) es'
  emit_all-run stage (wrote t) src b m es eb apart fits = emit_all-run _ t src b m es eb apart fits
  emit_all-run stage (failed e) src b m es eb apart fits = refl
  emit_all-run stage closed src b m es eb apart fits = ap ok eb

taken-array :
    (o : Option (Slice × List Slice)) (a : ℕ) (m : Memory)
    → a < m.next
    → (a < (taken o m).1.next) × (array_at a (taken o m) ≡ m.arrays a)
unfolding taken allocate
taken-array none a m old = (omega arith, store_other m.arrays [] (ground arith))
taken-array (some (b, rest)) a m old = (old, refl)

get-array :
    (pick a : ℕ) (m : Memory)
    → a < m.next
    → (a < (get pick m).1.next) × (array_at a (get pick m) ≡ m.arrays a)
unfolding get
get-array pick a m old = taken-array (take_out pick m.idle) a m old

run-write :
    (t : Emission) (body out : Bytes)
    → run write_stage t body out ≡ (
        wrap write_stage (write_outcome t body) >>= λ _.
        wrap close_stage (close_outcome t body out))
run-write (emit piece next) body out = run-write (next body) body (out ++ piece)
run-write (wrote t) body out = run-close t body out
run-write (failed e) body out = refl
run-write closed body out = refl

reset-Apart : (a : ℕ) (b : Slice) (m : Memory) → b.address ≢ a → a < m.next → Apart a (reset b, m)
unfolding Apart
reset-Apart a b m other old = (other, old)

copy_n-take :
    (stream : Stream) (limit : ℤ) {out : Bytes}
    → copy_n stream limit ≡ ok out
    → out ≡ take (pos_part limit) stream.content
unfolding copy_n
copy_n-take stream limit h = elim (Bool-cases (leb (pos_part limit) (length stream.content))) [
  | inl e ↦ ground arith
  | inr e ↦ (let all = take_all (pos_part limit) stream.content (ground arith) in ground arith)
]

module _ (go : Runtime) where
  if_opened-seen :
      (r : Result (Unit {0})) (s : State) (x : Result Slice × Slice × Memory) {y : Result Bytes}
      → seen (give_back go x) ≡ y
      → seen (give_back go (if_opened go r s x))
        ≡ (wrap "failed to create gzip writer" r >>= λ _. y)
  if_opened-seen (ok _) s x e = e
  if_opened-seen (err e') s x e = refl

  if_opened-array :
      (r : Result (Unit {0})) (a : ℕ) (s : State) (x : Result Slice × Slice × Memory)
      → array_at a (left x) ≡ array_at a s
      → array_at a (left (if_opened go r s x)) ≡ array_at a s
  if_opened-array (ok _) a s x e = e
  if_opened-array (err e') a s x e = refl

  pack-seen :
      (src b : Slice) (m : Memory) {body : Bytes}
      → contents m src ≡ body
      → contents m b ≡ []
      → HasRoom (b, m)
      → Apart src.address (b, m)
      → seen (give_back go (pack go src (b, m))) ≡ Gzip.compress (gzip_of go) body
  unfolding pack Gzip.compress
  pack-seen src b m {body} es eb fits apart =
      if_opened-seen go.new_writer_level (b, m) _
        (emit_all-run go write_stage (emit go.header go.deflate) src b m es eb apart fits
          ∙ run-write (emit go.header go.deflate) body [])

  pack-array :
      (src : Slice) (a : ℕ) (b : Slice) (m : Memory)
      → Apart a (b, m)
      → array_at a (left (pack go src (b, m))) ≡ m.arrays a
  unfolding pack
  pack-array src a b m apart =
      if_opened-array go.new_writer_level a (b, m) _
        (emit_all-Apart go write_stage (emit go.header go.deflate) src a b m apart)

  -- If the buffer that the pool gives does not share the array of the body, `compress` returns a
  -- slice that holds what the function without a pool returns, or its error, and leaves the body
  -- as it was.
  pub compress-eq :
      (pick : ℕ) (src : Slice) (m : Memory)
      → src.address < m.next
      → (get pick m).0.address ≢ src.address
      → (seen (compress go pick src m) ≡ Gzip.compress (gzip_of go) (contents m src))
        × (contents (compress go pick src m).1 src ≡ contents m src)
  unfolding compress
  compress-eq pick src m old other =
      let (old', e) = get-array pick src.address m old in
      let (b, m') = get pick m in
      let (apart', e') =
        grow-Apart go (src.size / 2) src.address (reset b) m'
          (reset-Apart src.address b m' other old') in
      let (empty, fits) = grow-reset go (src.size / 2) b m' in
      let (b2, m2) = grow go (src.size / 2) (reset b) m' in
      let same : contents m2 src ≡ contents m src = ap (take src.size) (e' ∙ e) in
      (
        pack-seen src b2 m2 same empty fits apart',
        ap (take src.size) (pack-array src src.address b2 m2 apart' ∙ e' ∙ e),
      )

  returned-seen :
      (r : Result Bytes) (c : Option GoError) (s : State)
      → ((out : Bytes) → r ≡ ok out → held s ≡ out)
      → seen (give_back go (returned go r c s))
        ≡ (r >>= λ out. fail_with "failed to close gzip reader" c >>= λ _. ok out)
  unfolding put
  returned-seen (err e) c s h = refl
  returned-seen (ok out) none s h = ap ok (h out refl)
  returned-seen (ok out) (some e) s h = refl

  unpack-seen :
      (stream : Stream) (limit : ℤ) (b : Slice) (m : Memory)
      → contents m b ≡ []
      → HasRoom (b, m)
      → seen (give_back go (unpack go stream limit (b, m))) ≡ (
          copy_n stream limit >>= λ out.
          fail_with "failed to close gzip reader" stream.close_failure >>= λ _. ok out)
  unfolding unpack put
  unpack-seen stream limit b m empty fits =
      let (e, _) = write-held go (take (pos_part limit) stream.content) b m fits in
      returned-seen (copy_n stream limit) stream.close_failure _ (λ out h.
        e
        ∙ ap (λ (l : Bytes). l ++ take (pos_part limit) stream.content) empty
        ∙ sym (copy_n-take stream limit h))

  -- Whichever buffer the pool gives, `decompress` returns a slice that holds what the function
  -- without a pool returns, or its error.
  pub decompress-eq :
      (pick : ℕ) (packed : Bytes) (limit : ℤ) (m : Memory)
      → seen (decompress go pick packed limit m) ≡ Gzip.decompress (gzip_of go) packed limit
  unfolding decompress Gzip.decompress with_buffer unpack
  decompress-eq pick packed limit m = if_read-seen (go.new_reader packed)
    where
      if_read-seen :
          (r : Result Stream)
          → seen (if_read go r (λ stream. with_buffer go (length packed * 2) stream limit pick) m)
            ≡ (wrap "failed to create gzip reader" r >>= λ stream. copy_n stream limit >>= λ out.
                fail_with "failed to close gzip reader" stream.close_failure >>= λ _. ok out)
      if_read-seen (err e) = refl
      if_read-seen (ok stream) =
          let (b, m') = get pick m in
          let (empty, fits) = grow-reset go (length packed * 2) b m' in
          let (b2, m2) = grow go (length packed * 2) (reset b) m' in
          unpack-seen stream limit b2 m2 empty fits
