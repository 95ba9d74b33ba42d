-- ===== src/Infrastructure/Pool/Shared.antt =====
-- What `compress` of internal/infrastructure/repository/record.go does to a body that shares its
-- array with a buffer of the pool.
use paste_thek4n_ru.Prelude.{
  ℕ, ◌+◌, ◌≤◌, ◌<◌, ◌≡◌, ◌≢◌, refl, ap, sym, subst, ◌∙◌, inl, inr, List, ◌∷◌, Option, none, some,
  ◌*◌, ◌/◌, String, ◌++◌, arith, length, take, replicate, length-take_le, ℕ_discrete,
}
use paste_thek4n_ru.Prelude.Bytes.{Bytes}
use paste_thek4n_ru.Prelude.Int.{ℤ, pos_part}
use paste_thek4n_ru.Errors.{GoError}
use paste_thek4n_ru.Infrastructure.Gzip.{Stream, copy_n}
use paste_thek4n_ru.Exec.{Result, ok, err}
use paste_thek4n_ru.Infrastructure.Pool.{
  Slice, Memory, Runtime, Emission, emit, wrote, failed, closed, contents, drop, allocate, grow,
  fill, write, reset, emit_all, pack, compress, decompress, put, get, take_out, taken, give_back,
  if_read, if_opened, with_buffer, unpack, returned, write_stage,
}
use paste_thek4n_ru.Infrastructure.Pool.Writes.{
  State, left, HasRoom, take-length_append, take-append, take-take, store_here, store_other,
  grow-cases, grow-keeps, grow-reset, write-held,
}
use paste_thek4n_ru.Infrastructure.Pool.Sound.{IsSound, get-InUse, grow-InUse, write-InUse}

module _ (go : Runtime) where
  -- The array at an address begins with these bytes, and a buffer that has it is past them.
  abbrev pub Marked : Bytes → ℕ → State → Type 0
  Marked h a (b, m) =
      (take (length h) (m.arrays a) ≡ h) × (b.address ≡ a → length h ≤ b.size) × (a < m.next)

  grow-Marked :
      (n : ℕ) (h : Bytes) (a : ℕ) (b : Slice) (m : Memory)
      → Marked h a (b, m)
      → Marked h a (grow go n b m)
  unfolding allocate
  grow-Marked n h a b m (e, past, old) = elim (grow-cases go n b m) [
    | inl (e', _) ↦ rw e' (e, past, old)
    | inr (k, e') ↦ rw e' (
      rw (store_other m.arrays (contents m b ++ replicate (n + k) 0) (old-not old)) e,
      (λ (same : m.next ≡ a). absurd (omega (arith, old, same))),
      omega arith,
    )
  ]
    where
      old-not : a < m.next → m.next ≢ a
      old-not h' = omega arith

  fill-Marked :
      (d h : Bytes) (a : ℕ) (b : Slice) (m : Memory)
      → b.size + length d ≤ length (m.arrays b.address)
      → Marked h a (b, m)
      → Marked h a (fill go d (b, m))
  unfolding fill
  fill-Marked d h a b m fits (e, past, old) = elim (ℕ_discrete b.address a) [
    | yes same ↦
        rw (← same, store_here m.arrays b.address (contents m b ++ (d ++ rest)))
          (
            take-append (length h) (contents m b) (d ++ rest) (omega (arith, shut, past same))
                ∙ take-take (length h) b.size (m.arrays b.address) (past same)
                ∙ (rw same e),
            (λ _. omega (arith, past same)),
            omega (arith, same, old),
          )
    | no other ↦ (rw (store_other m.arrays _ other) e, (λ s. absurd (other s)), old)
  ]
    where
      rest : Bytes
      rest = drop (b.size + length d) (m.arrays b.address)

      shut : length (contents m b) ≡ b.size
      shut = length-take_le b.size (m.arrays b.address) (omega arith)

  write-Marked :
      (d h : Bytes) (a : ℕ) (b : Slice) (m : Memory)
      → HasRoom (b, m)
      → Marked h a (b, m)
      → Marked h a (write go d b m)
  unfolding write
  write-Marked d h a b m fits marked =
      let (e, _, room) = grow-keeps go (length d) b m fits in
      let (b', m') = grow go (length d) b m in
      fill-Marked d h a b' m' (omega (arith, e, room)) (grow-Marked (length d) h a b m marked)

  emit_all-Marked :
      (stage : String) (t : Emission) (src : Slice) (h : Bytes) (a : ℕ) (b : Slice) (m : Memory)
      → HasRoom (b, m)
      → Marked h a (b, m)
      → Marked h a (left (emit_all go stage t src b m))
  unfolding emit_all
  emit_all-Marked stage (emit piece next) src h a b m fits marked =
      let (b', m') = write go piece b m in
      emit_all-Marked stage (next (contents m' src)) src h a b' m' (write-held go piece b m fits).1
        (write-Marked piece h a b m fits marked)
  emit_all-Marked stage (wrote t) src h a b m fits marked =
      emit_all-Marked _ t src h a b m fits marked
  emit_all-Marked stage (failed e) src h a b m fits marked = marked
  emit_all-Marked stage closed src h a b m fits marked = marked

  -- The header is written into the array that the body has.
  fill-header :
      (h : Bytes) (b : Slice) (m : Memory)
      → length h ≤ length (m.arrays b.address)
      → b.address < m.next
      → Marked h b.address (fill go h (reset b, m))
  unfolding fill
  fill-header h b m fits old =
      rw (store_here m.arrays b.address (h ++ drop (0 + length h) (m.arrays b.address)))
        (take-length_append h _, (λ _. omega arith), old)

  grow-fits :
      (n : ℕ) (b : Slice) (m : Memory)
      → b.size + n ≤ length (m.arrays b.address)
      → grow go n b m ≡ (b, m)
  unfolding grow
  grow-fits n b m h = ground arith

  if_opened-ok :
      (r : Result (Unit {0})) (s : State) (x : Result Slice × Slice × Memory)
      → r ≡ ok tt
      → if_opened go r s x ≡ x
  if_opened-ok (ok _) s x e = refl
  if_opened-ok (err e') s x e = absurd (cc e)

  reset-HasRoom : (b : Slice) (m : Memory) → HasRoom (reset b, m)
  unfolding HasRoom
  reset-HasRoom b m = omega arith

  -- Once the header is written, no later piece reaches it.
  pack-Marked :
      (src b : Slice) (m : Memory)
      → go.new_writer_level ≡ ok tt
      → length go.header ≤ length (m.arrays b.address)
      → b.address < m.next
      → Marked go.header b.address (left (pack go src (reset b, m)))
  unfolding pack emit_all write
  pack-Marked src b m opens fits old =
      let stay = grow-fits (length go.header) (reset b) m (omega arith) in
      let marked : Marked go.header b.address (write go go.header (reset b) m) =
        subst (λ s. Marked go.header b.address (fill go go.header s)) (sym stay)
          (fill-header go.header b m fits old) in
      let (b', m') = write go go.header (reset b) m in
      subst (λ x. Marked go.header b.address (left x))
        (sym (if_opened-ok go.new_writer_level _ _ opens))
        (emit_all-Marked write_stage (go.deflate (contents m' src)) src go.header b.address b' m'
          (write-held go go.header (reset b) m (reset-HasRoom b m)).1 marked)

  -- A slice that was returned, with its buffer the next one that the pool gives.
  abbrev pub OnTop : Slice → Memory → Type 0
  OnTop b m = (rest : List Slice) × (m.idle ≡ b ∷ rest) × HasRoom (b, m) × (b.address < m.next)

  abbrev pub ReturnsOnTop : Result Slice × Memory → Type 0
  ReturnsOnTop (ok b, m) = OnTop b m
  ReturnsOnTop (err e, m) = Unit

  returned-OnTop :
      (r : Result Bytes) (c : Option GoError) (b : Slice) (m : Memory)
      → HasRoom (b, m)
      → b.address < m.next
      → ReturnsOnTop (give_back go (returned go r c (b, m)))
  unfolding put HasRoom
  returned-OnTop (err e) c b m fits old = tt
  returned-OnTop (ok _) none b m fits old = (m.idle, refl, fits, old)
  returned-OnTop (ok _) (some e) b m fits old = tt

  if_read-OnTop :
      (r : Result Stream) (rest : Stream → Memory → Result Slice × Memory) (m : Memory)
      → ((stream : Stream) → ReturnsOnTop (rest stream m))
      → ReturnsOnTop (if_read go r rest m)
  if_read-OnTop (err e) rest m f = tt
  if_read-OnTop (ok stream) rest m f = f stream

  pub decompress-OnTop :
      (pick : ℕ) (packed : Bytes) (limit : ℤ) (m : Memory)
      → IsSound m
      → ReturnsOnTop (decompress go pick packed limit m)
  unfolding decompress with_buffer unpack
  decompress-OnTop pick packed limit m sound = if_read-OnTop (go.new_reader packed) _ m (λ stream.
      let (b, m') = get pick m in
      let (b2, m2) = grow go (length packed * 2) (reset b) m' in
      let content : Bytes = take (pos_part limit) stream.content in
      let (b3, m3) = write go content b2 m2 in
      let in_use = grow-InUse go (length packed * 2) (reset b) m' (get-InUse pick m sound) in
      returned-OnTop (copy_n stream limit) stream.close_failure b3 m3
        (write-held go content b2 m2 (grow-reset go (length packed * 2) b m').1).1
        (write-InUse go content b2 m2 in_use).0)

  compress-OnTop :
      (body : Slice) (m : Memory)
      → OnTop body m
      → go.new_writer_level ≡ ok tt
      → length go.header ≤ body.size
      → take (length go.header) (contents (compress go 0 body m).1 body) ≡ go.header
  unfolding compress get take_out taken put HasRoom
  compress-OnTop body m (rest, e, fits, old) opens long =
      subst (λ s. Overwritten (grow go (body.size / 2) (reset s.0) s.1)) (sym got)
        (subst Overwritten (sym stays) (
          take-take (length go.header) body.size _ long
          ∙ (pack-Marked body body m' opens (omega (arith, long, fits)) old).0))
    where
      m' : Memory
      m' = record m { idle = rest }

      got : get 0 m ≡ (body, m')
      got = ap (λ (l : List Slice). taken (take_out 0 l) m) e

      stays : grow go (body.size / 2) (reset body) m' ≡ (reset body, m')
      stays = grow-fits (body.size / 2) (reset body) m' (omega (arith, fits))

      Overwritten : State → Type 0
      Overwritten s =
          take (length go.header) (contents (give_back go (pack go body s)).1 body) ≡ go.header

  -- After `decompress` has returned a body, a `compress` of this body that takes the buffer which
  -- was put back last leaves the gzip header in the body's first bytes, if the body is as long as
  -- the header and the level of compression is a valid one.
  pub compress-decompress-Shared :
      (pick : ℕ) (packed : Bytes) (limit : ℤ) (m : Memory) {body : Slice} {m' : Memory}
      → IsSound m
      → decompress go pick packed limit m ≡ (ok body, m')
      → go.new_writer_level ≡ ok tt
      → length go.header ≤ body.size
      → take (length go.header) (contents (compress go 0 body m').1 body) ≡ go.header
  compress-decompress-Shared pick packed limit m {body} {m'} sound e opens long =
      compress-OnTop body m' (subst ReturnsOnTop e (decompress-OnTop pick packed limit m sound))
        opens long
