-- ===== src/Infrastructure/Pool/Writes.antt =====
-- What a write to a buffer of the pool of internal/infrastructure/repository/record.go does to
-- its own array and to the others.
use paste_thek4n_ru.Prelude.{
  ℕ, zero, suc, ◌+◌, ◌≤◌, ◌<◌, ◌≡◌, ◌≢◌, refl, ap, ◌∙◌, ◌⊎◌, inl, inr, List, [], ◌∷◌, ◌++◌, arith,
  tests, leb, length, take, replicate, length-append, length-take_le, length-replicate, Bool-cases,
}
use paste_thek4n_ru.Prelude.Bytes.{Bytes}
use paste_thek4n_ru.Exec.{Result}
use paste_thek4n_ru.Infrastructure.Pool.{
  Slice, Memory, Runtime, contents, store, drop, reset, allocate, grow, fill, write,
}

module _ {ℓ} {A : Type ℓ} where
  pub take-append : (n : ℕ) (xs ys : List A) → n ≤ length xs → take n (xs ++ ys) ≡ take n xs
  take-append zero xs ys h = refl
  take-append (suc n) [] ys h = absurd (omega arith)
  take-append (suc n) (x ∷ xs) ys h = ap (λ l. x ∷ l) (take-append n xs ys (omega arith))

  pub take-length_append : (xs ys : List A) → take (length xs) (xs ++ ys) ≡ xs
  take-length_append [] ys = refl
  take-length_append (x ∷ xs) ys = ap (λ l. x ∷ l) (take-length_append xs ys)

  pub append_assoc : (xs ys zs : List A) → (xs ++ ys) ++ zs ≡ xs ++ (ys ++ zs)
  append_assoc [] ys zs = refl
  append_assoc (x ∷ xs) ys zs = ap (λ l. x ∷ l) (append_assoc xs ys zs)

  pub take-two : (xs ys zs : List A) → take (length xs + length ys) (xs ++ (ys ++ zs)) ≡ xs ++ ys
  take-two xs ys zs =
      rw (← length-append xs ys, ← append_assoc xs ys zs) (take-length_append (xs ++ ys) zs)

  take-append_held : (xs ys : List A) {n : ℕ} → length xs ≡ n → take n (xs ++ ys) ≡ xs
  take-append_held xs ys e = rw (← e) (take-length_append xs ys)

  take-two_held :
      (xs ys zs : List A) {n : ℕ}
      → length xs ≡ n
      → take (n + length ys) (xs ++ (ys ++ zs)) ≡ xs ++ ys
  take-two_held xs ys zs e = rw (← e) (take-two xs ys zs)

  length-two : (xs ys zs : List A) → length xs + length ys ≤ length (xs ++ (ys ++ zs))
  length-two xs ys zs = omega (arith, length-append xs (ys ++ zs), length-append ys zs)

  pub take-take : (n k : ℕ) (xs : List A) → n ≤ k → take n (take k xs) ≡ take n xs
  take-take zero k xs h = refl
  take-take (suc n) zero xs h = absurd (omega arith)
  take-take (suc n) (suc k) [] h = refl
  take-take (suc n) (suc k) (x ∷ xs) h = ap (λ l. x ∷ l) (take-take n k xs (omega arith))

-- A buffer in the memory, and what it holds.
abbrev pub State : Type 0
State = Slice × Memory

-- What a run leaves.
abbrev pub left : Result Slice × Slice × Memory → State
left (r, b, m) = (b, m)

abbrev pub held : State → Bytes
held (b, m) = contents m b

abbrev pub capacity : State → ℕ
capacity (b, m) = length (m.arrays b.address)

abbrev pub array_at : ℕ → State → Bytes
array_at a (b, m) = m.arrays a

-- The array of the buffer is as long as what the buffer holds.
unfoldable pub HasRoom : State → Type 0
HasRoom (b, m) = b.size ≤ length (m.arrays b.address)

-- The array at this address exists, and is not that of the buffer.
unfoldable pub Apart : ℕ → State → Type 0
Apart a (b, m) = (b.address ≢ a) × (a < m.next)

pub store_here : (f : ℕ → Bytes) (a : ℕ) (xs : Bytes) → store f a xs a ≡ xs
store_here f a xs = ground arith

pub store_other : (f : ℕ → Bytes) {a b : ℕ} (xs : Bytes) → a ≢ b → store f a xs b ≡ f b
store_other f xs h = ground arith

module _ (go : Runtime) where
  -- A buffer grows in its array where that has room, and else into a new one.
  pub grow-cases :
      (n : ℕ) (b : Slice) (m : Memory)
      → ((grow go n b m ≡ (b, m)) × (b.size + n ≤ length (m.arrays b.address)))
        ⊎ ((k : ℕ) × (grow go n b m ≡ allocate (contents m b ++ replicate (n + k) 0) b.size m))
  unfolding grow
  grow-cases n b m = elim (Bool-cases (leb (b.size + n) (length (m.arrays b.address)))) [
    | inl e ↦ inl (rw e refl, omega (tests, e))
    | inr e ↦ inr (go.slack (length (m.arrays b.address)) n, rw e refl)
  ]

  pub grow-Apart :
      (n a : ℕ) (b : Slice) (m : Memory)
      → Apart a (b, m)
      → Apart a (grow go n b m) × (array_at a (grow go n b m) ≡ m.arrays a)
  unfolding Apart allocate
  grow-Apart n a b m (other, old) = elim (grow-cases n b m) [
    | inl (e, _) ↦ rw e ((other, old), refl)
    | inr (k, e) ↦ rw e ((ground arith, omega arith), store_other m.arrays _ (ground arith))
  ]

  -- A buffer that has grown still holds what it held, and has room for more.
  pub grow-keeps :
      (n : ℕ) (b : Slice) (m : Memory)
      → HasRoom (b, m)
      → ((grow go n b m).0.size ≡ b.size)
        × (held (grow go n b m) ≡ contents m b)
        × (b.size + n ≤ capacity (grow go n b m))
  unfolding HasRoom allocate
  grow-keeps n b m fits = elim (grow-cases n b m) [
    | inl (e, h) ↦ rw e (refl, refl, h)
    | inr (k, e) ↦
        rw (e, store_here m.arrays m.next (contents m b ++ replicate (n + k) 0))
          (
            refl,
            take-append_held (contents m b) (replicate (n + k) 0)
                (length-take_le b.size (m.arrays b.address) fits),
            omega (
              arith,
              length-append (contents m b) (replicate (n + k) 0),
              length-replicate {A = ℕ} (n + k) 0,
              length-take_le b.size (m.arrays b.address) fits,
            ),
          )
  ]

  fill-Apart :
      (d : Bytes) (a : ℕ) (b : Slice) (m : Memory)
      → Apart a (b, m)
      → Apart a (fill go d (b, m)) × (array_at a (fill go d (b, m)) ≡ m.arrays a)
  unfolding Apart fill
  fill-Apart d a b m (other, old) = ((other, old), store_other m.arrays _ other)

  fill-held :
      (d : Bytes) (b : Slice) (m : Memory)
      → b.size + length d ≤ length (m.arrays b.address)
      → (held (fill go d (b, m)) ≡ contents m b ++ d) × HasRoom (fill go d (b, m))
  unfolding HasRoom fill
  fill-held d b m fits = rw (store_here m.arrays b.address (contents m b ++ (d ++ rest))) (
    take-two_held (contents m b) d rest shut,
    omega (arith, length-two (contents m b) d rest, shut),
  )
    where
      rest : Bytes
      rest = drop (b.size + length d) (m.arrays b.address)

      shut : length (contents m b) ≡ b.size
      shut = length-take_le b.size (m.arrays b.address) (omega arith)

  pub write-Apart :
      (d : Bytes) (a : ℕ) (b : Slice) (m : Memory)
      → Apart a (b, m)
      → Apart a (write go d b m) × (array_at a (write go d b m) ≡ m.arrays a)
  unfolding write
  write-Apart d a b m apart =
      let (apart', e) = grow-Apart (length d) a b m apart in
      let (b', m') = grow go (length d) b m in
      let (apart2, e') = fill-Apart d a b' m' apart' in (apart2, e' ∙ e)

  -- A write puts its bytes behind what the buffer holds.
  pub write-held :
      (d : Bytes) (b : Slice) (m : Memory)
      → HasRoom (b, m)
      → (held (write go d b m) ≡ contents m b ++ d) × HasRoom (write go d b m)
  unfolding write
  write-held d b m fits =
      let (e, e', room) = grow-keeps (length d) b m fits in
      let (b', m') = grow go (length d) b m in
      let (e2, fits') = fill-held d b' m' (omega (arith, e, room)) in
      (e2 ∙ ap (λ (l : Bytes). l ++ d) e', fits')

  -- A buffer as both functions begin to use it.
  pub grow-reset :
      (n : ℕ) (b : Slice) (m : Memory)
      → (held (grow go n (reset b) m) ≡ []) × HasRoom (grow go n (reset b) m)
  unfolding HasRoom
  grow-reset n b m =
      let (e, e', room) = grow-keeps n (reset b) m (ground arith) in (e', omega (arith, e, room))
