-- ===== src/Domain/Record/Reads.antt =====
-- Repeated reads of one record of internal/domain/aggregate/record.go.
use Prim.Native.Nat.{min}
use paste_thek4n_ru.Prelude.{ℕ, zero, suc, ◌≤◌, ◌≡◌, ap, true, false, arith, ◌⊎◌, inl, inr}
use paste_thek4n_ru.Prelude.Bytes.{Bytes}
use paste_thek4n_ru.Errors.{GoError}
use paste_thek4n_ru.Exec.{ok, err, run-cases, outcome}
use paste_thek4n_ru.Domain.Expiration
use paste_thek4n_ru.Domain.Expiration.{Clock}
use paste_thek4n_ru.Domain.Disposable
use paste_thek4n_ru.Domain.Clicks.{increase}
use paste_thek4n_ru.Domain.Record.{Record, get_body}

module _ {ℓ} {W : Type ℓ} (clock : Clock W) where
  -- How many of `n` calls of `GetBody` give the body, the record being changed by each.
  unfoldable pub count_reads : ℕ → Record → W → ℕ
  count_reads zero r w = 0
  count_reads (suc n) r w =
      outcome (get_body clock r w) (λ read w'. suc (count_reads n read.1 w'))
        (λ e w'. count_reads n r w')

  -- What a call that gives the body has changed.
  pub get_body-ok :
      (r : Record) (w : W) {b : Bytes} {r' : Record} {w' : W}
      → get_body clock r w ≡ (ok (b, r'), w')
      → (b ≡ r.body)
        × (r' ≡ record r {
          disposable_counter = Disposable.sub r.disposable_counter;
          clicks = increase r.clicks;
        })
        × (Disposable.exhausted r.disposable_counter ≡ false)
  unfolding get_body Expiration.expired
  get_body-ok r w h = ground arith

  pub sub-value :
      (d : Disposable.DisposableCounter)
      → Disposable.exhausted d ≡ false
      → d.eternal ≡ false
      → (d.value ≡ suc (Disposable.sub d).value) × ((Disposable.sub d).eternal ≡ false)
  unfolding Disposable.sub Disposable.exhausted
  sub-value d h k = ground arith

  get_body-err :
      (r : Record) (w : W) {e : GoError} {w' : W}
      → get_body clock r w ≡ (err e, w')
      → (Disposable.exhausted r.disposable_counter ≡ true) ⊎ (r.expiration_date.eternal ≡ false)
  unfolding get_body Expiration.expired
  get_body-err r w h = ground arith

  -- However often a record is read, and whatever the clock says, it gives its body at most as often
  -- as its counter says, unless the counter is eternal.
  pub count_reads-le_value :
      (n : ℕ) (r : Record) (w : W)
      → r.disposable_counter.eternal ≡ false
      → count_reads n r w ≤ r.disposable_counter.value
  unfolding count_reads
  count_reads-le_value zero r w h = omega arith
  count_reads-le_value (suc n) r w h = elim (run-cases (get_body clock r w)) [
    | inl ((b, r'), w', e) ↦
        let (body, changed, left) = get_body-ok r w e in
        let (fewer, still) = sub-value r.disposable_counter left h in
        let counter : r'.disposable_counter ≡ Disposable.sub r.disposable_counter =
          ap (λ (x : Record). x.disposable_counter) changed in
        let bound = count_reads-le_value n r' w' (cc) in
        let same = ap (λ (x : Disposable.DisposableCounter). x.value) counter in
        rw (e, count_reads) (omega (arith, bound, fewer, same))
    | inr (e', w', e) ↦ rw (e, count_reads) (count_reads-le_value n r w' h)
  ]

  exhausted_zero :
      (d : Disposable.DisposableCounter)
      → d.eternal ≡ false
      → Disposable.exhausted d ≡ true
      → d.value ≡ 0
  unfolding Disposable.exhausted
  exhausted_zero d h k = ground arith

  -- A record whose date is eternal, and whose counter is not, gives its body exactly as often as the
  -- counter says, and then never again.
  pub count_reads-eq_min :
      (n : ℕ) (r : Record) (w : W)
      → r.disposable_counter.eternal ≡ false
      → r.expiration_date.eternal ≡ true
      → count_reads n r w ≡ min n r.disposable_counter.value
  unfolding count_reads
  count_reads-eq_min zero r w h k = omega arith
  count_reads-eq_min (suc n) r w h k = elim (run-cases (get_body clock r w)) [
    | inl ((b, r'), w', e) ↦
        let (body, changed, left) = get_body-ok r w e in
        let (fewer, still) = sub-value r.disposable_counter left h in
        let counter : r'.disposable_counter ≡ Disposable.sub r.disposable_counter =
          ap (λ (x : Record). x.disposable_counter) changed in
        let date : r'.expiration_date ≡ r.expiration_date =
          ap (λ (x : Record). x.expiration_date) changed in
        let bound = count_reads-eq_min n r' w' (cc) (cc) in
        let same = ap (λ (x : Disposable.DisposableCounter). x.value) counter in
        rw (e, count_reads) (omega (arith, bound, fewer, same))
    | inr (e', w', e) ↦
        let none_left : r.disposable_counter.value ≡ 0 = elim (get_body-err r w e) [
          | inl gone ↦ exhausted_zero r.disposable_counter h gone
          | inr dated ↦ cc
        ] in
        rw (e, count_reads) (omega (arith, count_reads-eq_min n r w' h k))
  ]
