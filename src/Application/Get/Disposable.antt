-- ===== src/Application/Get/Disposable.antt =====
-- A disposable record is served at most as often as was asked for:
-- internal/application/service/get.go over any store that keeps its contract.
use paste_thek4n_ru.Prelude.{
  ℕ, zero, suc, ◌-◌, ◌≤◌, ◌≡◌, refl, subst, sym, ap, ◌∙◌, ◌⊎◌, inl, inr, true, false, none, some,
  arith,
}
use paste_thek4n_ru.Prelude.Bytes.{Bytes}
use paste_thek4n_ru.Exec.{Result, ok, err, outcome, run-cases, wrap, pure, ◌>>=◌, ◌>>◌}
use paste_thek4n_ru.Exec.Kept.{Kept, Kept-none}
use paste_thek4n_ru.Domain.Expiration
use paste_thek4n_ru.Domain.Expiration.{Clock}
use paste_thek4n_ru.Domain.Disposable
use paste_thek4n_ru.Domain.Clicks.{increase}
use paste_thek4n_ru.Domain.Record
use paste_thek4n_ru.Domain.Record.{Record, counter_exhausted}
use paste_thek4n_ru.Domain.Record.Reads
use paste_thek4n_ru.Application.Repository.{RecordRepository}
use paste_thek4n_ru.Application.Repository.Contract.{Content, content, IsRecordStore}
use paste_thek4n_ru.Application.Get.{GetBodyAnswer, get, get_body}

module _ {W : Type 0} (clock : Clock W) (records : RecordRepository W) where
  -- How many of `n` requests for a key are answered with a body.
  unfoldable pub count_answers : ℕ → Bytes → W → ℕ
  count_answers zero key w = 0
  count_answers (suc n) key w =
      outcome (get_body clock records key w) (λ answer w'. suc (count_answers n key w'))
        (λ e w'. count_answers n key w')

  module _ (store : IsRecordStore clock records) where
    -- At most `n` more reads are left of the record under `key`.
    pub data Left (key : Bytes) (n : ℕ) (w : W) : Type 0 where
      gone : store.view w key ≡ none → Left key n w
      held :
          (c : Content)
          → store.view w key ≡ some c
          → store.Storable c.body
          → c.eternal ≡ false
          → c.countdown ≤ n
          → Left key n w

    Left-Kept :
        {key : Bytes} {n : ℕ} {w w' : W} → Kept store.view w w' → Left key n w → Left key n w'
    Left-Kept {key} k (gone h) = gone (Kept-none store.view key k h)
    Left-Kept {key} k (held c h s e b) = elim (k key) [
      | inl same ↦ held c (same ∙ h) s e b
      | inr none' ↦ gone none'
    ]

    -- Reading a record changes the world as the clock does.
    get_body_kept : (r : Record) (w : W) → Kept store.view w (Record.get_body clock r w).1
    unfolding Record.get_body Expiration.expired
    get_body_kept r w k = ground (arith, store.now_kept w k)

    -- A request that is answered uses up one of the reads that are left; one that fails uses none.
    abbrev Uses {ℓ} : {A : Type ℓ} → Bytes → ℕ → Result A × W → Type 0
    Uses key n (ok a, w) = (m : ℕ) × (n ≡ suc m) × Left key m w
    Uses key n (err e, w) = Left key n w

    module _ (key : Bytes) where
      Left-written :
          {n : ℕ} (r : Record) {w : W}
          → store.Storable r.body
          → r.disposable_counter.eternal ≡ false
          → r.disposable_counter.value ≤ n
          → (store.view w key ≡ some (content r)) ⊎ (store.view w key ≡ none)
          → Left key n w
      Left-written r s e b (inl h) = held (content r) h s e b
      Left-written r s e b (inr h) = gone h

      Left-unwritten :
          {n : ℕ} {w w' : W} → Left key n w → store.view w' key ≡ store.view w key → Left key n w'
      Left-unwritten (gone h) same = gone (same ∙ h)
      Left-unwritten (held c h s e b) same = held c (same ∙ h) s e b

      Uses-write :
          {A : Type 0} {m : ℕ} {w : W} (r : Record) (a : A)
          → store.Storable r.body
          → r.disposable_counter.eternal ≡ false
          → r.disposable_counter.value ≤ m
          → Left key (suc m) w
          → Uses key (suc m) ((wrap "fail to write record" (records.set_by_key key r) >> pure a) w)
      Uses-write {m} {w} r a s e b l = elim (run-cases (records.set_by_key key r w)) [
        | inl (_, w', h) ↦ rw h (m, refl, Left-written r s e b (store.set_ok key r w s h))
        | inr (_, w', h) ↦ rw h (elim (store.set_err key r w s h) [
          | inl written ↦ Left-written r s e (omega arith) (inl written)
          | inr (inl same) ↦ Left-unwritten l same
          | inr (inr none') ↦ gone none'
        ])
      ]

      -- A record that was read from the store is the one that the bound is about.
      Left-content :
          {n : ℕ} {w : W} (r : Record)
          → Left key n w
          → store.view w key ≡ some (content r)
          → store.Storable r.body
            × (r.disposable_counter.eternal ≡ false)
            × (r.disposable_counter.value ≤ n)
      Left-content r (gone h) found = cc
      Left-content r (held c h s e b) found =
          let same : c ≡ content r = cc in
          (
            subst (λ (x : Content). store.Storable x.body) same s,
            ap (λ (x : Content). x.eternal) (sym same) ∙ e,
            omega (arith, ap (λ (x : Content). x.countdown) same),
          )

      Uses-served :
          {n : ℕ} {w w2 : W} (r r' : Record)
          → Left key n w
          → (store.view w key ≡ some (content r)) ⊎ (counter_exhausted r ≡ true)
          → r' ≡ record r {
            disposable_counter = Disposable.sub r.disposable_counter;
            clicks = increase r.clicks;
          }
          → Disposable.exhausted r.disposable_counter ≡ false
          → Left key n w2
          → (a : GetBodyAnswer)
          → Uses key n ((wrap "fail to write record" (records.set_by_key key r') >> pure a) w2)
      Uses-served r r' l (inr gone') changed left l2 a = cc
      Uses-served {n} {w2} r r' l (inl found) changed left l2 a =
          let (s, e, b) = Left-content r l found in
          let (fewer, still) = Reads.sub-value clock r.disposable_counter left e in
          let counter : r'.disposable_counter ≡ Disposable.sub r.disposable_counter =
            ap (λ (x : Record). x.disposable_counter) changed in
          let value = ap (λ (x : Disposable.DisposableCounter). x.value) counter in
          let body : r'.body ≡ r.body = ap (λ (x : Record). x.body) changed in
          let n-pos : n ≡ suc (n - 1) = omega (arith, fewer) in
          subst
            (λ (k : ℕ).
              Uses key k ((wrap "fail to write record" (records.set_by_key key r') >> pure a) w2))
            (sym n-pos)
            (Uses-write r' a (subst store.Storable (sym body) s) (cc) (omega (arith, fewer, value))
              (subst (λ (k : ℕ). Left key k w2) n-pos l2))

      Uses-read :
          {n : ℕ} {w : W} (r : Record)
          → Left key n w
          → (store.view w key ≡ some (content r)) ⊎ (counter_exhausted r ≡ true)
          → (w1 : W) → Left key n w1
          → Uses key n (
              (do
                read ← wrap "fail to read record body" (Record.get_body clock r)
                wrap "fail to write record" (records.set_by_key key read.1)
                pure (let a : GetBodyAnswer = record { body = read.0; is_url = read.1.url } in a))
                w1)
      Uses-read {n} r l found w1 l1 = elim (run-cases (Record.get_body clock r w1)) [
        | inr (_, w2, h) ↦ rw h (Left-Kept (rw h at (get_body_kept r w1)) l1)
        | inl ((b, r'), w2, h) ↦
            let (body, changed, left) = Reads.get_body-ok clock r w1 h in
            rw h (
              Uses-served r r' l found changed left (Left-Kept (rw h at (get_body_kept r w1)) l1) _)
      ]

      Uses-get_body : {n : ℕ} {w : W} → Left key n w → Uses key n (get_body clock records key w)
      unfolding get_body get
      Uses-get_body {w} l = elim (run-cases (records.get_by_key key w)) [
        | inr (_, w1, h) ↦ rw h (Left-Kept (rw h at (store.get_kept key w)) l)
        | inl (r, w1, h) ↦
            rw h (
              Uses-read r l (store.get_ok key w h) w1
                (Left-Kept (rw h at (store.get_kept key w)) l))
      ]

      count_answers-le : (k : ℕ) {n : ℕ} (w : W) → Left key n w → count_answers k key w ≤ n
      unfolding count_answers
      count_answers-le zero w l = omega arith
      count_answers-le (suc k) {n} w l = elim (run-cases (get_body clock records key w)) [
        | inl (a, w', h) ↦
            let (m, pred, l') = rw h at (Uses-get_body l) in
            rw (h, count_answers) (omega (arith, count_answers-le k w' l', pred))
        | inr (e, w', h) ↦ rw (h, count_answers) (count_answers-le k w' (rw h at (Uses-get_body l)))
      ]

    -- Of a record that a store holds with a counter of `c.countdown` reads that is not eternal,
    -- however many requests are made one after the other, at most that many are answered with its body: also where
    -- operations of the store fail, and where the record expires in between. The store keeps its
    -- contract and can give the body back.
    pub count_answers-le_countdown :
        (k : ℕ) (key : Bytes) (c : Content) (w : W)
        → store.view w key ≡ some c
        → store.Storable c.body
        → c.eternal ≡ false
        → count_answers k key w ≤ c.countdown
    count_answers-le_countdown k key c w h s e =
        count_answers-le key k w (held c h s e (omega arith))
