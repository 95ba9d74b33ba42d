-- ===== src/Application/Get/Answering.antt =====
-- How many requests are answered: internal/application/service/get.go over a store that answers.
use Prim.Native.Nat.{min}
use paste_thek4n_ru.Prelude.{
  ℕ, ◌+◌, ◌-◌, ◌%◌, ◌^◌, not, ltb, ◌==◌, if◌then◌else◌, zero, suc, ◌≡◌, refl, subst, sym, ap, ◌∙◌,
  Bool, true, false, inl, inr, Bool-cases, arith,
}
use paste_thek4n_ru.Prelude.Bytes.{Bytes}
use paste_thek4n_ru.Errors.{GoError, wrapped, sentinel, record_counter_exhausted}
use paste_thek4n_ru.Exec.{Result, ok, err}
use paste_thek4n_ru.Domain.Expiration.{Clock}
use paste_thek4n_ru.Domain.Disposable
use paste_thek4n_ru.Domain.Clicks.{increase}
use paste_thek4n_ru.Domain.Record
use paste_thek4n_ru.Domain.Record.{Record, counter_exhausted}
use paste_thek4n_ru.Application.Repository.{RecordRepository}
use paste_thek4n_ru.Application.Repository.Contract.{Content, content}
use paste_thek4n_ru.Application.Get.{GetBodyAnswer, get, get_body}
use paste_thek4n_ru.Application.Get.Disposable.{count_answers}

-- What is held after one more read.
abbrev pub read_once : Content → Content
read_once c = record c {
  countdown =
      if c.eternal then c.countdown else if c.countdown == 0 then c.countdown else c.countdown - 1;
  clicks = (c.clicks + 1) % 2 ^ 32;
}

content-read :
    (r : Record)
    → content (record r {
      disposable_counter = Disposable.sub r.disposable_counter;
      clicks = increase r.clicks;
    })
      ≡ read_once (content r)
unfolding Disposable.sub increase
content-read r = ground arith

-- A read is left.
abbrev pub is_left : Content → Bool
is_left c = if c.eternal then true else not (ltb c.countdown 1)

-- How many of `k` requests are answered.
abbrev pub answerable : ℕ → Content → ℕ
answerable k c = if c.eternal then k else min k c.countdown

answerable-zero : (c : Content) → answerable 0 c ≡ 0
answerable-zero c = ground arith

answerable-left :
    (k : ℕ) (c : Content)
    → is_left c ≡ true
    → answerable (suc k) c ≡ suc (answerable k (read_once c))
answerable-left k c h = ground arith

answerable-exhausted :
    (k : ℕ) (c : Content) → is_left c ≡ false → answerable (suc k) c ≡ answerable k c
answerable-exhausted k c h = ground arith

pub exhausted-left : (r : Record) → counter_exhausted r ≡ not (is_left (content r))
unfolding Disposable.exhausted
exhausted-left r = ground arith

module _ {W : Type 0} (clock : Clock W) (records : RecordRepository W) (key : Bytes) where
  -- A store whose operations on a key succeed, and which keeps a record from world to world without
  -- its expiring. A record that is read has the content that is held, and what was read can be
  -- written back, its counters changed.
  pub record Answers : Type 1 where
    pub Holding : Content → W → Type 0
    pub get_holding :
        (c : Content) (w : W)
        → Holding c w
        → (r : Record) × (w1 : W) × (w2 : W) × (records.get_by_key key w ≡ (ok r, w1))
          × (content r ≡ c)
          × (Record.expired clock r w1 ≡ (false, w2))
          × Holding c w1
          × ((r' : Record)
              → r'.expiration_date ≡ r.expiration_date
              → r'.body ≡ r.body
              → (w' : W) × (records.set_by_key key r' w2 ≡ (ok tt, w')) × Holding (content r') w')

  module _ (answers : Answers) where
    -- A request takes a read if one is left, and fails otherwise.
    get_body-left :
        (c : Content) (w : W)
        → answers.Holding c w
        → is_left c ≡ true
        → (w' : W) × (get_body clock records key w
            ≡ (ok (record { body = c.body; is_url = c.url }), w'))
          × answers.Holding (read_once c) w'
    unfolding get_body get Record.get_body
    get_body-left c w h left =
        let (r, w1, w2, read, same, now, h1, writes) = answers.get_holding c w h in
        let (w3, set, h3) =
          writes
            (record r {
              disposable_counter = Disposable.sub r.disposable_counter;
              clicks = increase r.clicks;
            })
            refl refl in
        let full : counter_exhausted r ≡ false =
          exhausted-left r ∙ ap (λ x. not (is_left x)) same ∙ ap not left in
        (
          w3,
          rw (read, full, now, set)
              (ap
                (λ (x : Content).
                  (let a : Result GetBodyAnswer = ok (record { body = x.body; is_url = x.url }) in
                    (a, w3)))
                same),
          subst (λ x. answers.Holding x w3) (content-read r ∙ ap read_once same) h3,
        )

    get_body-exhausted :
        (c : Content) (w : W)
        → answers.Holding c w
        → is_left c ≡ false
        → (e : GoError) × (w' : W) × (get_body clock records key w ≡ (err e, w'))
          × answers.Holding c w'
    unfolding get_body get Record.get_body
    get_body-exhausted c w h none_left =
        let (r, w1, w2, read, same, now, h1, writes) = answers.get_holding c w h in
        let empty : counter_exhausted r ≡ true =
          exhausted-left r ∙ ap (λ x. not (is_left x)) same ∙ ap not none_left in
        (
          wrapped "fail to read record body" (sentinel record_counter_exhausted),
          w1,
          rw (read, empty) refl,
          h1,
        )

    -- Of k requests for a record that a store holds, made one after the other, exactly as many are
    -- answered as there are reads left, all of them if the countdown is eternal; where the store
    -- answers and the record does not expire meanwhile.
    pub count_answers-eq_answerable :
        (k : ℕ) (c : Content) (w : W)
        → answers.Holding c w
        → count_answers clock records k key w ≡ answerable k c
    unfolding count_answers
    count_answers-eq_answerable zero c w h = sym (answerable-zero c)
    count_answers-eq_answerable (suc k) c w h = elim (Bool-cases (is_left c)) [
      | inl left ↦
          let (w', e, h') = get_body-left c w h left in
          rw (e, count_answers)
            (ap suc (count_answers-eq_answerable k (read_once c) w' h')
              ∙ sym (answerable-left k c left))
      | inr none_left ↦
          let (e', w', e, h') = get_body-exhausted c w h none_left in
          rw (e, count_answers)
            (count_answers-eq_answerable k c w' h' ∙ sym (answerable-exhausted k c none_left))
    ]
