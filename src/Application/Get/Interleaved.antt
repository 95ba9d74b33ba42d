-- ===== src/Application/Get/Interleaved.antt =====
-- What holds of requests for one record of internal/application/service/get.go that run at the
-- same time, over any store that keeps its contract.
use paste_thek4n_ru.Prelude.{
  ◌≤◌, ◌≡◌, refl, subst, sym, ◌∙◌, ◌⊎◌, inl, inr, true, none, some, arith, List, All,
}
use paste_thek4n_ru.Prelude.Bytes.{Bytes}
use paste_thek4n_ru.Exec.{Result, ok, err, run-cases, wrap}
use paste_thek4n_ru.Exec.Kept.{Kept}
use paste_thek4n_ru.Domain.Expiration
use paste_thek4n_ru.Domain.Expiration.{Clock}
use paste_thek4n_ru.Domain.Disposable
use paste_thek4n_ru.Domain.Record
use paste_thek4n_ru.Domain.Record.{Record, counter_exhausted}
use paste_thek4n_ru.Domain.Record.Reads
use paste_thek4n_ru.Application.Repository.{RecordRepository}
use paste_thek4n_ru.Application.Repository.Contract.{Content, content, IsRecordStore}
use paste_thek4n_ru.Application.Get.{GetBodyAnswer, get}
use paste_thek4n_ru.Application.Get.Phases.{
  Read, Picked, here, there, begin, finish, Requests, Step, begins, is_refused, finishes, fails,
  passes, Reach, start, later,
}

-- The record, some reads later.
pub record IsLater (c d : Content) : Type 0 where
  pub same_body : d.body ≡ c.body
  pub same_url : d.url ≡ c.url
  pub same_eternal : d.eternal ≡ c.eternal
  pub counted_down : d.countdown ≤ c.countdown

sub_le :
    (d : Disposable.DisposableCounter)
    → ((Disposable.sub d).value ≤ d.value) × ((Disposable.sub d).eternal ≡ d.eternal)
unfolding Disposable.sub
sub_le d = ground arith

abbrev IsRead : Content → Read → Type 0
IsRead c (b, r) = (b ≡ c.body) × IsLater c (content r)

abbrev pub IsAnswer : Content → GetBodyAnswer → Type 0
IsAnswer c a = (a.body ≡ c.body) × (a.is_url ≡ c.url)

Picked-All :
    (P : Read → Type 0) {r : Read} {rs others : List Read}
    → Picked r rs others
    → All P rs
    → P r × All P others
Picked-All P here h = h
Picked-All P (there p) (h, hs) = let (found, rest) = Picked-All P p hs in (found, (h, rest))

module _ {W : Type 0} (clock : Clock W) (records : RecordRepository W)
    (store : IsRecordStore clock records) (key : Bytes) (c : Content) where
  -- What the store holds under the key, if anything.
  pub data Holds (w : W) : Type 0 where
    gone : store.view w key ≡ none → Holds w
    held : (d : Content) → store.view w key ≡ some d → IsLater c d → Holds w

  Holds-kept :
      {w w' : W}
      → (store.view w' key ≡ store.view w key) ⊎ (store.view w' key ≡ none)
      → Holds w
      → Holds w'
  Holds-kept (inr lost) h = gone lost
  Holds-kept (inl same) (gone h) = gone (same ∙ h)
  Holds-kept (inl same) (held d h l) = held d (same ∙ h) l

  get_body-IsRead :
      (r : Record) (w : W) (b : Bytes) (r' : Record) {w' : W}
      → IsLater c (content r)
      → Record.get_body clock r w ≡ (ok (b, r'), w')
      → IsRead c (b, r')
  get_body-IsRead r w b r' l h =
      let (body, changed, left) = Reads.get_body-ok clock r w h in
      let (fewer, still) = sub_le r.disposable_counter in
      (
        body ∙ l.same_body,
        subst (λ x. IsLater c (content x)) (sym changed)
            (record {
              same_body = l.same_body;
              same_url = l.same_url;
              same_eternal = still ∙ l.same_eternal;
              counted_down = omega (arith, fewer, l.counted_down);
            }),
      )

  get_body_kept : (r : Record) (w : W) → Kept store.view w (Record.get_body clock r w).1
  unfolding Record.get_body Expiration.expired
  get_body_kept r w k = ground (arith, store.now_kept w k)

  -- What a read leaves, and what it gives if it is not refused.
  abbrev Begun : Result Read × W → Type 0
  Begun (ok r, w) = IsRead c r × Holds w
  Begun (err e, w) = Holds w

  Holds-content :
      {w : W} (r : Record) → Holds w → store.view w key ≡ some (content r) → IsLater c (content r)
  Holds-content r (gone h) e = cc
  Holds-content r (held d h l) e = let same : d ≡ content r = cc in subst (IsLater c) same l

  read-Begun :
      (r : Record) {w : W} (w1 : W)
      → Holds w
      → Holds w1
      → (store.view w key ≡ some (content r)) ⊎ (counter_exhausted r ≡ true)
      → Begun (wrap "fail to read record body" (Record.get_body clock r) w1)
  read-Begun r w1 l l1 found = elim (run-cases (Record.get_body clock r w1)) [
    | inr (_, w2, h) ↦ rw h (Holds-kept (rw h at (get_body_kept r w1) key) l1)
    | inl ((b, r'), w2, h) ↦
        let still = Holds-kept ((rw h at (get_body_kept r w1)) key) l1 in
        let (_, _, left) = Reads.get_body-ok clock r w1 h in
        rw h (elim found [
          | inl e ↦ (get_body-IsRead r w1 b r' (Holds-content r l e) h, still)
          | inr none_left ↦ cc
        ])
  ]

  begin-Begun : (w : W) → Holds w → Begun (begin clock records key w)
  unfolding begin get
  begin-Begun w l = elim (run-cases (records.get_by_key key w)) [
    | inr (_, w1, h) ↦ rw h (Holds-kept ((rw h at (store.get_kept key w)) key) l)
    | inl (r, w1, h) ↦ rw h (
        read-Begun r w1 l (Holds-kept ((rw h at (store.get_kept key w)) key) l)
          (store.get_ok key w h))
  ]

  abbrev Finished : Result GetBodyAnswer × W → Type 0
  Finished (ok a, w) = IsAnswer c a × Holds w
  Finished (err e, w) = Holds w

  finish-Finished :
      (read : Read) (w : W)
      → store.Storable c.body
      → IsRead c read
      → Holds w
      → Finished (finish clock records key read w)
  unfolding finish
  finish-Finished (b, r) w s (body, l) now =
      let storable = subst store.Storable (sym l.same_body) s in
      elim (run-cases (records.set_by_key key r w)) [
        | inl (_, w', h) ↦ rw h (
          (body, l.same_url),
          elim (store.set_ok key r w storable h) [
            | inl e ↦ held (content r) e l
            | inr lost ↦ gone lost
          ],
        )
        | inr (_, w', h) ↦ rw h (elim (store.set_err key r w storable h) [
          | inl e ↦ held (content r) e l
          | inr e ↦ Holds-kept e now
        ])
      ]

  -- The store holds the record, some reads later, or nothing; every request that is under way read
  -- it; and every answer is its body.
  pub record Consistent (s : Requests clock records) : Type 0 where
    pub holds : Holds s.world
    pub reads : All (IsRead c) s.begun
    pub answered : All (IsAnswer c) s.answers

  Step-Consistent :
      {s t : Requests clock records}
      → store.Storable c.body
      → Consistent s
      → Step clock records store key s t
      → Consistent t
  Step-Consistent {s} st i (begins h) =
      let (read, now) = rw h at (begin-Begun s.world i.holds) in
      record { holds = now; reads = (read, i.reads); answered = i.answered }
  Step-Consistent {s} st i (is_refused h) = record {
    holds = rw h at (begin-Begun s.world i.holds);
    reads = i.reads;
    answered = i.answered;
  }
  Step-Consistent {s} st i (finishes {r} p h) =
      let (read, rest) = Picked-All (IsRead c) p i.reads in
      let (answer, now) = rw h at (finish-Finished r s.world st read i.holds) in
      record { holds = now; reads = rest; answered = (answer, i.answered) }
  Step-Consistent {s} st i (fails {r} p h) =
      let (read, rest) = Picked-All (IsRead c) p i.reads in
      record {
        holds = rw h at (finish-Finished r s.world st read i.holds);
        reads = rest;
        answered = i.answered;
      }
  Step-Consistent {s} st i (passes h) = record {
    holds = Holds-kept h i.holds;
    reads = i.reads;
    answered = i.answered;
  }

  -- However the requests for one record are interleaved, and whatever fails, every request that is
  -- answered gets the body that was held, as a link exactly if it was held as one; and the store
  -- holds nothing under the key or the same body with a countdown that is not larger. The store
  -- keeps its contract and can give the body back.
  pub Reach-Consistent :
      (w : W) {s : Requests clock records}
      → store.view w key ≡ some c
      → store.Storable c.body
      → Reach clock records store key w s
      → Consistent s
  Reach-Consistent w found st start = record {
    holds = held c found (record {
      same_body = refl;
      same_url = refl;
      same_eternal = refl;
      counted_down = omega arith;
    });
    reads = tt;
    answered = tt;
  }
  Reach-Consistent w found st (later r step) =
      Step-Consistent st (Reach-Consistent w found st r) step
