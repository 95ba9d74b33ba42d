-- ===== src/Examples/Concurrent.antt =====
-- Two requests at the same time for a record with one read left.
use paste_thek4n_ru.Prelude.{◌≡◌, refl, false, some, List, [], ◌∷◌}
use paste_thek4n_ru.Prelude.Bytes.{codes, bytes_eq}
use paste_thek4n_ru.Exec.{ok}
use paste_thek4n_ru.Domain.Record.{Record}
use paste_thek4n_ru.Domain.Record
use paste_thek4n_ru.Domain.Disposable
use paste_thek4n_ru.Domain.Clicks.{increase}
use paste_thek4n_ru.Domain.Expiration
use paste_thek4n_ru.Application.Repository.Contract.{content}
use paste_thek4n_ru.Application.Get
use paste_thek4n_ru.Application.Get.{GetBodyAnswer}
use paste_thek4n_ru.Application.Get.Phases.{
  Requests, Reach, start, later, begins, finishes, here, begin, finish,
}
use paste_thek4n_ru.Application.Get.Interleaved.{Consistent, Reach-Consistent}
use paste_thek4n_ru.Examples.World.{World, put, empty_world, clock}
use paste_thek4n_ru.Examples.Memory.{memory, memory_store}
use paste_thek4n_ru.Examples.Inputs.{two_reads}

abbrev one_read : Record
one_read = record two_reads { disposable_counter = record { value = 1; eternal = false } }

abbrev none_left : Record
none_left = record two_reads {
  disposable_counter = record { value = 0; eternal = false };
  clicks = record { value = 1 };
}

abbrev before : World
before = record empty_world { records = put (codes "notes") (some one_read) empty_world.records }

abbrev written : World → World
written w = record w { records = put (codes "notes") (some none_left) w.records }

abbrev hello : GetBodyAnswer
hello = record { body = codes "hello"; is_url = false }

abbrev answered : List GetBodyAnswer → Requests clock memory
answered answers = record { world = written (written before); begun = []; answers = answers }

begin_notes : begin clock memory (codes "notes") before ≡ (ok (codes "hello", none_left), before)
unfolding begin Get.get bytes_eq Record.get_body Disposable.sub Disposable.exhausted
    Expiration.expired increase
begin_notes = refl

finish_notes :
    (w : World)
    → finish clock memory (codes "notes") (codes "hello", none_left) w ≡ (ok hello, written w)
unfolding finish
finish_notes w = refl

-- Both are answered, and one click is counted.
both_answered :
    Reach clock memory memory_store (codes "notes") before (answered (hello ∷ hello ∷ []))
both_answered =
    later
      (later (later (later start (begins begin_notes)) (begins begin_notes))
        (finishes here (finish_notes before)))
      (finishes here (finish_notes (written before)))

holds : memory_store.view before (codes "notes") ≡ some (content one_read)
unfolding bytes_eq
holds = refl

Reach-Consistent_example :
    Consistent clock memory memory_store
      (codes "notes")
      (content one_read)
      (answered (hello ∷ hello ∷ []))
Reach-Consistent_example =
    Reach-Consistent clock memory memory_store (codes "notes") (content one_read) before holds tt
      both_answered
