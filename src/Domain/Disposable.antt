-- ===== src/Domain/Disposable.antt =====
-- internal/domain/objectvalue/request.go: the counter of the reads that are left.
use paste_thek4n_ru.Prelude.{ℕ, ◌-◌, Bool, false, ltb, ◌==◌, if◌then◌else◌}

-- `value` is a uint8.
pub record DisposableCounter : Type 0 where
  pub value : ℕ
  pub eternal : Bool

abbrev pub new_disposable_counter : ℕ → Bool → DisposableCounter
new_disposable_counter value eternal = record { value = value; eternal = eternal }

-- The getters `Value` and `Eternal`.
abbrev pub value : DisposableCounter → ℕ
value d = d.value

abbrev pub eternal : DisposableCounter → Bool
eternal d = d.eternal

unfoldable pub sub : DisposableCounter → DisposableCounter
sub d = if d.eternal then d else if d.value == 0 then d else record d { value = d.value - 1 }

unfoldable pub exhausted : DisposableCounter → Bool
exhausted d = if d.eternal then false else ltb d.value 1
