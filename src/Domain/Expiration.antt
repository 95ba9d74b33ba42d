-- ===== src/Domain/Expiration.antt =====
-- internal/domain/objectvalue/request.go: the expiration date of a record.
use paste_thek4n_ru.Prelude.{Bool, false, if◌then◌else◌}
use paste_thek4n_ru.Prelude.Int.{ℤ, pos, ◌+ℤ◌, ◌-ℤ◌, ltb_ℤ, is_zero}
use paste_thek4n_ru.Exec.{Act}

-- time.Now reads a clock, which stands in the world and may move at each reading. Times are in
-- nanoseconds since a fixed moment.
pub record Clock {ℓ} (W : Type ℓ) : Type ℓ where
  pub now : Act W ℤ

pub record ExpirationDate : Type 0 where
  pub date : ℤ
  pub eternal : Bool

-- `Eternal`
abbrev pub eternal : ExpirationDate → Bool
eternal e = e.eternal

module _ {ℓ} {W : Type ℓ} (clock : Clock W) where
  unfoldable pub new_expiration_date_from_ttl : ℤ → Act W ExpirationDate
  new_expiration_date_from_ttl t w =
      let (now, w') = clock.now w in (record { date = now +ℤ t; eternal = is_zero t }, w')

  -- time.Now().After(e.date)
  unfoldable pub expired : ExpirationDate → Act W Bool
  expired e w =
      let (now, w') = clock.now w in if e.eternal then (false, w) else (ltb_ℤ e.date now, w')

  -- time.Until(e.date)
  unfoldable pub until : ExpirationDate → Act W ℤ
  until e w = let (now, w') = clock.now w in if e.eternal then (pos 0, w) else (e.date -ℤ now, w')
