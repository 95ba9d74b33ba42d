-- ===== src/Exec/Kept.antt =====
-- Steps of the world that change no key of a store, but may lose some.
use paste_thek4n_ru.Prelude.{◌≡◌, ◌∙◌, ◌⊎◌, inl, inr, Option, none}

-- From `w` to `w'` keys have kept their values, or vanished.
abbrev pub Kept {ℓ} : {W V : Type 0} {K : Type ℓ} → (W → K → Option V) → W → W → Type ℓ
Kept {K} view w w' = (k : K) → (view w' k ≡ view w k) ⊎ (view w' k ≡ none)

pub Kept-trans {ℓ} :
    {W V : Type 0} {K : Type ℓ} (view : W → K → Option V) {u v w : W}
    → Kept view u v
    → Kept view v w
    → Kept view u w
Kept-trans view {u} {v} {w} f g k = elim (g k) [
  | inr gone ↦ inr gone
  | inl same ↦ elim (f k) [ inl before ↦ inl (same ∙ before) | inr gone ↦ inr (same ∙ gone) ]
]

pub Kept-none {ℓ} :
    {W V : Type 0} {K : Type ℓ} (view : W → K → Option V) {u v : W} (k : K)
    → Kept view u v
    → view u k ≡ none
    → view v k ≡ none
Kept-none view k f h = elim (f k) [ inl same ↦ same ∙ h | inr gone ↦ gone ]

pub Kept-some {ℓ} :
    {W V : Type 0} {K : Type ℓ} (view : W → K → Option V) {v w : W} (k : K) {x : Option V}
    → Kept view v w
    → (view v k ≡ x) ⊎ (view v k ≡ none)
    → (view w k ≡ x) ⊎ (view w k ≡ none)
Kept-some view k f (inr gone) = inr (Kept-none view k f gone)
Kept-some view k f (inl held) = elim (f k) [ inl same ↦ inl (same ∙ held) | inr gone ↦ inr gone ]

pub Kept-at {ℓ} :
    {W V : Type 0} {K : Type ℓ} (view : W → K → Option V) {u v w : W} (k : K)
    → (view v k ≡ view u k) ⊎ (view v k ≡ none)
    → (view w k ≡ view v k) ⊎ (view w k ≡ none)
    → (view w k ≡ view u k) ⊎ (view w k ≡ none)
Kept-at view k f (inr gone) = inr gone
Kept-at view k (inl before) (inl same) = inl (same ∙ before)
Kept-at view k (inr gone) (inl same) = inr (same ∙ gone)
