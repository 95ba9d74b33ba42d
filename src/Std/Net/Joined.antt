-- ===== src/Std/Net/Joined.antt =====
-- net: what `SplitHostPort` gives of an address that `JoinHostPort` writes.
use paste_thek4n_ru.Prelude.{
  ℕ, ◌≡◌, refl, false, ◌||◌, [], ◌∷◌, ◌++◌, none, some, inl, inr, arith, Bool-cases,
}
use paste_thek4n_ru.Prelude.Bytes.{Bytes, elem}
use paste_thek4n_ru.Std.Net.{
  cut, cut_last, split_bracketed, split_plain, split_host_port, join_host_port,
}

pub cut-append : (c : ℕ) (s t : Bytes) → elem c s ≡ false → cut c (s ++ (c ∷ t)) ≡ some (s, t)
unfolding cut elem
cut-append c [] t h = ground arith
cut-append c (b ∷ s) t h = ground (arith, cut-append c s t)

cut_last-none : (c : ℕ) (s : Bytes) → elem c s ≡ false → cut_last c s ≡ none
unfolding cut_last elem
cut_last-none c [] h = refl
cut_last-none c (b ∷ s) h = ground (arith, cut_last-none c s)

cut_last-append : (c : ℕ) (s t : Bytes) → elem c t ≡ false → cut_last c (s ++ (c ∷ t)) ≡ some (s, t)
unfolding cut_last
cut_last-append c [] t h = ground (arith, cut_last-none c t h)
cut_last-append c (b ∷ s) t h = rw (cut_last-append c s t h) refl

elem-append : (c : ℕ) (s t : Bytes) → elem c (s ++ t) ≡ (elem c s || elem c t)
unfolding elem
elem-append c [] t = refl
elem-append c (b ∷ s) t = ground (arith, elem-append c s t)

-- No bracket stands in the text.
pub record Plain (s : Bytes) : Type 0 where
  pub no_open : elem 91 s ≡ false
  pub no_close : elem 93 s ≡ false

split_plain-append :
    (host port : Bytes)
    → Plain host
    → Plain port
    → elem 58 host ≡ false
    → elem 58 port ≡ false
    → split_plain (host ++ (58 ∷ port)) ≡ some host
unfolding split_plain elem
split_plain-append host port h p c d =
    rw
      (
        split_plain,
        cut_last-append 58 host port d,
        c,
        elem-append 91 host (58 ∷ port),
        h.no_open,
        elem-append 93 host (58 ∷ port),
        h.no_close,
        p.no_open,
        p.no_close,
      )
      refl

split_bracketed-append :
    (host port : Bytes)
    → Plain host
    → Plain port
    → elem 58 port ≡ false
    → split_bracketed (host ++ (93 ∷ 58 ∷ port)) ≡ some host
unfolding split_bracketed elem
split_bracketed-append host port h p d =
    rw
      (
        split_bracketed,
        cut-append 93 host (58 ∷ port) h.no_close,
        d,
        elem-append 91 host (93 ∷ 58 ∷ port),
        h.no_open,
        p.no_open,
        p.no_close,
      )
      refl

split_host_port-Plain :
    (host port : Bytes)
    → Plain host
    → split_plain (host ++ (58 ∷ port)) ≡ some host
    → split_host_port (host ++ (58 ∷ port)) ≡ some host
unfolding split_host_port elem
split_host_port-Plain [] port h e = e
split_host_port-Plain (b ∷ host) port h e = ground (arith, h.no_open, e)

pub split_host_port-join_host_port :
    (host port : Bytes)
    → Plain host
    → Plain port
    → elem 58 port ≡ false
    → split_host_port (join_host_port host port) ≡ some host
unfolding join_host_port split_host_port
split_host_port-join_host_port host port h p d = elim (Bool-cases (elem 58 host)) [
  | inl c ↦ rw c (split_bracketed-append host port h p d)
  | inr c ↦ rw c (split_host_port-Plain host port h (split_plain-append host port h p c d))
]
