-- ===== src/Redis/Join.antt =====
-- Text of segments joined by ':', as the format strings of the keys do it, and strings.Split.
use snapshot_sequencer_valid.Base.{
  ℕ, Text, List, [], ◌∷◌, ◌++◌, false, nat_eqb, if◌then◌else◌, ◌≡◌, refl, ap, All,
}

abbrev pub colon : ℕ
colon = b':'

unfoldable pub join : List Text → Text
join [] = []
join (s ∷ []) = s
join (s ∷ t ∷ ts) = s ++ colon ∷ join (t ∷ ts)

unfoldable pub push_byte : ℕ → List Text → List Text
push_byte c [] = (c ∷ []) ∷ []
push_byte c (s ∷ ts) = (c ∷ s) ∷ ts

-- strings.Split(s, ":")
unfoldable pub split : Text → List Text
unfolding push_byte
split [] = [] ∷ []
split (c ∷ s) = if nat_eqb c colon then [] ∷ split s else push_byte c (split s)

-- The text has no ':'.
abbrev pub Plain : Text → Type 0
Plain s = All (λ c. nat_eqb c colon ≡ false) s

split_head :
    (s : Text) (rest : Text) (t : Text) (ts : List Text)
    → Plain s
    → split rest ≡ t ∷ ts
    → split (s ++ rest) ≡ (s ++ t) ∷ ts
unfolding split
split_head [] rest t ts p e = e
split_head (c ∷ s) rest t ts p e = rw (p.0, split_head s rest t ts p.1 e, push_byte)

append-empty : (s : Text) → s ++ [] ≡ s
append-empty [] = refl
append-empty (c ∷ s) = rw (append-empty s)

split-Plain : (s : Text) → Plain s → split s ≡ s ∷ []
unfolding split
split-Plain [] p = refl
split-Plain (c ∷ s) p = rw (p.0, split-Plain s p.1, push_byte)

-- Splitting a key gives back its segments, if none of them contains the separator.
pub split-join : (s : Text) (ts : List Text) → All Plain (s ∷ ts) → split (join (s ∷ ts)) ≡ s ∷ ts
unfolding join
split-join s [] h = split-Plain s h.0
split-join s (t ∷ ts) h =
    rw
      (
        split_head s (colon ∷ join (t ∷ ts)) [] (split (join (t ∷ ts))) h.0 split_colon,
        append-empty,
      )
      (ap (◌∷◌ s) (split-join t ts h.1))
  where
    split_colon : split (colon ∷ join (t ∷ ts)) ≡ [] ∷ split (join (t ∷ ts))
    split_colon = unfold split in refl
