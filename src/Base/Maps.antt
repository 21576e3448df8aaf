-- ===== src/Base/Maps.antt =====
-- Go maps as association lists with distinct keys. The list's order is one order in which `range`
-- may visit the map; the laws of `get` do not depend on it.
use Prim.Native.Nat.{suc, ◌-◌, ◌<◌}
use mathlib.Core.Path.{◌≡◌, refl}
use mathlib.Core.Logic.{◌⊎◌, inl, inr}
use mathlib.Core.Bool.{Bool, true, false}
use mathlib.Core.List.{List, [], ◌∷◌, ◌++◌}
use mathlib.Core.Option.{Option, none, some}
use native.Mathlib.Omega.{arith}
use snapshot_sequencer_valid.Base.Tests.{Comparable, ◌==◌, Bool-cases, if◌then◌else◌}
use snapshot_sequencer_valid.Base.Lists.{length}
use snapshot_sequencer_valid.Base.Options.{or_else}

abbrev pub Map {ℓ κ} : Type ℓ → Type κ → Type (ℓ ⊔ κ)
Map K V = List (K × V)

module _ {ℓ κ} {K : Type ℓ} {V : Type κ} ⦃e : Comparable K⦄ where
  -- v, ok := m[k]
  unfoldable pub get : K → Map K V → Option V
  get k [] = none
  get k ((j, v) ∷ m) = if j == k then some v else get k m

  -- _, ok := m[k]
  unfoldable pub has : K → Map K V → Bool
  has k [] = false
  has k ((j, v) ∷ m) = if j == k then true else has k m

  -- m[k] = v
  unfoldable pub put : K → V → Map K V → Map K V
  put k v [] = (k, v) ∷ []
  put k v ((j, w) ∷ m) = if j == k then (j, v) ∷ m else (j, w) ∷ put k v m

  -- delete(m, k)
  unfoldable pub del : K → Map K V → Map K V
  del k [] = []
  del k ((j, v) ∷ m) = let rest = del k m in if j == k then rest else (j, v) ∷ rest

  pub get-put :
      (k j : K) (v : V) (m : Map K V) → get j (put k v m) ≡ (if k == j then some v else get j m)
  unfolding get put
  get-put k j v [] = refl
  get-put k j v ((i, w) ∷ m) =
      ground (arith, e.is_equal_iff k j, e.is_equal_iff i k, e.is_equal_iff i j, get-put k j v m)

  pub get-del : (k j : K) (m : Map K V) → get j (del k m) ≡ (if k == j then none else get j m)
  unfolding get del
  get-del k j [] = ground arith
  get-del k j ((i, w) ∷ m) =
      ground (arith, e.is_equal_iff k j, e.is_equal_iff i k, e.is_equal_iff i j, get-del k j m)

  pub has-put :
      (k j : K) (v : V) (m : Map K V) → has j (put k v m) ≡ (if k == j then true else has j m)
  unfolding has put
  has-put k j v [] = refl
  has-put k j v ((i, w) ∷ m) =
      ground (arith, e.is_equal_iff k j, e.is_equal_iff i k, e.is_equal_iff i j, has-put k j v m)

  pub has-del : (k j : K) (m : Map K V) → has j (del k m) ≡ (if k == j then false else has j m)
  unfolding has del
  has-del k j [] = ground arith
  has-del k j ((i, w) ∷ m) =
      ground (arith, e.is_equal_iff k j, e.is_equal_iff i k, e.is_equal_iff i j, has-del k j m)

  pub length-put :
      (k : K) (v : V) (m : Map K V)
      → length (put k v m) ≡ (if has k m then length m else suc (length m))
  unfolding put has
  length-put k v [] = refl
  length-put k v ((i, w) ∷ m) = ground (arith, length-put k v m)

  -- No key stands twice.
  abbrev pub Distinct : Map K V → Type 0
  Distinct [] = Unit
  Distinct ((k, _) ∷ m) = (has k m ≡ false) × Distinct m

  pub put-Distinct : (k : K) (v : V) (m : Map K V) → Distinct m → Distinct (put k v m)
  unfolding put has
  put-Distinct k v [] d = ground arith
  put-Distinct k v ((i, w) ∷ m) d = elim (Bool-cases (i == k)) [
    | inl same ↦ rw same d
    | inr other ↦ rw other (
      ground (arith, has-put k i v m, e.is_equal_iff i k, e.is_equal_iff k i),
      put-Distinct k v m d.1,
    )
  ]

  pub del-Distinct : (k : K) (m : Map K V) → Distinct m → Distinct (del k m)
  unfolding del has
  del-Distinct k [] d = d
  del-Distinct k ((i, w) ∷ m) d = elim (Bool-cases (i == k)) [
    | inl same ↦ rw same (del-Distinct k m d.1)
    | inr other ↦ rw other (ground (arith, has-del k i m), del-Distinct k m d.1)
  ]

  del_absent : (k : K) (m : Map K V) → has k m ≡ false → del k m ≡ m
  unfolding del has
  del_absent k [] h = refl
  del_absent k ((i, w) ∷ m) h = ground (arith, del_absent k m)

  pub has_nonempty : (k : K) (m : Map K V) → has k m ≡ true → 0 < length m
  unfolding has
  has_nonempty k [] h = cc
  has_nonempty k (x ∷ m) h = omega arith

  pub length-del :
      (k : K) (m : Map K V)
      → Distinct m
      → length (del k m) ≡ (if has k m then length m - 1 else length m)
  unfolding del has
  length-del k [] d = refl
  length-del k ((i, w) ∷ m) d = elim (Bool-cases (i == k)) [
    | inl same ↦ rw (same, del_absent k m (ground (arith, e.is_equal_iff i k))) (omega arith)
    | inr other ↦ ground (arith, length-del k m d.1, has_nonempty k m)
  ]

  pub has-get : (k : K) (m : Map K V) → has k m ≡ true → (v : V) × (get k m ≡ some v)
  unfolding has get
  has-get k [] h = cc
  has-get k ((i, w) ∷ m) h = elim (Bool-cases (i == k)) [
    | inl same ↦ (w, rw same)
    | inr other ↦ rw other (has-get k m (ground arith))
  ]

  pub has-of-get : (k : K) (m : Map K V) (v : V) → get k m ≡ some v → has k m ≡ true
  unfolding has get
  has-of-get k [] v h = cc
  has-of-get k ((i, w) ∷ m) v h = ground (arith, has-of-get k m v)

  -- A key is absent, or there with a value.
  pub key-cases :
      (k : K) (m : Map K V)
      → ((get k m ≡ none) × (has k m ≡ false)) ⊎ ((v : V) × (get k m ≡ some v) × (has k m ≡ true))
  unfolding get has
  key-cases k [] = inl (refl, refl)
  key-cases k ((i, w) ∷ m) = elim (Bool-cases (i == k)) [
    | inl same ↦ rw same (inr (w, refl, refl))
    | inr other ↦ rw other (key-cases k m)
  ]

  pub get-append : (k : K) (xs ys : Map K V) → get k (xs ++ ys) ≡ or_else (get k xs) (get k ys)
  unfolding get
  get-append k [] ys = refl
  get-append k ((j, v) ∷ xs) ys = ground (arith, get-append k xs ys)
