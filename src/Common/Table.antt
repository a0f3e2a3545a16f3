-- ===== src/Common/Table.antt =====
-- Tables: rows found and changed by key, sums and tests over the rows, and maps from keys.
use Prim.Native.Nat.{ℕ}
use mathlib.Core.Path.{◌≡◌, refl}
use mathlib.Core.Logic.{◌≢◌}
use mathlib.Core.Bool.{Bool, false, ◌||◌}
use mathlib.Core.Option.{Option, none, some}
use mathlib.Core.List.{List, [], ◌∷◌}
use native.Mathlib.Omega.{arith}
use c_zdan.Common.Tests.{◌==◌, if◌then◌else◌}
use c_zdan.Common.Int.{ℤ, pos, ◌+ℤ◌, ◌-ℤ◌, int_laws}

-- A map from keys, changed at one key.
abbrev pub put {ℓ} : {V : Type ℓ} → ℕ → V → (ℕ → Option V) → ℕ → Option V
put k v f j = if k == j then some v else f j

module _ {ℓ} {R : Type ℓ} where
  -- SELECT … WHERE key = k: the first row, and by the primary key the only one.
  unfoldable pub find : (R → ℕ) → ℕ → List R → Option R
  find key k [] = none
  find key k (r ∷ rs) = if key r == k then some r else find key k rs

  -- UPDATE … WHERE key = k.
  unfoldable pub modify : (R → ℕ) → ℕ → (R → R) → List R → List R
  modify key k f [] = []
  modify key k f (r ∷ rs) = if key r == k then f r ∷ rs else r ∷ modify key k f rs

  -- SELECT SUM(w) …
  unfoldable pub total : (R → ℤ) → List R → ℤ
  total w [] = pos 0
  total w (r ∷ rs) = w r +ℤ total w rs

  -- EXISTS (SELECT … WHERE p).
  unfoldable pub any : (R → Bool) → List R → Bool
  any p [] = false
  any p (r ∷ rs) = p r || any p rs

  -- SELECT count(*) … WHERE p.
  unfoldable pub count : (R → Bool) → List R → ℕ
  count p [] = 0
  count p (r ∷ rs) = let n = count p rs in if p r then Prim.Native.Nat.suc n else n

  unfoldable pub filter : (R → Bool) → List R → List R
  filter p [] = []
  filter p (r ∷ rs) = let kept = filter p rs in if p r then r ∷ kept else kept

  pub find-modify_self :
      (key : R → ℕ) (k : ℕ) (f : R → R) (rs : List R) (r : R)
      → find key k rs ≡ some r
      → key (f r) ≡ k
      → find key k (modify key k f rs) ≡ some (f r)
  unfolding find modify
  find-modify_self key k f [] r e same = ground arith
  find-modify_self key k f (x ∷ rs) r e same = ground (arith, find-modify_self key k f rs r)

  pub find-modify_ne :
      (key : R → ℕ) (j k : ℕ) (f : R → R) (rs : List R)
      → ((r : R) → key (f r) ≡ key r)
      → j ≢ k
      → find key j (modify key k f rs) ≡ find key j rs
  unfolding find modify
  find-modify_ne key j k f [] same ne = refl
  find-modify_ne key j k f (x ∷ rs) same ne =
      ground (arith, same x, find-modify_ne key j k f rs same)

  pub find-key : (key : R → ℕ) (k : ℕ) (rs : List R) (r : R) → find key k rs ≡ some r → key r ≡ k
  unfolding find
  find-key key k [] r e = ground arith
  find-key key k (x ∷ rs) r e = ground (arith, find-key key k rs r)

  -- Changing the row that was found exchanges its share of a sum.
  pub total-modify :
      (w : R → ℤ) (key : R → ℕ) (k : ℕ) (f : R → R) (rs : List R) (r : R)
      → find key k rs ≡ some r
      → total w (modify key k f rs) ≡ total w rs -ℤ w r +ℤ w (f r)
  unfolding find modify total
  total-modify w key k f [] r e = ground arith
  total-modify w key k f (x ∷ rs) r e = grind (int_laws, total-modify w key k f rs r)

  pub total-modify_same :
      (w : R → ℤ) (key : R → ℕ) (k : ℕ) (f : R → R) (rs : List R)
      → ((r : R) → w (f r) ≡ w r)
      → total w (modify key k f rs) ≡ total w rs
  unfolding modify total
  total-modify_same w key k f [] same = refl
  total-modify_same w key k f (x ∷ rs) same =
      ground (arith, same x, total-modify_same w key k f rs same)
