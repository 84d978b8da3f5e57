-- ===== src/Base/Keyed.antt =====
-- Go maps with integer keys, as association lists. `insert` replaces the entry of a key that is
-- there, so that a key stands once; the order of the list is the order in which `range` visits.
use Prim.Native.Nat.{ℕ}
use mathlib.Core.Path.{◌≡◌, refl}
use mathlib.Core.Option.{Option, none, some}
use mathlib.Core.List.{List, [], ◌∷◌, ◌++◌}
use native.Mathlib.Omega.{arith}
use plus_quic_go.Base.Tests.{◌==◌, if◌then◌else◌}

module _ {ℓ} {V : Type ℓ} where
  abbrev pub lookup : ℕ → List (ℕ × V) → Option V
  lookup k [] = none
  lookup k ((j, v) ∷ m) = if j == k then some v else lookup k m

  abbrev pub insert : ℕ → V → List (ℕ × V) → List (ℕ × V)
  insert k v [] = (k, v) ∷ []
  insert k v ((j, w) ∷ m) = if j == k then (k, v) ∷ m else (j, w) ∷ insert k v m

  abbrev pub delete : ℕ → List (ℕ × V) → List (ℕ × V)
  delete k [] = []
  delete k ((j, w) ∷ m) = if j == k then delete k m else (j, w) ∷ delete k m

  pub lookup-insert :
      (k j : ℕ) (v : V) (m : List (ℕ × V))
      → lookup j (insert k v m) ≡ (if k == j then some v else lookup j m)
  lookup-insert k j v [] = refl
  lookup-insert k j v ((i, w) ∷ m) = ground (arith, lookup-insert k j v m)

  pub lookup-delete :
      (k j : ℕ) (m : List (ℕ × V)) → lookup j (delete k m) ≡ (if k == j then none else lookup j m)
  lookup-delete k j [] = ground arith
  lookup-delete k j ((i, w) ∷ m) = ground (arith, lookup-delete k j m)

  abbrev pub keys : List (ℕ × V) → List ℕ
  keys [] = []
  keys ((k, v) ∷ m) = k ∷ keys m

  -- Every key stands once.
  abbrev pub IsDistinct : List (ℕ × V) → Type ℓ
  IsDistinct [] = Unit {ℓ}
  IsDistinct ((k, v) ∷ m) = (lookup k m ≡ none) × IsDistinct m

  pub keys-insert :
      (k : ℕ) (v : V) (m : List (ℕ × V))
      → lookup k m ≡ none
      → keys (insert k v m) ≡ keys m ++ k ∷ []
  keys-insert k v [] e = refl
  keys-insert k v ((j, w) ∷ m) e = ground (arith, keys-insert k v m)

  pub IsDistinct-insert :
      (k : ℕ) (v : V) (m : List (ℕ × V))
      → lookup k m ≡ none
      → IsDistinct m
      → IsDistinct (insert k v m)
  IsDistinct-insert k v [] e d = (refl, tt)
  IsDistinct-insert k v ((j, w) ∷ m) e d =
      ground (arith, IsDistinct-insert k v m, lookup-insert k j v m)

  pub delete-absent : (k : ℕ) (m : List (ℕ × V)) → lookup k m ≡ none → delete k m ≡ m
  delete-absent k [] e = refl
  delete-absent k ((j, w) ∷ m) e = ground (arith, delete-absent k m)

  pub IsDistinct-delete : (k : ℕ) (m : List (ℕ × V)) → IsDistinct m → IsDistinct (delete k m)
  IsDistinct-delete k [] d = tt
  IsDistinct-delete k ((j, w) ∷ m) d =
      ground (arith, IsDistinct-delete k m d.1, lookup-delete k j m)
