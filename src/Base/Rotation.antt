-- ===== src/Base/Rotation.antt =====
-- Lists read from an index on and around, as a loop over indices modulo the length reads them.
use Prim.Native.Nat.{ℕ, zero, suc, ◌+◌, ◌-◌, ◌%◌, ◌≤◌, ◌<◌}
use mathlib.Core.Path.{◌≡◌, refl, ◌∙◌}
use mathlib.Core.Logic.{◌⊎◌, inl, inr}
use mathlib.Core.Option.{some}
use mathlib.Core.List.{List, [], ◌∷◌, ◌++◌}
use native.Mathlib.Omega.{arith}
use native.Mathlib.Nat.{mod-eq_of_lt, mod-eq-sub-mod}
use plus_quic_go.Base.Tests.{ltb, if◌then◌else◌}
use plus_quic_go.Base.Lists.{
  length, length-append, take, drop, length-drop, length-take_le, get_elem?,
}

module _ {A : Type 0} where
  get_elem?-drop : (s k : ℕ) (xs : List A) → get_elem? k (drop s xs) ≡ get_elem? (k + s) xs
  get_elem?-drop zero k xs = let e : k + 0 ≡ k = omega arith in rw e refl
  get_elem?-drop (suc s) k [] = refl
  get_elem?-drop (suc s) k (x ∷ xs) =
      let e : k + suc s ≡ suc (k + s) = omega arith in rw e (get_elem?-drop s k xs)

  get_elem?-take : (s k : ℕ) (xs : List A) → k < s → get_elem? k (take s xs) ≡ get_elem? k xs
  get_elem?-take zero k xs h = absurd (omega arith)
  get_elem?-take (suc s) k [] h = refl
  get_elem?-take (suc s) zero (x ∷ xs) h = refl
  get_elem?-take (suc s) (suc k) (x ∷ xs) h = get_elem?-take s k xs (omega arith)

  get_elem?-append :
      (k : ℕ) (xs ys : List A)
      → get_elem? k (xs ++ ys)
        ≡ (if ltb k (length xs) then get_elem? k xs else get_elem? (k - length xs) ys)
  get_elem?-append k [] ys = ground arith
  get_elem?-append zero (x ∷ xs) ys = ground arith
  get_elem?-append (suc k) (x ∷ xs) ys = ground (arith, get_elem?-append k xs ys)

  pub drop-get_elem? :
      (k : ℕ) (x : A) (xs : List A) → get_elem? k xs ≡ some x → drop k xs ≡ x ∷ drop (suc k) xs
  drop-get_elem? k x [] e = absurd (ground arith)
  drop-get_elem? zero x (y ∷ xs) e = ground arith
  drop-get_elem? (suc k) x (y ∷ xs) e = drop-get_elem? k x xs e

  pub drop-beyond : (k : ℕ) (xs : List A) → length xs ≤ k → drop k xs ≡ []
  drop-beyond zero [] h = refl
  drop-beyond (suc k) [] h = refl
  drop-beyond zero (x ∷ xs) h = absurd (omega arith)
  drop-beyond (suc k) (x ∷ xs) h = drop-beyond k xs (omega arith)

  -- The list from the index `s` on, and then the part before.
  abbrev pub rotated : ℕ → List A → List A
  rotated s xs = drop s xs ++ take s xs

  pub length-rotated : (s : ℕ) (xs : List A) → s ≤ length xs → length (rotated s xs) ≡ length xs
  length-rotated s xs h =
      omega (arith, length-append (drop s xs) (take s xs), length-drop s xs, length-take_le s xs h)

  pub get_elem?-rotated :
      (s k : ℕ) (xs : List A)
      → s ≤ length xs
      → k < length xs
      → get_elem? k (rotated s xs) ≡ get_elem? ((k + s) % length xs) xs
  get_elem?-rotated s k xs h l =
      let a = get_elem?-append k (drop s xs) (take s xs) in
      let d = length-drop s xs in
      elim (split k (length xs - s)) [
        | inl lt ↦
            let m : (k + s) % length xs ≡ k + s = mod-eq_of_lt (omega arith) in
            rw m (ground (arith, a, d, get_elem?-drop s k xs))
        | inr le ↦
            let m : (k + s) % length xs ≡ k - (length xs - s) =
              mod-eq-sub-mod {n = k + s} {m = length xs} (omega arith)
              ∙ (mod-eq_of_lt (omega arith) ∙ omega arith) in
            rw m (ground (arith, a, d, get_elem?-take s (k - (length xs - s)) xs (omega arith)))
      ]
    where
      split : (a b : ℕ) → (a < b) ⊎ (b ≤ a)
      split a b = grind arith
