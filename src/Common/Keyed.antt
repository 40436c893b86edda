-- ===== src/Common/Keyed.antt =====
-- Lists whose entries have a number for a key, at most one entry to a key: what the debugger's
-- tables of breakpoints and of monitored addresses stand for.
use ben_eater.Common.Tests.{◌==◌, if◌then◌else◌, Bool-cases, tests, ne→==_false, ==→eq}
use ben_eater.Common.Lists.{length}
use ben_eater.Common.Array.{any_passes, remove_first}
use Prim.Native.Nat.{ℕ, suc}
use mathlib.Core.Path.{◌≡◌, refl, ◌∙◌}
use mathlib.Core.Logic.{◌≢◌, inl, inr}
use mathlib.Core.Bool.{Bool, true, false, not}
use mathlib.Core.List.{List, [], ◌∷◌, ◌++◌}
use native.Mathlib.Omega.{arith}

module _ {A : Type 0} (key : A → ℕ) where
  abbrev pub has_key : ℕ → A → Bool
  has_key k x = key x == k

  -- Whether an entry has the key.
  abbrev pub holds : ℕ → List A → Bool
  holds k xs = any_passes (has_key k) xs

  abbrev pub Distinct : List A → Type 0
  Distinct [] = Unit {0}
  Distinct (x ∷ xs) = (holds (key x) xs ≡ false) × Distinct xs

  pub holds-append :
      (k : ℕ) (xs : List A) (x : A)
      → holds k (xs ++ (x ∷ [])) ≡ (if key x == k then true else holds k xs)
  unfolding any_passes
  holds-append k [] x = refl
  holds-append k (y ∷ ys) x = ground (arith, holds-append k ys x)

  pub holds-remove_ne :
      (k j : ℕ) (xs : List A) → k ≢ j → holds j (remove_first (has_key k) xs) ≡ holds j xs
  unfolding any_passes remove_first
  holds-remove_ne k j [] h = refl
  holds-remove_ne k j (x ∷ xs) h = ground (arith, holds-remove_ne k j xs h)

  pub holds-remove_self :
      (k : ℕ) (xs : List A) → Distinct xs → holds k (remove_first (has_key k) xs) ≡ false
  unfolding any_passes remove_first
  holds-remove_self k [] d = refl
  holds-remove_self k (x ∷ xs) d = ground (arith, holds-remove_self k xs d.1)

  pub Distinct-remove : (k : ℕ) (xs : List A) → Distinct xs → Distinct (remove_first (has_key k) xs)
  unfolding any_passes remove_first
  Distinct-remove k [] d = tt
  Distinct-remove k (x ∷ xs) d = elim (Bool-cases (key x == k)) [
    | inl e ↦ rw e d.1
    | inr ne ↦
        rw ne (rw (holds-remove_ne k (key x) xs (omega (tests, ne))) d.0, Distinct-remove k xs d.1)
  ]

  pub Distinct-append :
      (xs : List A) (x : A) → Distinct xs → holds (key x) xs ≡ false → Distinct (xs ++ (x ∷ []))
  unfolding any_passes
  Distinct-append [] x d h = (refl, tt)
  Distinct-append (y ∷ ys) x d h = elim (Bool-cases (key y == key x)) [
    | inl e ↦ absurd (ground arith)
    | inr ne ↦ (
      rw (holds-append (key y) ys x, ne→==_false (key x) (key y) (omega (tests, ne))) d.0,
      Distinct-append ys x d.1 (rw ne at h),
    )
  ]

  pub length-remove :
      (k : ℕ) (xs : List A)
      → holds k xs ≡ true
      → suc (length (remove_first (has_key k) xs)) ≡ length xs
  unfolding any_passes remove_first
  length-remove k [] h = ground arith
  length-remove k (x ∷ xs) h = ground (arith, length-remove k xs)

  -- Take the entry with the key out if there is one, else append one.
  abbrev pub toggled : A → List A → List A
  toggled x xs = if holds (key x) xs then remove_first (has_key (key x)) xs else xs ++ (x ∷ [])

  pub holds-toggled :
      (x : A) (j : ℕ) (xs : List A)
      → Distinct xs
      → holds j (toggled x xs) ≡ (if key x == j then not (holds (key x) xs) else holds j xs)
  holds-toggled x j xs d = elim (Bool-cases (holds (key x) xs)) [
    | inl old ↦ elim (Bool-cases (key x == j)) [
      | inl e ↦ rw (old, e) (rw (← ==→eq (key x) j e) (holds-remove_self (key x) xs d))
      | inr ne ↦ rw (old, ne) (holds-remove_ne (key x) j xs (omega (tests, ne)))
    ]
    | inr new ↦ rw new (holds-append j xs x ∙ ground arith)
  ]

  pub Distinct-toggled : (x : A) (xs : List A) → Distinct xs → Distinct (toggled x xs)
  Distinct-toggled x xs d = elim (Bool-cases (holds (key x) xs)) [
    | inl old ↦ rw old (Distinct-remove (key x) xs d)
    | inr new ↦ rw new (Distinct-append xs x d new)
  ]
