-- ===== src/Common/Array.antt =====
-- A C array with a count of its used entries, as a function from indices; the loops that the
-- debugger's tables share; and the list of used entries that a table stands for.
use Prim.Native.Nat.{ℕ, zero, suc, ◌+◌, ◌-◌, ◌≤◌, ◌<◌}
use mathlib.Core.Path.{◌≡◌, refl, ap, ap₂, ◌∙◌}
use mathlib.Core.Logic.{inl, inr}
use mathlib.Core.Bool.{Bool, true, false}
use mathlib.Core.Option.{Option, none, some}
use mathlib.Core.List.{List, [], ◌∷◌, ◌++◌}
use native.Mathlib.Omega.{arith}
use ben_eater.Common.Tests.{◌==◌, if◌then◌else◌, Bool-cases, ne→==_false, tests}

module _ {ℓ} {A : Type ℓ} where
  -- array[i] = v
  abbrev pub update : (ℕ → A) → ℕ → A → ℕ → A
  update arr i v j = if j == i then v else arr j

  -- for (i; n rounds; i++) if (test(array[i])) return i;
  unfoldable pub find_from : (A → Bool) → (ℕ → A) → ℕ → ℕ → Option ℕ
  find_from test arr i zero = none
  find_from test arr i (suc n) =
      let rest = find_from test arr (suc i) n in if test (arr i) then some i else rest

  -- for (j; n rounds; j++) array[j] = array[j + 1];
  unfoldable pub shift_down : (ℕ → A) → ℕ → ℕ → ℕ → A
  shift_down arr j zero = arr
  shift_down arr j (suc n) = shift_down (update arr j (arr (suc j))) (suc j) n

  -- The `n` entries from index `i` on.
  abbrev pub window : (ℕ → A) → ℕ → ℕ → List A
  window arr i zero = []
  window arr i (suc n) = arr i ∷ window arr (suc i) n

  -- The list without its first entry that passes the test.
  unfoldable pub remove_first : (A → Bool) → List A → List A
  remove_first test [] = []
  remove_first test (x ∷ xs) = if test x then xs else x ∷ remove_first test xs

  unfoldable pub any_passes : (A → Bool) → List A → Bool
  any_passes test [] = false
  any_passes test (x ∷ xs) = if test x then true else any_passes test xs

  shift_down-below : (arr : ℕ → A) (j n m : ℕ) → m < j → shift_down arr j n m ≡ arr m
  unfolding shift_down
  shift_down-below arr j zero m h = refl
  shift_down-below arr j (suc n) m h =
      ground (arith, shift_down-below (update arr j (arr (suc j))) (suc j) n m)

  shift_down-inside :
      (arr : ℕ → A) (j n m : ℕ) → j ≤ m → m < j + n → shift_down arr j n m ≡ arr (suc m)
  unfolding shift_down
  shift_down-inside arr j zero m h k = absurd (omega arith)
  shift_down-inside arr j (suc n) m h k = elim (Bool-cases (m == j)) [
    | inl e ↦
        shift_down-below (update arr j (arr (suc j))) (suc j) n m (omega (tests, e))
        ∙ rw e (ap (λ (i : ℕ). arr (suc i)) (omega (tests, e)))
    | inr ne ↦
        shift_down-inside (update arr j (arr (suc j))) (suc j) n m (omega (tests, ne)) (omega arith)
        ∙ rw (ne→==_false (suc m) j (omega arith))
  ]

  pub window-shift :
      (arr : ℕ → A) (j r i n : ℕ)
      → j ≤ i
      → i + n ≤ j + r
      → window (shift_down arr j r) i n ≡ window arr (suc i) n
  window-shift arr j r i zero h k = refl
  window-shift arr j r i (suc n) h k =
      ap₂ ◌∷◌ (shift_down-inside arr j r i h (omega arith))
        (window-shift arr j r (suc i) n (omega arith) (omega arith))

  -- A write behind the used entries appends.
  pub window-update :
      (arr : ℕ → A) (i n k : ℕ) (v : A)
      → k ≡ i + n
      → window (update arr k v) i (suc n) ≡ window arr i n ++ (v ∷ [])
  window-update arr i zero k v e = ground arith
  window-update arr i (suc n) k v e =
      ap₂ ◌∷◌ (ground arith) (window-update arr (suc i) n k v (omega arith))

  module _ (test : A → Bool) where
    pub find_from-none :
        (arr : ℕ → A) (i n : ℕ)
        → find_from test arr i n ≡ none
        → (any_passes test (window arr i n) ≡ false)
          × (remove_first test (window arr i n) ≡ window arr i n)
    unfolding find_from any_passes remove_first
    find_from-none arr i zero e = (refl, refl)
    find_from-none arr i (suc n) e = ground (arith, find_from-none arr (suc i) n)

    pub find_from-some :
        (arr : ℕ → A) (i n k : ℕ)
        → find_from test arr i n ≡ some k
        → (i ≤ k) × (k < i + n) × (test (arr k) ≡ true) × (any_passes test (window arr i n) ≡ true)
    unfolding find_from any_passes
    find_from-some arr i zero k e = cc
    find_from-some arr i (suc n) k e = ground (arith, find_from-some arr (suc i) n k)

    find_from-here :
        (arr : ℕ → A) (i n k : ℕ)
        → test (arr i) ≡ true
        → find_from test arr i (suc n) ≡ some k
        → i ≡ k
    unfolding find_from
    find_from-here arr i n k t e = ground arith

    find_from-next :
        (arr : ℕ → A) (i n k : ℕ)
        → test (arr i) ≡ false
        → find_from test arr i (suc n) ≡ some k
        → find_from test arr (suc i) n ≡ some k
    unfolding find_from
    find_from-next arr i n k f e = ground arith

    -- The search and the shift together take the first passing entry out of the list.
    pub window-remove :
        (arr : ℕ → A) (i n k r : ℕ)
        → find_from test arr i (suc n) ≡ some k
        → k + r ≡ i + n
        → window (shift_down arr k r) i n ≡ remove_first test (window arr i (suc n))
    unfolding remove_first
    window-remove arr i zero k r e h = elim (Bool-cases (test (arr i))) [
      | inl t ↦ rw t
      | inr f ↦
          absurd (omega (arith, find_from-some arr (suc i) 0 k (find_from-next arr i 0 k f e)))
    ]
    window-remove arr i (suc n) k r e h = elim (Bool-cases (test (arr i))) [
      | inl t ↦ rw t (
          window-shift arr k r i (suc n) (omega (arith, find_from-here arr i (suc n) k t e))
            (omega (arith, find_from-here arr i (suc n) k t e)))
      | inr f ↦
          let e' = find_from-next arr i (suc n) k f e in
          rw f (
            ap₂ ◌∷◌
              (shift_down-below arr k r i (omega (arith, find_from-some arr (suc i) (suc n) k e')))
              (window-remove arr (suc i) n k r e' (omega arith)))
    ]

    -- The removal as the tables write it, from a search of all `n` entries.
    pub window-remove_found :
        (arr : ℕ → A) (n k : ℕ)
        → find_from test arr 0 n ≡ some k
        → window (shift_down arr k (n - 1 - k)) 0 (n - 1) ≡ remove_first test (window arr 0 n)
    window-remove_found arr zero k e = absurd (omega (arith, find_from-some arr 0 0 k e))
    window-remove_found arr (suc n) k e =
        let short : suc n - 1 ≡ n = omega arith in
        rw short
          (window-remove arr 0 n k (n - k) e (omega (arith, find_from-some arr 0 (suc n) k e)))
