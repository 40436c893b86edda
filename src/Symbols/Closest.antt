-- ===== src/Symbols/Closest.antt =====
-- `find_closest_symbol` against what the closest symbol at or below an address is.
use mathlib.Core.List.{append_assoc, append-nil}
use ben_eater.Common.{
  ℕ, ◌-◌, ◌≤◌, ◌<◌, ◌≡◌, refl, Bool, true, false, ◌&&◌, Option, none, some, List, [], ◌∷◌, ◌++◌,
  leb, ltb, arith, inl, inr, Bool-cases,
}
use ben_eater.Symbols.{SymbolEntry, uint_max, closest_loop, find_closest_symbol}

abbrev pub All : (SymbolEntry → Type 0) → List SymbolEntry → Type 0
All P [] = Unit {0}
All P (x ∷ xs) = P x × All P xs

All-append :
    (P : SymbolEntry → Type 0) (xs ys : List SymbolEntry) → All P xs → All P ys → All P (xs ++ ys)
All-append P [] ys h k = k
All-append P (x ∷ xs) ys h k = (h.0, All-append P xs ys h.1 k)

All-map :
    (P Q : SymbolEntry → Type 0) (xs : List SymbolEntry)
    → ((x : SymbolEntry) → P x → Q x)
    → All P xs
    → All Q xs
All-map P Q [] f h = tt
All-map P Q (x ∷ xs) f h = (f x h.0, All-map P Q xs f h.1)

abbrev pub Above : ℕ → SymbolEntry → Type 0
Above address x = address < x.address

-- Above the address, or below the symbol.
abbrev pub Worse : ℕ → SymbolEntry → SymbolEntry → Type 0
Worse address s x = x.address ≤ address → x.address < s.address

abbrev pub NoBetter : ℕ → SymbolEntry → SymbolEntry → Type 0
NoBetter address s x = x.address ≤ address → x.address ≤ s.address

-- The first of the symbols with the greatest address that is not above the given one; there is none
-- exactly if all are above.
abbrev pub IsClosest : ℕ → List SymbolEntry → Option SymbolEntry → Type 0
IsClosest address xs none = All (Above address) xs
IsClosest address xs (some s) =
    (before : List SymbolEntry) × (after : List SymbolEntry) × (xs ≡ before ++ (s ∷ after))
    × (s.address ≤ address)
    × All (Worse address s) before
    × All (NoBetter address s) after

module _ (address : ℕ) (small : address < uint_max) where
  -- What the loop knows of the symbols that it has passed.
  abbrev Passed : List SymbolEntry → Option SymbolEntry → ℕ → Type 0
  Passed seen none min_distance = (min_distance ≡ uint_max) × All (Above address) seen
  Passed seen (some s) min_distance =
      (min_distance ≡ address - s.address) × IsClosest address seen (some s)

  Passed→IsClosest :
      (seen : List SymbolEntry) (closest : Option SymbolEntry) (min_distance : ℕ)
      → Passed seen closest min_distance
      → IsClosest address seen closest
  Passed→IsClosest seen none min_distance h = h.1
  Passed→IsClosest seen (some s) min_distance h = h.1

  abbrev nearer : SymbolEntry → ℕ → Bool
  nearer x min_distance = leb x.address address && ltb (address - x.address) min_distance

  take_it :
      (x : SymbolEntry) (seen : List SymbolEntry) (closest : Option SymbolEntry) (min_distance : ℕ)
      → nearer x min_distance ≡ true
      → Passed seen closest min_distance
      → Passed (seen ++ (x ∷ [])) (some x) (address - x.address)
  take_it x seen none m e (em, above) = (
    refl,
    (
      seen,
      [],
      refl,
      ground arith,
      All-map (Above address) (Worse address x) seen (λ y h k. absurd (omega arith)) above,
      tt,
    ),
  )
  take_it x seen (some s) m e (em, (before, after, parts, low, worse, best)) = (
    refl,
    (
      seen,
      [],
      refl,
      ground arith,
      rw parts (
          All-append (Worse address x) before (s ∷ after)
            (All-map (Worse address s) (Worse address x) before
              (λ y h k. omega (arith, h k, higher)) worse)
            (
              λ k. higher,
              All-map (NoBetter address s) (Worse address x) after
                  (λ y h k. omega (arith, h k, higher)) best,
            )),
      tt,
    ),
  )
    where
      higher : s.address < x.address
      higher = ground arith

  leave_it :
      (x : SymbolEntry) (seen : List SymbolEntry) (closest : Option SymbolEntry) (min_distance : ℕ)
      → nearer x min_distance ≡ false
      → Passed seen closest min_distance
      → Passed (seen ++ (x ∷ [])) closest min_distance
  leave_it x seen none m e (em, above) =
      (em, All-append (Above address) seen (x ∷ []) above (ground arith, tt))
  leave_it x seen (some s) m e (em, (before, after, parts, low, worse, best)) = (
    em,
    (
      before,
      after ++ (x ∷ []),
      rw parts (append_assoc before (s ∷ after) (x ∷ [])),
      low,
      worse,
      All-append (NoBetter address s) after (x ∷ []) best (λ k. ground arith, tt),
    ),
  )

  closest_loop-IsClosest :
      (seen rest : List SymbolEntry) (closest : Option SymbolEntry) (min_distance : ℕ)
      → Passed seen closest min_distance
      → IsClosest address (seen ++ rest) (closest_loop address rest closest min_distance)
  unfolding closest_loop
  closest_loop-IsClosest seen [] closest m h = rw append-nil (Passed→IsClosest seen closest m h)
  closest_loop-IsClosest seen (x ∷ rest) closest m h = elim (Bool-cases (nearer x m)) [
    | inl e ↦
        rw (e, ← append_assoc seen (x ∷ []) rest)
          (closest_loop-IsClosest (seen ++ (x ∷ [])) rest (some x) (address - x.address)
            (take_it x seen closest m e h))
    | inr e ↦
        rw (e, ← append_assoc seen (x ∷ []) rest)
          (closest_loop-IsClosest (seen ++ (x ∷ [])) rest closest m (leave_it x seen closest m e h))
  ]

-- Below UINT_MAX, `find_closest_symbol` finds the first of the symbols with the greatest address that
-- is not above the given one, and finds none only if all are above.
pub find_closest_symbol-IsClosest :
    (symbol_list : List SymbolEntry) (address : ℕ)
    → address < uint_max
    → IsClosest address symbol_list (find_closest_symbol symbol_list address)
unfolding find_closest_symbol
find_closest_symbol-IsClosest symbol_list address small =
    closest_loop-IsClosest address small [] symbol_list none uint_max (refl, tt)
