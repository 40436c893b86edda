-- ===== src/Symbols/Search.antt =====
-- `search_symbols` against the symbols whose names match.
use mathlib.Core.List.{filter}
use ben_eater.Common.{
  ℕ, ◌+◌, ◌≡◌, refl, ap, ◌⊎◌, inl, inr, Bool, true, false, Option, none, some, List, [], ◌∷◌, ◌++◌,
  Text, codes, hex4, dec_text, length, ◌==◌, if◌then◌else◌, arith,
}
use ben_eater.Symbols.{SymbolEntry, match_pattern, matches_pattern, search_loop, search_symbols}
use ben_eater.Symbols.Pattern.{Matches, Answers, match_pattern-Answers}

abbrev answered : {G : Type 0} (r : Option Bool) → Answers G r → Dec G
answered none a = absurd a
answered (some true) a = yes a
answered (some false) a = no a

-- Whether a name matches, decided by the code.
abbrev pub matches? : (pattern : Text) (e : SymbolEntry) → Dec (Matches pattern e.symbol_name)
matches? pattern e =
    answered (match_pattern pattern e.symbol_name) (match_pattern-Answers pattern e.symbol_name)

-- The symbols whose names match, in the order of the list.
abbrev pub matching : Text → List SymbolEntry → List SymbolEntry
matching pattern = filter (matches? pattern)

-- A row for each symbol.
abbrev pub rows : List SymbolEntry → Text
rows [] = []
rows (e ∷ es) =
    (codes "  " ++ hex4 e.address ++ codes "  " ++ e.symbol_name ++ codes "\n") ++ rows es

-- What the search says at its end of a number of symbols.
abbrev pub summary : Text → ℕ → Text
summary pattern n =
    if n == 0
    then codes "  No symbols found matching pattern '" ++ pattern ++ codes "'\n"
    else codes "Found " ++ dec_text n ++ codes " matching symbol(s)\n"

module _ (pattern : Text) (e : SymbolEntry) where
  -- The code and the decision agree.
  Agrees : Type 0
  Agrees =
      ((m : Matches pattern e.symbol_name) × (matches? pattern e ≡ yes m)
        × (matches_pattern pattern e ≡ true))
      ⊎ ((n : ¬ Matches pattern e.symbol_name) × (matches? pattern e ≡ no n)
          × (matches_pattern pattern e ≡ false))

  agrees : Agrees
  unfolding Agrees matches_pattern
  agrees = go (match_pattern pattern e.symbol_name) (match_pattern-Answers pattern e.symbol_name)
    where
      go :
          (r : Option Bool) (a : Answers (Matches pattern e.symbol_name) r)
          → ((m : Matches pattern e.symbol_name) × (answered r a ≡ yes m)
              × (elim r [ some b ↦ b | none ↦ false ] ≡ true))
            ⊎ ((n : ¬ Matches pattern e.symbol_name) × (answered r a ≡ no n)
                × (elim r [ some b ↦ b | none ↦ false ] ≡ false))
      go none a = absurd a
      go (some true) a = inl (a, refl, refl)
      go (some false) a = inr (a, refl, refl)

search_loop-matching :
    (pattern : Text) (es : List SymbolEntry) (n total : ℕ)
    → total ≡ n + length (matching pattern es)
    → search_loop pattern es n ≡ (rows (matching pattern es), total)
unfolding search_loop Agrees
search_loop-matching pattern [] n total h = ap (λ (k : ℕ). ([], k)) (omega arith)
search_loop-matching pattern (e ∷ es) n total h = elim (agrees pattern e) [
  | inl (m, decided, hit) ↦ rw decided (
      rw (hit, search_loop-matching pattern es (n + 1) total (omega (arith, rw decided at h))) refl)
  | inr (m, decided, hit) ↦
      rw decided
        (rw (hit, search_loop-matching pattern es n total (omega (arith, rw decided at h))) refl)
]

-- What the search prints for a pattern is a row for each symbol whose name matches, in the order of
-- the list, and then how many these are, or that there is none.
pub search_symbols-matching :
    (symbol_list : List SymbolEntry) (q : ℕ) (p : Text)
    → let found = matching (q ∷ p) symbol_list in
      search_symbols symbol_list (q ∷ p)
      ≡ codes "Symbols matching pattern '"
        ++ (q ∷ p)
        ++ codes "':\n"
        ++ rows found
        ++ summary (q ∷ p) (length found)
unfolding search_symbols
search_symbols-matching symbol_list q p =
    rw
      (search_loop-matching (q ∷ p) symbol_list 0 (length (matching (q ∷ p) symbol_list))
        (omega arith))
      refl
