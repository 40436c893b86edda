-- ===== src/Main/Lookup.antt =====
-- The symbol lookup of main keeps the table of breakpoints valid.
use ben_eater.Main.{found_list}
use ben_eater.Common.{
  ◌≡◌, refl, Bool, true, Option, none, some, List, [], ◌∷◌, ◌++◌, Text, inl, inr, Option-cases,
}
use ben_eater.Common.Chain.{IfSome}
use ben_eater.Symbols.{SymbolEntry, find_symbol_by_name}
use ben_eater.Symbols.Dictionary.{
  create_symbol_dictionary, break_at, started_text, handle_symbol_lookup,
}
use ben_eater.Breakpoints.{Breakpoints}
use ben_eater.Breakpoints.Toggle

break_at-IsValid :
    (symbol_list : List SymbolEntry) (name : Text) (t : Breakpoints)
    → Toggle.IsValid t
    → Toggle.IsValid (break_at symbol_list name t).0
unfolding break_at
break_at-IsValid symbol_list name t v = elim (Option-cases (find_symbol_by_name symbol_list name)) [
  | inl p ↦ rw (p, break_at) v
  | inr (e, p) ↦
      rw (p, break_at) (Toggle.add_breakpoint-IsValid symbol_list e.address (some name) t v)
]

pub handle_symbol_lookup-IsValid :
    (list_file : Option (Option Text)) (name : Option Text) (symbol_list : List SymbolEntry)
    (t : Breakpoints)
    → Toggle.IsValid t
    → IfSome
        (λ (r : List SymbolEntry × Breakpoints × Text × Bool). Toggle.IsValid r.1)
        (handle_symbol_lookup list_file name symbol_list t)
unfolding handle_symbol_lookup
handle_symbol_lookup-IsValid none name symbol_list t v = v
handle_symbol_lookup-IsValid (some list_file) name symbol_list t v =
    elim (Option-cases (create_symbol_dictionary list_file)) [
      | inl p ↦ rw (p, handle_symbol_lookup) tt
      | inr ([], p) ↦ rw (p, handle_symbol_lookup) v
      | inr (e ∷ es, p) ↦ rw (p, handle_symbol_lookup) (named e es name)
    ]
  where
    named :
        (e : SymbolEntry) (es : List SymbolEntry) (name : Option Text)
        → IfSome
            (λ (r : List SymbolEntry × Breakpoints × Text × Bool). Toggle.IsValid r.1)
            (elim name [
              | none ↦ some (e ∷ es, t, started_text list_file, true)
              | some name ↦
                  let (t', out) = break_at (e ∷ es) name t in
                  some (e ∷ es, t', started_text list_file ++ out, true)
            ])
    named e es none = v
    named e es (some name) = break_at-IsValid (e ∷ es) name t v

-- Where the symbols can not be read, a name of the list file runs over its buffer.
pub overrun_file :
    (files : Text → Option Text) (path name : Option Text) (symbol_list : List SymbolEntry)
    (t : Breakpoints)
    → handle_symbol_lookup (found_list files path) name symbol_list t ≡ none
    → (p : Text) × (path ≡ some p) × (create_symbol_dictionary (files p) ≡ none)
unfolding handle_symbol_lookup
overrun_file files none name symbol_list t h = absurd (cc h)
overrun_file files (some p) name symbol_list t h =
    elim (Option-cases (create_symbol_dictionary (files p))) [
      | inl e ↦ (p, refl, e)
      | inr ([], e) ↦ absurd (cc (rw (e, handle_symbol_lookup) at h))
      | inr (x ∷ xs, e) ↦ absurd (found x xs name (rw (e, handle_symbol_lookup) at h))
    ]
  where
    found :
        (x : SymbolEntry) (xs : List SymbolEntry) (name : Option Text)
        → ◌≡◌ {A = Option (List SymbolEntry × Breakpoints × Text × Bool)}
            (elim name [
              | none ↦ some (x ∷ xs, t, started_text (files p), true)
              | some name ↦
                  let (t', out) = break_at (x ∷ xs) name t in
                  some (x ∷ xs, t', started_text (files p) ++ out, true)
            ])
            none
        → ⊥
    found x xs none e = cc
    found x xs (some name) e = cc

pub nothing_read :
    (files : Text → Option Text) (path name : Option Text) (symbol_list : List SymbolEntry)
    (t : Breakpoints)
    → path ≡ none
    → handle_symbol_lookup (found_list files path) name symbol_list t
      ≡ some (symbol_list, t, [], true)
unfolding handle_symbol_lookup
nothing_read files path name symbol_list t no_path = rw no_path refl
