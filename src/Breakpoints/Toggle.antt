-- ===== src/Breakpoints/Toggle.antt =====
-- What `add_breakpoint` does to the table, by the list of the entries in use.
use ben_eater.Common.{
  ℕ, ◌≤◌, ◌≡◌, sym, ◌∙◌, true, false, not, Option, none, some, List, Text, leb, ◌==◌, if◌then◌else◌,
  arith, inl, inr, Bool-cases, Option-cases,
}
use native.Mathlib.Numerals.{add-one}
use ben_eater.Common.Array.{
  find_from-none, find_from-some, window-update, window-remove_found, find_from,
}
use ben_eater.Common.Keyed.{holds, Distinct, toggled, holds-toggled, Distinct-toggled}
use ben_eater.Symbols.{SymbolEntry}
use ben_eater.Breakpoints.{
  Breakpoint, Breakpoints, max_breakpoints, at_address, add_breakpoint, is_breakpoint, in_use,
}

-- The entries are no more than the array holds, and no address stands twice.
pub record IsValid (t : Breakpoints) : Type 0 where
  pub within : t.breakpoint_count ≤ max_breakpoints
  pub distinct : Distinct Breakpoint.address (in_use t)

module _ (t : Breakpoints) (address : ℕ) where
  abbrev found_at : Option ℕ
  found_at = find_from (at_address address) t.breakpoints 0 t.breakpoint_count

  is_breakpoint-none : found_at ≡ none → is_breakpoint t address ≡ false
  unfolding is_breakpoint
  is_breakpoint-none e = rw (e, is_breakpoint)

  is_breakpoint-some : (i : ℕ) → found_at ≡ some i → is_breakpoint t address ≡ true
  unfolding is_breakpoint
  is_breakpoint-some i e = rw (e, is_breakpoint)

  pub is_breakpoint-holds : is_breakpoint t address ≡ holds Breakpoint.address address (in_use t)
  is_breakpoint-holds = elim (Option-cases found_at) [
    | inl e ↦
        is_breakpoint-none e
        ∙ sym (find_from-none (at_address address) t.breakpoints 0 t.breakpoint_count e).0
    | inr (i, e) ↦
        is_breakpoint-some i e
        ∙ sym (find_from-some (at_address address) t.breakpoints 0 t.breakpoint_count i e).3
  ]

abbrev pub entry : ℕ → Option Text → Breakpoint
entry address label = record { address = address; label = label }

-- A full table `add_breakpoint` leaves as it is. Else it takes out the entry at the address if there
-- is one, and appends an entry if there is none.
pub add_breakpoint-in_use :
    (symbol_list : List SymbolEntry) (address : ℕ) (label : Option Text) (t : Breakpoints)
    → in_use (add_breakpoint symbol_list address label t).0 ≡ (
        if leb max_breakpoints t.breakpoint_count
        then in_use t
        else toggled Breakpoint.address (entry address label) (in_use t))
unfolding add_breakpoint
add_breakpoint-in_use symbol_list address label t =
    elim (Bool-cases (leb max_breakpoints t.breakpoint_count)) [
      | inl full ↦ rw full
      | inr room ↦ elim (Option-cases (found_at t address)) [
        | inl e ↦
            rw (room, e, ← is_breakpoint-holds t address, is_breakpoint-none t address e, add-one)
              (window-update t.breakpoints 0 t.breakpoint_count t.breakpoint_count _ (omega arith))
        | inr (i, e) ↦
            rw (room, e, ← is_breakpoint-holds t address, is_breakpoint-some t address i e)
              (window-remove_found (at_address address) t.breakpoints t.breakpoint_count i e)
      ]
    ]

add_breakpoint-count :
    (symbol_list : List SymbolEntry) (address : ℕ) (label : Option Text) (t : Breakpoints)
    → t.breakpoint_count ≤ max_breakpoints
    → (add_breakpoint symbol_list address label t).0.breakpoint_count ≤ max_breakpoints
unfolding add_breakpoint
add_breakpoint-count symbol_list address label t h = ground arith

-- `add_breakpoint` keeps the table valid.
pub add_breakpoint-IsValid :
    (symbol_list : List SymbolEntry) (address : ℕ) (label : Option Text) (t : Breakpoints)
    → IsValid t
    → IsValid (add_breakpoint symbol_list address label t).0
add_breakpoint-IsValid symbol_list address label t v = record {
  within = add_breakpoint-count symbol_list address label t v.within;
  distinct =
      rw (add_breakpoint-in_use symbol_list address label t)
        (elim (Bool-cases (leb max_breakpoints t.breakpoint_count)) [
          | inl full ↦ rw full v.distinct
          | inr room ↦
              rw room
                (Distinct-toggled Breakpoint.address (entry address label) (in_use t) v.distinct)
        ]);
}

-- In a valid table with room, `add_breakpoint` toggles: afterwards there is a breakpoint at the
-- address exactly if there was none before, and at any other address exactly if there was one. In
-- a full table nothing changes, so that there a breakpoint can not be removed either.
pub is_breakpoint-add_breakpoint :
    (symbol_list : List SymbolEntry) (address : ℕ) (label : Option Text) (t : Breakpoints) (b : ℕ)
    → IsValid t
    → is_breakpoint (add_breakpoint symbol_list address label t).0 b ≡ (
        if leb max_breakpoints t.breakpoint_count
        then is_breakpoint t b
        else if address == b
        then not (is_breakpoint t address)
        else is_breakpoint t b)
is_breakpoint-add_breakpoint symbol_list address label t b v =
    is_breakpoint-holds (add_breakpoint symbol_list address label t).0 b
    ∙ rw
        (
          add_breakpoint-in_use symbol_list address label t,
          is_breakpoint-holds t b,
          is_breakpoint-holds t address,
        )
        (elim (Bool-cases (leb max_breakpoints t.breakpoint_count)) [
          | inl full ↦ rw full
          | inr room ↦
              rw room
                (holds-toggled Breakpoint.address (entry address label) b (in_use t) v.distinct)
        ])
