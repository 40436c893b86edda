-- ===== src/Monitors/Toggle.antt =====
-- What the `m` command does to the table, by the list of the entries in use.
use native.Mathlib.Numerals.{add-one}
use ben_eater.Common.{
  ℕ, ◌-◌, ◌≤◌, ◌<◌, ◌≡◌, refl, Bool, true, false, not, ◌&&◌, none, some, [], ◌∷◌, ◌++◌, Text, leb,
  ◌==◌, if◌then◌else◌, arith, inl, inr, Bool-cases, Option-cases, skip_while, is_blank, drop,
}
use ben_eater.Common.Array.{
  find_from-none, find_from-some, window-update, window-remove_found, remove_first,
}
use ben_eater.Common.Int.{ℤ}
use ben_eater.Common.Scan.{scan_hex}
use ben_eater.Common.Keyed.{holds, Distinct, toggled, holds-toggled, Distinct-toggled}
use ben_eater.Monitors.{
  MonitorAddr, Monitors, max_monitor_addresses, monitors_address, find_monitor_address,
  add_monitor_address, remove_monitor_address, toggle_monitor, monitor_size,
  handle_memory_monitor_command, monitored,
}

-- The entries are no more than the array holds, and no address stands twice.
pub record IsValid (t : Monitors) : Type 0 where
  pub within : t.monitor_count ≤ max_monitor_addresses
  pub distinct : Distinct MonitorAddr.address (monitored t)

-- Whether an address is monitored.
abbrev pub is_monitored : Monitors → ℕ → Bool
is_monitored t address = holds MonitorAddr.address address (monitored t)

abbrev pub entry : ℕ → ℤ → MonitorAddr
entry address size = record { address = address; size = size }

module _ (t : Monitors) (address : ℕ) where
  find_monitor_address-none : find_monitor_address t address ≡ none → is_monitored t address ≡ false
  unfolding find_monitor_address
  find_monitor_address-none e =
      (find_from-none (monitors_address address) t.monitor_addresses 0 t.monitor_count e).0

  find_monitor_address-some :
      (i : ℕ)
      → find_monitor_address t address ≡ some i
      → (i < t.monitor_count) × (is_monitored t address ≡ true)
  unfolding find_monitor_address
  find_monitor_address-some i e =
      let r = find_from-some (monitors_address address) t.monitor_addresses 0 t.monitor_count i e in
      (omega (arith, r.1), r.3)

  monitored-remove :
      (i : ℕ)
      → find_monitor_address t address ≡ some i
      → (monitored (remove_monitor_address address t).0
          ≡ remove_first (monitors_address address) (monitored t))
        × ((remove_monitor_address address t).0.monitor_count ≡ t.monitor_count - 1)
  unfolding remove_monitor_address
  monitored-remove i e = (
    rw (e, remove_monitor_address)
        (unfold find_monitor_address in
          window-remove_found (monitors_address address) t.monitor_addresses t.monitor_count i e),
    rw (e, remove_monitor_address),
  )

  monitored-add :
      (size : ℤ)
      → monitored (add_monitor_address address size t).0 ≡ (
          if leb max_monitor_addresses t.monitor_count
          then monitored t
          else monitored t ++ (entry address size ∷ []))
  unfolding add_monitor_address
  monitored-add size = elim (Bool-cases (leb max_monitor_addresses t.monitor_count)) [
    | inl full ↦ rw full
    | inr room ↦
        rw (room, add-one)
          (window-update t.monitor_addresses 0 t.monitor_count t.monitor_count _ (omega arith))
  ]

-- `m` takes the entry at the address out if there is one. Else it appends an entry, unless the
-- table is full.
pub toggle_monitor-monitored :
    (address : ℕ) (size : ℤ) (t : Monitors)
    → monitored (toggle_monitor address size t).0 ≡ (
        if not (is_monitored t address) && leb max_monitor_addresses t.monitor_count
        then monitored t
        else toggled MonitorAddr.address (entry address size) (monitored t))
unfolding toggle_monitor
toggle_monitor-monitored address size t = elim (Option-cases (find_monitor_address t address)) [
  | inl e ↦
      rw (e, toggle_monitor, find_monitor_address-none t address e) (monitored-add t address size)
  | inr (i, e) ↦
      rw (e, toggle_monitor, (find_monitor_address-some t address i e).1)
        (monitored-remove t address i e).0
]

toggle_monitor-count :
    (address : ℕ) (size : ℤ) (t : Monitors)
    → t.monitor_count ≤ max_monitor_addresses
    → (toggle_monitor address size t).0.monitor_count ≤ max_monitor_addresses
unfolding toggle_monitor
toggle_monitor-count address size t h = elim (Option-cases (find_monitor_address t address)) [
  | inl e ↦ rw (e, toggle_monitor) (unfold add_monitor_address in ground arith)
  | inr (i, e) ↦ rw (e, toggle_monitor) (omega (arith, (monitored-remove t address i e).1))
]

toggle_monitor-IsValid :
    (address : ℕ) (size : ℤ) (t : Monitors) → IsValid t → IsValid (toggle_monitor address size t).0
toggle_monitor-IsValid address size t v = record {
  within = toggle_monitor-count address size t v.within;
  distinct =
      rw (toggle_monitor-monitored address size t)
        (elim (Bool-cases
          (not (is_monitored t address) && leb max_monitor_addresses t.monitor_count)) [
            | inl full ↦ rw full v.distinct
            | inr room ↦
                rw room (
                  Distinct-toggled MonitorAddr.address (entry address size) (monitored t)
                    v.distinct)
          ]);
}

-- Whatever is typed behind `m`, the table stays valid.
pub handle_memory_monitor_command-IsValid :
    (input : Text) (t : Monitors) → IsValid t → IsValid (handle_memory_monitor_command input t).0
unfolding handle_memory_monitor_command
handle_memory_monitor_command-IsValid input t v = go (skip_while is_blank (drop 1 input)) refl
  where
    go :
        (ptr : Text)
        → skip_while is_blank (drop 1 input) ≡ ptr
        → IsValid (handle_memory_monitor_command input t).0
    go [] e = rw (e, handle_memory_monitor_command) v
    go (c ∷ s) e = elim (Option-cases (scan_hex (c ∷ s))) [
      | inl f ↦ rw (e, handle_memory_monitor_command) (rw f v)
      | inr ((a, rest), f) ↦
          rw (e, handle_memory_monitor_command)
            (rw f (toggle_monitor-IsValid a (monitor_size rest) t v))
    ]

-- In a valid table, `m` toggles the address: afterwards it is monitored exactly if it was not,
-- except that a full table takes no new address. At other addresses nothing changes. So here, other
-- than with breakpoints, an address can be taken out of a full table.
pub is_monitored-toggle_monitor :
    (address : ℕ) (size : ℤ) (t : Monitors) (b : ℕ)
    → IsValid t
    → is_monitored (toggle_monitor address size t).0 b ≡ (
        if not (is_monitored t address) && leb max_monitor_addresses t.monitor_count
        then is_monitored t b
        else if address == b
        then not (is_monitored t address)
        else is_monitored t b)
is_monitored-toggle_monitor address size t b v =
    rw (toggle_monitor-monitored address size t)
      (elim (Bool-cases
        (not (is_monitored t address) && leb max_monitor_addresses t.monitor_count)) [
          | inl full ↦ rw full refl
          | inr room ↦
              rw room
                (holds-toggled MonitorAddr.address (entry address size) b (monitored t) v.distinct)
        ])
