-- ===== src/Inspect/Dump.antt =====
-- The loops that print memory: when they end, and what they print.
use ben_eater.Common.{
  ℕ, suc, zero, ◌+◌, ◌-◌, ◌*◌, ◌/◌, ◌%◌, ◌^◌, ◌<◌, ◌≤◌, ◌≡◌, ◌≢◌, ◌↔◌, refl, ap, true, false, none,
  some, [], ◌++◌, Text, codes, ltb, leb, ◌==◌, if◌then◌else◌, arith, tests, inl, inr, Bool-cases,
}
use ben_eater.Common.Int.{ℤ, pos, negsuc}
use ben_eater.Bus.{Ram}
use ben_eater.Monitors.{MonitorAddr, Monitors}
use ben_eater.Inspect.{
  Cpu, registers, monitors_text, default_locations, print_cpu_state_to_stream, after_text,
  dump_loop, dump_cell, dump_memory_range, memory_row, memory_rows, row_size, monitor_rows,
}

dump_loop-done :
    (f : ℕ) (ram : Ram) (start_addr end_addr addr : ℕ)
    → end_addr < addr
    → dump_loop (suc f) ram start_addr end_addr addr ≡ some (codes "\n")
unfolding dump_loop
dump_loop-done f ram start_addr end_addr addr h =
    let done : leb addr end_addr ≡ false = ground arith in rw (done, dump_loop) refl

dump_loop-more :
    (f : ℕ) (ram : Ram) (start_addr end_addr addr : ℕ)
    → addr ≤ end_addr
    → dump_loop (suc f) ram start_addr end_addr addr
      ≡ after_text
          (dump_cell ram start_addr addr)
          (dump_loop f ram start_addr end_addr ((addr + 1) % 65536))
unfolding dump_loop
dump_loop-more f ram start_addr end_addr addr h =
    let more : leb addr end_addr ≡ true = ground arith in rw (more, dump_loop) refl

dump_loop-step :
    (f : ℕ) (ram : Ram) (start_addr end_addr addr : ℕ) (out : Text)
    → addr ≤ end_addr
    → end_addr < 65535
    → dump_loop f ram start_addr end_addr (addr + 1) ≡ some out
    → dump_loop (suc f) ram start_addr end_addr addr ≡ some (dump_cell ram start_addr addr ++ out)
dump_loop-step f ram start_addr end_addr addr out h e p =
    let next : (addr + 1) % 65536 ≡ addr + 1 = omega arith in
    rw (dump_loop-more f ram start_addr end_addr addr h, next, p) refl

dump_loop-ends :
    (f : ℕ) (ram : Ram) (start_addr end_addr addr : ℕ)
    → end_addr < 65535
    → end_addr < addr + f
    → (out : Text) × (dump_loop (suc f) ram start_addr end_addr addr ≡ some out)
dump_loop-ends zero ram start_addr end_addr addr e h =
    (_, dump_loop-done zero ram start_addr end_addr addr (omega arith))
dump_loop-ends (suc f) ram start_addr end_addr addr e h = elim (Bool-cases (leb addr end_addr)) [
  | inl more ↦
      let (out, p) = dump_loop-ends f ram start_addr end_addr (addr + 1) e (omega arith) in
      (_, dump_loop-step (suc f) ram start_addr end_addr addr out (omega (tests, more)) e p)
  | inr done ↦ (_, dump_loop-done (suc f) ram start_addr end_addr addr (ground arith))
]

dump_loop-endless :
    (f : ℕ) (ram : Ram) (start_addr addr : ℕ)
    → addr < 65536
    → dump_loop f ram start_addr 65535 addr ≡ none
dump_loop-endless zero ram start_addr addr h = unfold dump_loop in refl
dump_loop-endless (suc f) ram start_addr addr h =
    rw
      (
        dump_loop-more f ram start_addr 65535 addr (omega arith),
        dump_loop-endless f ram start_addr ((addr + 1) % 65536) (omega arith),
      )
      refl

-- With a round for every address, below a last address of $FFFF.
pub dump_memory_range-ends :
    (ram : Ram) (start_addr end_addr : ℕ)
    → start_addr < 65536
    → end_addr < 65535
    → (out : Text) × (dump_memory_range 65537 ram start_addr end_addr ≡ some out)
unfolding dump_memory_range
dump_memory_range-ends ram start_addr end_addr s e =
    dump_loop-ends 65536 ram start_addr end_addr start_addr e (omega arith)

-- `dump_memory_range` runs forever exactly if its last address is $FFFF: the 16-bit counter is then
-- never above it.
pub dump_memory_range-endless_iff :
    (ram : Ram) (start_addr end_addr : ℕ)
    → start_addr < 65536
    → end_addr < 65536
    → ((fuel : ℕ) → dump_memory_range fuel ram start_addr end_addr ≡ none) ↔ (end_addr ≡ 65535)
unfolding dump_memory_range
dump_memory_range-endless_iff ram start_addr end_addr s e = (
  λ endless. elim (Bool-cases (end_addr == 65535)) [
    | inl last ↦ omega (tests, last)
    | inr earlier ↦
        let (out, p) =
          dump_loop-ends 65536 ram start_addr end_addr start_addr (omega (tests, earlier))
            (omega arith) in
        absurd (cc (endless 65537, p))
  ],
  λ last fuel. rw last (dump_loop-endless fuel ram start_addr start_addr s),
)

-- The rows of a monitored address: sixteen bytes each, the last one with what is left.
abbrev pub rows_from : Ram → ℕ → ℕ → ℕ → ℕ → Text
rows_from ram start_addr size k zero = []
rows_from ram start_addr size k (suc n) =
    memory_row ram ((start_addr + 16 * k) % 2 ^ 32) (row_size (size - 16 * k))
    ++ rows_from ram start_addr size (suc k) n

memory_rows-done :
    (f : ℕ) (ram : Ram) (start_addr size printed : ℕ)
    → size ≤ printed
    → memory_rows (suc f) ram start_addr size printed ≡ some []
unfolding memory_rows
memory_rows-done f ram start_addr size printed h =
    let done : ltb printed size ≡ false = ground arith in rw (done, memory_rows) refl

memory_rows-more :
    (f : ℕ) (ram : Ram) (start_addr size printed : ℕ)
    → printed < size
    → memory_rows (suc f) ram start_addr size printed
      ≡ after_text
          (memory_row ram ((start_addr + printed) % 2 ^ 32) (row_size (size - printed)))
          (memory_rows f ram start_addr size (printed + row_size (size - printed)))
unfolding memory_rows
memory_rows-more f ram start_addr size printed h =
    let more : ltb printed size ≡ true = ground arith in rw (more, memory_rows) refl

-- `n` more rows end the loop, with fuel for one more round.
memory_rows-rows :
    (n f : ℕ) (ram : Ram) (start_addr size k printed : ℕ)
    → n < f
    → (n ≡ 0 → size ≤ printed)
    → (n ≢ 0 → printed ≡ 16 * k)
    → size ≤ 16 * (k + n)
    → 16 * (k + n) < size + 16
    → memory_rows f ram start_addr size printed ≡ some (rows_from ram start_addr size k n)
memory_rows-rows n zero ram start_addr size k printed fuel z at h l = absurd (omega arith)
memory_rows-rows zero (suc f) ram start_addr size k printed fuel z at h l =
    memory_rows-done f ram start_addr size printed (z refl)
memory_rows-rows (suc n) (suc f) ram start_addr size k printed fuel z at h l =
    let here : printed ≡ 16 * k = at (omega arith) in
    rw (here, memory_rows-more f ram start_addr size (16 * k) (omega arith))
      (ap (after_text (memory_row ram ((start_addr + 16 * k) % 2 ^ 32) (row_size (size - 16 * k))))
        (memory_rows-rows n f ram start_addr size (suc k) _ (omega arith) (λ e. ground arith)
          (λ e. ground arith) (omega arith) (omega arith)))

abbrev pub all_rows : Ram → ℕ → ℤ → Text
all_rows ram start_addr (pos size) = rows_from ram start_addr size 0 ((size + 15) / 16)
all_rows ram start_addr (negsuc n) = []

abbrev pub tables : Ram → (ℕ → MonitorAddr) → ℕ → ℕ → Text
tables ram monitor_addresses i zero = []
tables ram monitor_addresses i (suc n) =
    all_rows ram (monitor_addresses i).address (monitor_addresses i).size
    ++ tables ram monitor_addresses (suc i) n

monitor_rows-all_rows :
    (ram : Ram) (start_addr : ℕ) (size : ℤ)
    → monitor_rows ram start_addr size ≡ some (all_rows ram start_addr size)
unfolding monitor_rows
monitor_rows-all_rows ram start_addr (pos size) =
    memory_rows-rows ((size + 15) / 16) (size + 1) ram start_addr size 0 0 (omega arith)
      (λ e. omega arith) (λ e. omega arith) (omega arith) (omega arith)
monitor_rows-all_rows ram start_addr (negsuc n) = refl

monitors_text-tables :
    (ram : Ram) (monitor_addresses : ℕ → MonitorAddr) (i n : ℕ)
    → monitors_text ram monitor_addresses i n ≡ some (tables ram monitor_addresses i n)
unfolding monitors_text
monitors_text-tables ram monitor_addresses i zero = refl
monitors_text-tables ram monitor_addresses i (suc n) =
    rw
      (
        monitor_rows-all_rows ram (monitor_addresses i).address (monitor_addresses i).size,
        monitors_text-tables ram monitor_addresses (suc i) n,
      )
      refl

pub print_cpu_state_to_stream-tables :
    (cpu : Cpu) (monitors : Monitors) (ram : Ram)
    → print_cpu_state_to_stream cpu monitors ram
      ≡ some (
          registers cpu
          ++ (tables ram monitors.monitor_addresses 0 monitors.monitor_count
              ++ (if monitors.monitor_count == 0 then default_locations ram else [])))
unfolding print_cpu_state_to_stream
print_cpu_state_to_stream-tables cpu monitors ram =
    rw (monitors_text-tables ram monitors.monitor_addresses 0 monitors.monitor_count) refl
