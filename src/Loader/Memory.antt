-- ===== src/Loader/Memory.antt =====
-- What memory holds after `load_program_and_irq`.
use ben_eater.Common.{
  ℕ, ◌+◌, ◌-◌, ◌<◌, ◌≤◌, ◌≡◌, ◌⊎◌, refl, ◌∙◌, true, some, List, [], ◌∷◌, Text, leb, ltb, length,
  arith, tests, inl, inr, Bool-cases,
}
use ben_eater.Common.Array.{update, window}
use ben_eater.Bus.{Ram}
use ben_eater.HexFile.{Load, load_hex_file}
use ben_eater.HexFile.Bounds.{Loaded, load_hex_file-Loaded}
use ben_eater.Loader.{irq_handler_bytes, cleared, copy_bytes, loaded_text, load_program_and_irq}

copy_bytes-outside :
    (bytes : List ℕ) (address : ℕ) (ram : Ram) (b : ℕ)
    → b < address ⊎ (address + length bytes ≤ b)
    → copy_bytes bytes address ram b ≡ ram b
unfolding copy_bytes
copy_bytes-outside [] address ram b h = refl
copy_bytes-outside (c ∷ bytes) address ram b h =
    copy_bytes-outside bytes (address + 1) (update ram address c) b (ground arith) ∙ ground arith

-- The memory after a load of the file: the handler at its address, else what load_hex_file makes of
-- the file on an empty memory, which is zero before the program's address.
pub record Filled (file : Text) (start_addr irq_addr : ℕ) (ram : Ram) : Type 0 where
  pub load : Load
  pub loaded : load_hex_file start_addr (65536 - start_addr) (some file) cleared ≡ some load
  pub program : (b : ℕ) → (b < irq_addr ⊎ (irq_addr + 6 ≤ b)) → ram b ≡ load.ram b
  pub handler : window ram irq_addr 6 ≡ irq_handler_bytes
  pub before : (b : ℕ) → b < start_addr → (b < irq_addr ⊎ (irq_addr + 6 ≤ b)) → ram b ≡ 0
  pub bytes : (b : ℕ) → ram b < 256

memory_bytes :
    (start_addr : ℕ) (l : Load)
    → Loaded start_addr (65536 - start_addr) cleared l
    → (b : ℕ) → l.ram b < 256
memory_bytes start_addr l h b = elim (Bool-cases (ltb b start_addr)) [
  | inl below ↦ rw (h.below b (omega (tests, below))) (omega arith)
  | inr not_below ↦ elim (Bool-cases (leb (start_addr + l.bytes_loaded) b)) [
    | inl behind ↦ rw (h.behind b (omega (tests, behind))) (omega arith)
    | inr within ↦ h.bytes b (ground arith) (ground arith)
  ]
]

copied_bytes :
    (irq_addr : ℕ) (ram : Ram)
    → ((b : ℕ) → ram b < 256)
    → (b : ℕ) → copy_bytes irq_handler_bytes irq_addr ram b < 256
unfolding copy_bytes
copied_bytes irq_addr ram h b = ground (arith, h b)

copied_handler :
    (irq_addr : ℕ) (ram : Ram)
    → window (copy_bytes irq_handler_bytes irq_addr ram) irq_addr 6 ≡ irq_handler_bytes
unfolding copy_bytes
copied_handler irq_addr ram = ground arith

load_program-loaded :
    (file : Text) (start_addr irq_addr : ℕ) (l : Load)
    → load_hex_file start_addr (65536 - start_addr) (some file) cleared ≡ some l
    → leb (irq_addr + 6) 65536 ≡ true
    → load_program_and_irq true (some file) start_addr irq_addr
      ≡ some
          (copy_bytes irq_handler_bytes irq_addr l.ram, loaded_text l.bytes_loaded irq_addr, true)
unfolding load_program_and_irq
load_program-loaded file start_addr irq_addr l p fits = rw p (rw fits refl)

-- Where the log and the hex file open and the handler fits, the load succeeds whatever the file
-- holds: the handler stands at its address, outside it memory is what load_hex_file makes of the file
-- on an empty memory, what lies before the program and outside the handler is zero, and memory holds
-- bytes.
pub load_program_and_irq-Filled :
    (file : Text) (start_addr irq_addr : ℕ)
    → start_addr < 65536
    → irq_addr + 6 ≤ 65536
    → (ram : Ram) × (out : Text) × (load_program_and_irq true (some file) start_addr irq_addr
        ≡ some (ram, out, true))
      × Filled file start_addr irq_addr ram
load_program_and_irq-Filled file start_addr irq_addr s h =
    let (l, p, loaded) =
      load_hex_file-Loaded start_addr (65536 - start_addr) file cleared (omega arith) in
    let fits : leb (irq_addr + 6) 65536 ≡ true = ground arith in
    (
      copy_bytes irq_handler_bytes irq_addr l.ram,
      loaded_text l.bytes_loaded irq_addr,
      load_program-loaded file start_addr irq_addr l p fits,
      record {
        load = l;
        loaded = p;
        program = λ b outside. copy_bytes-outside irq_handler_bytes irq_addr l.ram b outside;
        handler = copied_handler irq_addr l.ram;
        before = λ b below outside.
            copy_bytes-outside irq_handler_bytes irq_addr l.ram b outside ∙ loaded.below b below;
        bytes = copied_bytes irq_addr l.ram (memory_bytes start_addr l loaded);
      },
    )
