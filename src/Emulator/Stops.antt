-- ===== src/Emulator/Stops.antt =====
-- The decoding of the instruction at the PC.
use ben_eater.Common.{◌≡◌, refl, inl, inr, Bool-cases}
use ben_eater.Disasm.{disassemble_current_instruction}
use ben_eater.Emulator.{State}
use ben_eater.Emulator.Execute.{decoded, disassembled}
use ben_eater.Emulator.Paused.{SameProgram, SameProgram-refl}

pub disassembled-same : (s : State) → SameProgram s (disassembled s)
disassembled-same s = elim (Bool-cases (s.step_enabled)) [
  | inl e ↦ simp e (SameProgram-refl s)
  | inr e ↦ simp e (SameProgram-refl s)
]

pub decoded_opcode : (s : State) → (decoded s).1 ≡ s.machine.ram s.cpu.pc
unfolding disassemble_current_instruction
decoded_opcode s = refl
