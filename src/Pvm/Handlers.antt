-- ===== src/Pvm/Handlers.antt =====
-- The handlers of packages/jam-pvm-js/src/instructions/instructions.ts. The arithmetic ones differ
-- in the value only, which tsjam.Pvm.Ops computes: the wrappers here read the source registers and
-- write the destination, as each of these handlers does.
pub mod Flow
pub mod Mem
use tsjam.Prelude.{ℕ, Option, none, some, ◌>>=◌}
use tsjam.Pvm.Vm.{Pvm, Outcome, reg, set_reg}
use tsjam.Pvm.Decoders.{TwoRegArgs, TwoRegOneImmArgs, ThreeRegArgs}

-- `wD.value = f(wA.value)`.
unfoldable pub one_op : (ℕ → ℕ) → TwoRegArgs → Pvm → ℕ → Outcome
one_op f args pvm skip = do a ← reg pvm args.r_a; set_reg pvm args.r_d (f a)

-- `wA.value = f(wB.value, vX)`.
unfoldable pub imm_op : (ℕ → ℕ → ℕ) → TwoRegOneImmArgs → Pvm → ℕ → Outcome
imm_op f args pvm skip = do b ← reg pvm args.r_b; set_reg pvm args.r_a (f b args.v_x)

-- The same where wA may keep its value.
unfoldable pub imm_cmov : (ℕ → ℕ → ℕ → ℕ) → TwoRegOneImmArgs → Pvm → ℕ → Outcome
imm_cmov f args pvm skip = do
  a ← reg pvm args.r_a
  b ← reg pvm args.r_b
  set_reg pvm args.r_a (f a b args.v_x)

-- `wD.value = f(wA.value, wB.value)`.
unfoldable pub regs_op : (ℕ → ℕ → ℕ) → ThreeRegArgs → Pvm → ℕ → Outcome
regs_op f args pvm skip = do
  a ← reg pvm args.r_a
  b ← reg pvm args.r_b
  set_reg pvm args.r_d (f a b)

-- The same where wD may keep its value.
unfoldable pub regs_cmov : (ℕ → ℕ → ℕ → ℕ) → ThreeRegArgs → Pvm → ℕ → Outcome
regs_cmov f args pvm skip = do
  d ← reg pvm args.r_d
  a ← reg pvm args.r_a
  b ← reg pvm args.r_b
  set_reg pvm args.r_d (f d a b)
