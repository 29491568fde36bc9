-- ===== src/Pvm/Handlers/Flow.antt =====
-- Control flow, immediates and the heap. Each handler takes its decoded arguments, the state and
-- the skip; `ip_offset` is the program counter plus the decoded offset, as hydration sets it.
use tsjam.Prelude.{ℕ, ◌+◌, ◌%◌, ◌^◌, Bool, true, not, none, some, ◌>>=◌}
use tsjam.Prelude.{ltb, leb, ◌==◌, if◌then◌else◌}
use tsjam.Prelude.Int.{ℤ, pos, ◌+ℤ◌, ltb_ℤ, leb_ℤ}
use tsjam.Pvm.Words.{z8, to_number}
use tsjam.Pvm.Memory as Memory
use tsjam.Pvm.Vm.{Pvm, Outcome, panic, host_call, branch, djump, reg, set_reg}
use tsjam.Pvm.Decoders.{
  OneRegOneImmArgs, OneRegOneImmOneOffsetArgs, TwoRegArgs, TwoRegOneOffsetArgs, TwoRegTwoImmArgs,
}

unfoldable pub trap : Unit {0} → Pvm → ℕ → Outcome
trap args pvm skip = some (pvm, some panic)

unfoldable pub fallthrough : Unit {0} → Pvm → ℕ → Outcome
fallthrough args pvm skip = some (record pvm { pc = pvm.pc + 1 }, none)

unfoldable pub ecalli : ℕ → Pvm → ℕ → Outcome
ecalli v_x pvm skip = some (pvm, some (host_call v_x))

unfoldable pub load_imm_64 : OneRegOneImmArgs → Pvm → ℕ → Outcome
load_imm_64 args pvm skip = set_reg pvm args.r_a args.v_x

unfoldable pub ip_offset : Pvm → ℤ → ℤ
ip_offset pvm ip_offset_raw = pos pvm.pc +ℤ ip_offset_raw

unfoldable pub jump : ℤ → Pvm → ℕ → Outcome
unfolding ip_offset
jump ip_offset_raw pvm skip = branch pvm (ip_offset pvm ip_offset_raw) true skip

unfoldable pub jump_ind : OneRegOneImmArgs → Pvm → ℕ → Outcome
jump_ind args pvm skip = do w_a ← reg pvm args.r_a; djump ((w_a + args.v_x) % 2 ^ 32) pvm

unfoldable pub load_imm : OneRegOneImmArgs → Pvm → ℕ → Outcome
load_imm args pvm skip = set_reg pvm args.r_a args.v_x

unfoldable pub load_imm_jump : OneRegOneImmOneOffsetArgs → Pvm → ℕ → Outcome
unfolding ip_offset
load_imm_jump args pvm skip = do
  (pvm', r) ← set_reg pvm args.r_a args.v_x
  branch pvm' (ip_offset pvm args.ip_offset_raw) true skip

-- The branches that compare wA with the immediate.
unfoldable pub branch_imm : (ℕ → ℕ → Bool) → OneRegOneImmOneOffsetArgs → Pvm → ℕ → Outcome
unfolding ip_offset
branch_imm test args pvm skip = do
  w_a ← reg pvm args.r_a
  branch pvm (ip_offset pvm args.ip_offset_raw) (test w_a args.v_x) skip

unfoldable pub branch_eq_imm : OneRegOneImmOneOffsetArgs → Pvm → ℕ → Outcome
unfolding branch_imm
branch_eq_imm = branch_imm (λ w x. w == x)

unfoldable pub branch_ne_imm : OneRegOneImmOneOffsetArgs → Pvm → ℕ → Outcome
unfolding branch_imm
branch_ne_imm = branch_imm (λ w x. not (w == x))

unfoldable pub branch_lt_u_imm : OneRegOneImmOneOffsetArgs → Pvm → ℕ → Outcome
unfolding branch_imm
branch_lt_u_imm = branch_imm (λ w x. ltb w x)

unfoldable pub branch_le_u_imm : OneRegOneImmOneOffsetArgs → Pvm → ℕ → Outcome
unfolding branch_imm
branch_le_u_imm = branch_imm (λ w x. leb w x)

unfoldable pub branch_ge_u_imm : OneRegOneImmOneOffsetArgs → Pvm → ℕ → Outcome
unfolding branch_imm
branch_ge_u_imm = branch_imm (λ w x. leb x w)

unfoldable pub branch_gt_u_imm : OneRegOneImmOneOffsetArgs → Pvm → ℕ → Outcome
unfolding branch_imm
branch_gt_u_imm = branch_imm (λ w x. ltb x w)

unfoldable pub branch_lt_s_imm : OneRegOneImmOneOffsetArgs → Pvm → ℕ → Outcome
unfolding branch_imm
branch_lt_s_imm = branch_imm (λ w x. ltb_ℤ (z8 w) (z8 x))

unfoldable pub branch_le_s_imm : OneRegOneImmOneOffsetArgs → Pvm → ℕ → Outcome
unfolding branch_imm
branch_le_s_imm = branch_imm (λ w x. leb_ℤ (z8 w) (z8 x))

unfoldable pub branch_ge_s_imm : OneRegOneImmOneOffsetArgs → Pvm → ℕ → Outcome
unfolding branch_imm
branch_ge_s_imm = branch_imm (λ w x. leb_ℤ (z8 x) (z8 w))

unfoldable pub branch_gt_s_imm : OneRegOneImmOneOffsetArgs → Pvm → ℕ → Outcome
unfolding branch_imm
branch_gt_s_imm = branch_imm (λ w x. ltb_ℤ (z8 x) (z8 w))

-- `Number(wA)` is `Number(wA.value)`, by the register's `Symbol.toPrimitive`. The sums of the heap
-- are doubles in the source, and exact below 2^53.
unfoldable pub sbrk : TwoRegArgs → Pvm → ℕ → Outcome
sbrk args pvm skip = do
  w_a ← reg pvm args.r_a
  let requested_size = to_number w_a
  let (memory, location) = Memory.sbrk pvm.memory requested_size
  let grown = set_reg (record pvm { memory = memory }) args.r_d location
  let queried = set_reg pvm args.r_d pvm.memory.heap.pointer
  if requested_size == 0 then queried else grown

-- The register is written after the jump, also where that panics.
unfoldable pub load_imm_jump_ind : TwoRegTwoImmArgs → Pvm → ℕ → Outcome
load_imm_jump_ind args pvm skip = do
  w_b ← reg pvm args.r_b
  (pvm', r) ← djump ((w_b + args.v_y) % 2 ^ 32) pvm
  (pvm'', n) ← set_reg pvm' args.r_a args.v_x
  some (pvm'', r)

-- The branches that compare two registers.
unfoldable pub branch_regs : (ℕ → ℕ → Bool) → TwoRegOneOffsetArgs → Pvm → ℕ → Outcome
unfolding ip_offset
branch_regs test args pvm skip = do
  w_a ← reg pvm args.r_a
  w_b ← reg pvm args.r_b
  branch pvm (ip_offset pvm args.ip_offset_raw) (test w_a w_b) skip

unfoldable pub branch_eq : TwoRegOneOffsetArgs → Pvm → ℕ → Outcome
unfolding branch_regs
branch_eq = branch_regs (λ a b. a == b)

unfoldable pub branch_ne : TwoRegOneOffsetArgs → Pvm → ℕ → Outcome
unfolding branch_regs
branch_ne = branch_regs (λ a b. not (a == b))

unfoldable pub branch_lt_u : TwoRegOneOffsetArgs → Pvm → ℕ → Outcome
unfolding branch_regs
branch_lt_u = branch_regs (λ a b. ltb a b)

unfoldable pub branch_lt_s : TwoRegOneOffsetArgs → Pvm → ℕ → Outcome
unfolding branch_regs
branch_lt_s = branch_regs (λ a b. ltb_ℤ (z8 a) (z8 b))

-- `wA >= wB` compares the register objects, which are converted to numbers, so to doubles.
unfoldable pub branch_ge_u : TwoRegOneOffsetArgs → Pvm → ℕ → Outcome
unfolding branch_regs
branch_ge_u = branch_regs (λ a b. leb (to_number b) (to_number a))

unfoldable pub branch_ge_s : TwoRegOneOffsetArgs → Pvm → ℕ → Outcome
unfolding branch_regs
branch_ge_s = branch_regs (λ a b. leb_ℤ (z8 b) (z8 a))
