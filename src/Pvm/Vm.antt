-- ===== src/Pvm/Vm.antt =====
-- The state of the interpreter, and the helpers of its instructions:
-- packages/jam-pvm-js/src/index.ts (the fields), packages/jam-pvm-js/src/utils/branch.ts and djump.ts,
-- packages/jam-pvm-base/src/pvm-exit-reason.ts, and the end of
-- packages/jam-pvm-js/src/instructions/instructions.ts.
use tsjam.Prelude.{ℕ, ◌+◌, ◌-◌, ◌*◌, ◌/◌, ◌%◌, ◌^◌, Bool, true, false, not, ◌||◌}
use tsjam.Prelude.{Option, none, some, ◌>>=◌, List, [], ◌∷◌, length, get_elem?, set}
use tsjam.Prelude.{ltb, ◌==◌, if◌then◌else◌}
use tsjam.Prelude.Int.{ℤ, pos, negsuc}
use tsjam.Pvm.Memory.{PvmMemory, zp, first_unwriteable, write_at, is_none}

-- `PVMExitReasonImpl`, a reason with the data that it carries.
pub data ExitReason : Type 0 where
  halt panic out_of_gas : ExitReason
  host_call : ℕ → ExitReason
  page_fault : ℕ → ExitReason

unfoldable pub is_page_fault : ExitReason → Bool
is_page_fault (page_fault address) = true
is_page_fault halt = false
is_page_fault panic = false
is_page_fault out_of_gas = false
is_page_fault (host_call op_code) = false

-- `PVMProgram`.
pub record PvmProgram : Type 0 where
  pub j : List ℕ
  pub z : ℕ
  pub c : List ℕ
  pub k : List ℕ

-- `IxPointerCache`, without the two fields that only remember later results. `op_code` is
-- undefined where `prog.c` is shorter than `prog.k`.
pub record IxPointerCache : Type 0 where
  pub op_code : Option ℕ
  pub skip : ℕ
  pub is_block_beginning : Bool

-- `PVMJS`. The registers are 13 natural numbers; gas is a BigInt.
pub record Pvm : Type 0 where
  pub memory : PvmMemory
  pub registers : List ℕ
  pub gas : ℤ
  pub pc : ℕ
  pub prog : PvmProgram
  pub ix_pointer_cache : List (ℕ × IxPointerCache)

-- What an instruction does: the new state, with an exit reason if it stops the run; `none` is an
-- exception of JavaScript.
abbrev pub Outcome : Type 0
Outcome = Option (Pvm × Option ExitReason)

-- `#ixPointerCache.get(pointer)`.
unfoldable pub ix_at : List (ℕ × IxPointerCache) → ℕ → Option IxPointerCache
ix_at [] pointer = none
ix_at ((p, ix) ∷ rest) pointer = if p == pointer then some ix else ix_at rest pointer

abbrev pub begins_block : Option IxPointerCache → Bool
begins_block none = false
begins_block (some ix) = ix.is_block_beginning

-- `isBlockBeginning(pointer)`; a negative pointer is no key of the map.
unfoldable pub is_block_beginning : Pvm → ℤ → Bool
unfolding ix_at
is_block_beginning pvm (pos pointer) = begins_block (ix_at pvm.ix_pointer_cache pointer)
is_block_beginning pvm (negsuc n) = false

abbrev pub address_of : ℤ → ℕ
address_of (pos n) = n
address_of (negsuc n) = 0

-- `branch(pvm, address, condition, skipIfFalse)`. The target of a branch that is taken is no
-- negative number, since that begins no block.
unfoldable pub branch : Pvm → ℤ → Bool → ℕ → Outcome
branch pvm address condition skip_if_false =
    if condition
    then if not (is_block_beginning pvm address)
      then some (pvm, some panic)
      else some (record pvm { pc = address_of address }, none)
    else some (record pvm { pc = pvm.pc + skip_if_false }, none)

abbrev pub za : ℕ
za = 2

-- `pvm.prog.j[a / ZA - 1]`: undefined at an odd `a`, whose half is a fraction, and at 0.
unfoldable pub jump_entry : Pvm → ℕ → Option ℕ
jump_entry pvm a = if (a == 0) || not (a % za == 0) then none else get_elem? pvm.prog.j (a / za - 1)

abbrev pub begins_block_at : Pvm → Option ℕ → Bool
begins_block_at pvm none = false
begins_block_at pvm (some ip) = is_block_beginning pvm (pos ip)

abbrev pub get_pointer : Option ℕ → ℕ
get_pointer none = 0
get_pointer (some ip) = ip

-- `djump(a, pvm)`.
unfoldable pub djump : ℕ → Pvm → Outcome
djump a pvm =
    let new_ip = jump_entry pvm a in
    if a == 2 ^ 32 - 2 ^ 16
    then some (pvm, some halt)
    else if (a == 0)
        || (ltb (length pvm.prog.j * za) a
            || (not (a % za == 0) || (is_none new_ip || not (begins_block_at pvm new_ip))))
    then some (pvm, some panic)
    else some (record pvm { pc = get_pointer new_ip }, none)

-- `handleMemoryFault(location)`.
unfoldable pub handle_memory_fault : ℕ → ExitReason
handle_memory_fault location =
    if ltb location (2 ^ 16) then panic else page_fault (zp * (location % zp))

-- `storeSafe(location, bytes, pvm)`; an exception of `writeAt` is passed on.
unfoldable pub store_safe : ℕ → List ℕ → Pvm → Outcome
store_safe location bytes pvm = elim (first_unwriteable pvm.memory location (length bytes)) [
  | some fault ↦ some (pvm, some (page_fault fault))
  | none ↦ do
    memory ← write_at pvm.memory location bytes
    some (record pvm { memory = memory }, none)
]

-- `regs[r]`, whose value is read: a type error if there is no such register.
unfoldable pub reg : Pvm → ℕ → Option ℕ
reg pvm r = get_elem? pvm.registers r

-- `regs[r].value = v`.
unfoldable pub set_reg : Pvm → ℕ → ℕ → Outcome
set_reg pvm r v =
    if ltb r (length pvm.registers)
    then some (record pvm { registers = set pvm.registers r v }, none)
    else none
