-- ===== src/Pvm/Safety/Table/Loop.antt =====
-- A round of the loop of `PVMJS`, with the instructions that the class registers.
use tsjam.Prelude.{
  ℕ, ◌+◌, ◌≡◌, refl, ◌⊎◌, inl, inr, Option, none, some, length, All, Option-cases, subst, All-take,
  All-drop,
}
use tsjam.Prelude.Int.{ℤ, pos, ◌-ℤ◌}
use tsjam.Codec.Buffer.{BigintBuffer, IsByte, IsBytes, subarray}
use tsjam.Pvm.Ops.Bounds.{IsU64}
use tsjam.Pvm.Memory.Invariant.{IsMemory}
use tsjam.Pvm.Vm.{Pvm, ExitReason, Outcome, IxPointerCache, panic, ix_at}
use tsjam.Pvm.Ixdb.{Ix, by_code}
use tsjam.Pvm.Instructions.{instructions}
use tsjam.Pvm.Run.{single_step, ix_cache_at, ix_of}
use tsjam.Pvm.Safety.{IsSound, InRange}
use tsjam.Pvm.Safety.Step.{Steps, IsNext}
use tsjam.Pvm.Safety.Table.{by_code-Keeps}

-- The length of the instruction at the program counter, its code included.
abbrev pub step_length : Option IxPointerCache → ℕ
step_length none = 0
step_length (some cache) = cache.skip + 1

-- What a round does, whatever the instruction is.
record Round (pvm : Pvm) (pvm' : Pvm) (ret : Option ExitReason) : Type 0 where
  pub gas_paid :
      (pvm'.gas ≡ pvm.gas -ℤ pos 1) ⊎ ((pvm'.gas ≡ pvm.gas -ℤ pos 2) × (ret ≡ some panic))
  pub prog_kept : pvm'.prog ≡ pvm.prog
  pub cache_kept : pvm'.ix_pointer_cache ≡ pvm.ix_pointer_cache
  pub regs_kept : InRange pvm → All IsU64 pvm'.registers
  pub count_kept : length pvm'.registers ≡ length pvm.registers
  pub pages_kept : IsMemory pvm'.memory
  pub next : ret ≡ none → IsNext pvm (step_length (ix_at pvm.ix_pointer_cache pvm.pc)) pvm'.pc

abbrev Advances : Pvm → Outcome → Type 0
Advances pvm none = Unit {0}
Advances pvm (some (pvm', ret)) = Round pvm pvm' ret

code-IsBytes : (pvm : Pvm) (from to : ℕ) → IsSound pvm → IsBytes (subarray pvm.prog.c from to)
unfolding subarray
code-IsBytes pvm from to s = All-take IsByte _ _ (All-drop IsByte from pvm.prog.c s.code)

from_Steps :
    (pvm : Pvm) (cache : IxPointerCache) (out : Outcome)
    → ix_at pvm.ix_pointer_cache pvm.pc ≡ some cache
    → Steps pvm (cache.skip + 1) out
    → Advances pvm out
from_Steps pvm cache none e s = tt
from_Steps pvm cache (some (pvm', ret)) e s = record {
  gas_paid = inl s.gas_paid;
  prog_kept = s.prog_kept;
  cache_kept = s.cache_kept;
  regs_kept = s.regs_kept;
  count_kept = s.count_kept;
  pages_kept = s.pages_kept;
  next = λ n. rw e (s.next n);
}

-- The rounds that panic leave everything but the gas and the program counter.
stops :
    (pvm : Pvm) (pc : ℕ) (gas : ℤ)
    → IsSound pvm
    → (gas ≡ pvm.gas -ℤ pos 1) ⊎ (gas ≡ pvm.gas -ℤ pos 2)
    → Round pvm (record pvm { pc = pc; gas = gas }) (some panic)
stops pvm pc gas s g = record {
  gas_paid = elim g [ inl e ↦ inl e | inr e ↦ inr (e, refl) ];
  prog_kept = refl;
  cache_kept = refl;
  regs_kept = λ g. g.regs;
  count_kept = refl;
  pages_kept = s.pages;
  next = λ n. cc;
}

module _ (buffer : BigintBuffer) where
  ix_of-by_code :
      (o : Option ℕ) (i : Ix)
      → ix_of (instructions buffer) o ≡ some i
      → (op_code : ℕ) × (by_code (instructions buffer) op_code ≡ some i)
  ix_of-by_code none i e = cc
  ix_of-by_code (some op_code) i e = (op_code, e)

  found-Advances :
      (pvm : Pvm) (cache : IxPointerCache) (i : Ix)
      → IsSound pvm
      → ix_at pvm.ix_pointer_cache pvm.pc ≡ some cache
      → ix_of (instructions buffer) cache.op_code ≡ some i
      → Advances pvm (single_step (instructions buffer) pvm)
  unfolding single_step ix_cache_at
  found-Advances pvm cache i s at found =
      let bytes = subarray pvm.prog.c (pvm.pc + 1) (pvm.pc + (cache.skip + 1)) in
      let (op_code, e) = ix_of-by_code cache.op_code i found in
      elim (Option-cases (i.execute bytes)) [
        | inl throws ↦
            rw (at, found, throws, single_step)
              (stops pvm (pvm.pc + (cache.skip + 1)) (pvm.gas -ℤ pos 2) s (inr refl))
        | inr (evaluate, decoded) ↦
            rw (at, found, decoded, single_step)
              (from_Steps pvm cache (evaluate pvm (cache.skip + 1)) at (
                (by_code-Keeps buffer op_code i e).steps bytes evaluate pvm (cache.skip + 1)
                  (code-IsBytes pvm _ _ s) decoded s))
      ]

  step-Advances : (pvm : Pvm) → IsSound pvm → Advances pvm (single_step (instructions buffer) pvm)
  unfolding single_step ix_cache_at
  step-Advances pvm s = elim (Option-cases (ix_at pvm.ix_pointer_cache pvm.pc)) [
    | inl at ↦ rw (at, single_step) (stops pvm pvm.pc (pvm.gas -ℤ pos 1) s (inl refl))
    | inr (cache, at) ↦ elim (Option-cases (ix_of (instructions buffer) cache.op_code)) [
      | inl missing ↦
          rw (at, missing, single_step) (stops pvm pvm.pc (pvm.gas -ℤ pos 1) s (inl refl))
      | inr (i, found) ↦ found-Advances pvm cache i s at found
    ]
  ]

single_step-Round :
    (buffer : BigintBuffer) (pvm pvm' : Pvm) (ret : Option ExitReason)
    → IsSound pvm
    → single_step (instructions buffer) pvm ≡ some (pvm', ret)
    → Round pvm pvm' ret
single_step-Round buffer pvm pvm' ret s e = subst (Advances pvm) e (step-Advances buffer pvm s)

-- At a sound state, a round of the interpreter with the registered instructions that raises no
-- exception pays a unit of gas, or two and panics, and it keeps the program, the pointer table, the
-- number of registers and the form of the memory.
pub single_step-kept :
    (buffer : BigintBuffer) (pvm pvm' : Pvm) (ret : Option ExitReason)
    → IsSound pvm
    → single_step (instructions buffer) pvm ≡ some (pvm', ret)
    → ((pvm'.gas ≡ pvm.gas -ℤ pos 1) ⊎ ((pvm'.gas ≡ pvm.gas -ℤ pos 2) × (ret ≡ some panic)))
      × (pvm'.prog ≡ pvm.prog)
      × (pvm'.ix_pointer_cache ≡ pvm.ix_pointer_cache)
      × (length pvm'.registers ≡ length pvm.registers)
      × IsMemory pvm'.memory
single_step-kept buffer pvm pvm' ret s e =
    let r = single_step-Round buffer pvm pvm' ret s e in
    (r.gas_paid, r.prog_kept, r.cache_kept, r.count_kept, r.pages_kept)

-- At a sound state with 64-bit registers and a heap pointer below 2^64, a round with the registered
-- instructions that raises no exception leaves 64-bit registers.
pub single_step-registers :
    (buffer : BigintBuffer) (pvm pvm' : Pvm) (ret : Option ExitReason)
    → IsSound pvm
    → InRange pvm
    → single_step (instructions buffer) pvm ≡ some (pvm', ret)
    → All IsU64 pvm'.registers
single_step-registers buffer pvm pvm' ret s range e =
    (single_step-Round buffer pvm pvm' ret s e).regs_kept range

-- At a sound state, where a round with the registered instructions lets the run go on, the program
-- counter stands behind the instruction, one further than before, or at the beginning of a block.
pub single_step-IsNext :
    (buffer : BigintBuffer) (pvm pvm' : Pvm)
    → IsSound pvm
    → single_step (instructions buffer) pvm ≡ some (pvm', none)
    → IsNext pvm (step_length (ix_at pvm.ix_pointer_cache pvm.pc)) pvm'.pc
single_step-IsNext buffer pvm pvm' s e = (single_step-Round buffer pvm pvm' none s e).next refl
