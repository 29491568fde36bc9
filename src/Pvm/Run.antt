-- ===== src/Pvm/Run.antt =====
-- The constructor and the main loop of `PVMJS`: packages/jam-pvm-js/src/index.ts.
use tsjam.Prelude.{ℕ, zero, suc, ◌+◌, ◌-◌, Bool, true, false, Option, none, some}
use tsjam.Prelude.{List, [], ◌∷◌, get_elem?, drop, ◌==◌, if◌then◌else◌}
use tsjam.Prelude.Int.{ℤ, pos, ltb_ℤ, ◌-ℤ◌}
use tsjam.Codec.Buffer.{subarray}
use tsjam.Pvm.Memory.{PvmMemory}
use tsjam.Pvm.Vm.{Pvm, PvmProgram, IxPointerCache, Outcome, ExitReason, panic, out_of_gas, ix_at}
use tsjam.Pvm.Ixdb.{Ix, by_code, block_terminators_has}

-- `Ixdb.blockTerminators.has(opCode)` at an `opCode` that may be undefined.
abbrev pub terminator : List Ix → Option ℕ → Bool
terminator db none = false
terminator db (some op_code) = block_terminators_has db op_code

-- The loop of the constructor from index `i` on: `ks` is what is left of `prog.k`, and its end
-- closes the last instruction.
unfoldable pub cache_loop : List Ix → List ℕ → List ℕ → ℕ → ℕ → Bool → List (ℕ × IxPointerCache)
cache_loop db c [] i last_ix last_block_terminator =
    (
      last_ix,
      record {
        op_code = get_elem? c last_ix;
        skip = i - last_ix - 1;
        is_block_beginning = last_block_terminator;
      },
    )
    ∷ []
cache_loop db c (k ∷ ks) i last_ix last_block_terminator =
    let here = cache_loop db c ks (i + 1) i (terminator db (get_elem? c last_ix)) in
    let past = cache_loop db c ks (i + 1) last_ix last_block_terminator in
    if k == 1
    then (
      last_ix,
      record {
        op_code = get_elem? c last_ix;
        skip = i - last_ix - 1;
        is_block_beginning = last_block_terminator;
      },
    )
      ∷ here
    else past

-- `new PVMJS(...)`; `buildPVM` asserts that `prog.k` starts with a 1.
unfoldable pub new_pvm : List Ix → PvmMemory → List ℕ → ℤ → ℕ → PvmProgram → Pvm
unfolding cache_loop
new_pvm db memory registers gas pc prog = record {
  memory = memory;
  registers = registers;
  gas = gas;
  pc = pc;
  prog = prog;
  ix_pointer_cache = cache_loop db prog.c (drop 1 prog.k) 1 0 true;
}

-- `ixCacheAt(pointer)`: the cache entry, with the instruction that its code names.
abbrev pub ix_of : List Ix → Option ℕ → Option Ix
ix_of db none = none
ix_of db (some op_code) = by_code db op_code

abbrev pub with_ix : List Ix → IxPointerCache → Option (IxPointerCache × Ix)
with_ix db cache = elim (ix_of db cache.op_code) [ none ↦ none | some i ↦ some (cache, i) ]

unfoldable pub ix_cache_at : List Ix → Pvm → ℕ → Option (IxPointerCache × Ix)
unfolding ix_at
ix_cache_at db pvm pointer = elim (ix_at pvm.ix_pointer_cache pointer) [
  | none ↦ none
  | some cache ↦ with_ix db cache
]

-- The body of the loop. The decoded arguments depend on the program only, so decoding them again
-- at every visit gives what the source caches.
unfoldable pub single_step : List Ix → Pvm → Outcome
unfolding ix_cache_at
single_step db pvm = elim (ix_cache_at db pvm pvm.pc) [
  | none ↦ some (record pvm { gas = pvm.gas -ℤ pos 1 }, some panic)
  | some (cache, i) ↦
      elim (i.execute (subarray pvm.prog.c (pvm.pc + 1) (pvm.pc + (cache.skip + 1)))) [
        | none ↦
            some (record pvm { pc = pvm.pc + (cache.skip + 1); gas = pvm.gas -ℤ pos 2 }, some panic)
        | some evaluate ↦ evaluate pvm (cache.skip + 1)
      ]
]

-- How a run ends: with an exit reason, or with an exception; `stuck` is no end of the source, but
-- the loop out of fuel.
pub data RunResult : Type 0 where
  exited : Pvm → ExitReason → RunResult
  thrown : RunResult
  stuck : RunResult

-- `run()`, with a bound on the rounds.
unfoldable pub run : List Ix → ℕ → Pvm → RunResult
unfolding single_step
run db zero pvm = if ltb_ℤ (pos 0) pvm.gas then stuck else exited pvm out_of_gas
run db (suc fuel) pvm = elim (ltb_ℤ (pos 0) pvm.gas) [
  | false ↦ exited pvm out_of_gas
  | true ↦ elim (single_step db pvm) [
    | none ↦ thrown
    | some (pvm', none) ↦ run db fuel pvm'
    | some (pvm', some reason) ↦ exited pvm' reason
  ]
]
