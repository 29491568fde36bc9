-- ===== src/Pvm/Safety/Table/Runs.antt =====
-- The whole run: `run()` of packages/jam-pvm-js/src/index.ts.
use tsjam.Prelude.{
  ◌⊎◌, ℕ, zero, suc, ◌≡◌, ◌≤◌, refl, ◌∙◌, arith, inl, inr, true, false, none, some, length,
  Option-cases, Bool-cases, subst, sym,
}
use tsjam.Prelude.Int.{ℤ, pos, negsuc, pos_part, ltb_ℤ, ◌-ℤ◌}
use tsjam.Codec.Buffer.{BigintBuffer, IsBytes}
use tsjam.Pvm.Memory.Invariant.{IsMemory}
use tsjam.Pvm.Vm.{Pvm, PvmProgram, ExitReason, panic, out_of_gas}
use tsjam.Pvm.Instructions.{instructions}
use tsjam.Pvm.Run.{single_step, run, RunResult, exited, thrown, stuck}
use tsjam.Pvm.Safety.{IsSound}
use tsjam.Pvm.Safety.Table.Loop.{single_step-kept}

-- What a run leaves behind: a state with the same program, as many registers and well-formed
-- memory, or an exception, but never a loop that needs more rounds.
abbrev pub Ends : Pvm → RunResult → Type 0
Ends pvm (exited pvm' reason) =
    (pvm'.prog ≡ pvm.prog) × (length pvm'.registers ≡ length pvm.registers) × IsMemory pvm'.memory
Ends pvm thrown = Unit {0}
Ends pvm stuck = ⊥

gas_left :
    (gas gas' : ℤ) (fuel : ℕ)
    → ltb_ℤ (pos 0) gas ≡ true
    → gas' ≡ gas -ℤ pos 1
    → pos_part gas ≤ suc fuel
    → pos_part gas' ≤ fuel
gas_left (negsuc n) gas' fuel p e h = ground arith
gas_left (pos n) gas' fuel p e h = rw e (ground arith)

no_gas : (gas : ℤ) → pos_part gas ≤ 0 → ltb_ℤ (pos 0) gas ≡ false
no_gas (pos n) h = ground arith
no_gas (negsuc n) h = ground arith

here : (pvm : Pvm) (reason : ExitReason) → IsSound pvm → Ends pvm (exited pvm reason)
here pvm reason s = (refl, refl, s.pages)

kept-IsSound :
    (pvm pvm' : Pvm) → IsSound pvm → pvm'.prog ≡ pvm.prog → IsMemory pvm'.memory → IsSound pvm'
kept-IsSound pvm pvm' s e m = record {
  pages = m;
  code = subst (λ (p : PvmProgram). IsBytes p.c) (sym e) s.code;
}

then_Ends :
    (pvm pvm' : Pvm) (r : RunResult)
    → pvm'.prog ≡ pvm.prog
    → length pvm'.registers ≡ length pvm.registers
    → Ends pvm' r
    → Ends pvm r
then_Ends pvm pvm' (exited pvm'' reason) p' c' (p, c, m) = (p ∙ p', c ∙ c', m)
then_Ends pvm pvm' thrown p' c' e = tt
then_Ends pvm pvm' stuck p' c' e = e

paid_one :
    (gas gas' : ℤ) (reason : ExitReason)
    → (gas' ≡ gas -ℤ pos 1) ⊎ ((gas' ≡ gas -ℤ pos 2) × (none ≡ some reason))
    → gas' ≡ gas -ℤ pos 1
paid_one gas gas' reason (inl e) = e
paid_one gas gas' reason (inr (e, n)) = cc

-- At a sound state, a bound on the rounds that is at least the gas is enough: the run exits with a
-- reason, in a state with the same program, as many registers and well-formed memory, or it raises
-- an exception.
pub run-Ends :
    (buffer : BigintBuffer) (fuel : ℕ) (pvm : Pvm)
    → IsSound pvm
    → pos_part pvm.gas ≤ fuel
    → Ends pvm (run (instructions buffer) fuel pvm)
unfolding run
run-Ends buffer zero pvm s h = rw (no_gas pvm.gas h) (here pvm out_of_gas s)
run-Ends buffer (suc fuel) pvm s h = elim (Bool-cases (ltb_ℤ (pos 0) pvm.gas)) [
  | inr empty ↦ rw (empty, run) (here pvm out_of_gas s)
  | inl gas ↦ elim (Option-cases (single_step (instructions buffer) pvm)) [
    | inl e ↦ rw (gas, e, run) tt
    | inr ((pvm', some reason), e) ↦
        let (g, p, t, c, m) = single_step-kept buffer pvm pvm' (some reason) s e in
        rw (gas, e, run) (p, c, m)
    | inr ((pvm', none), e) ↦
        let (g, p, t, c, m) = single_step-kept buffer pvm pvm' none s e in
        rw (gas, e, run)
          (then_Ends pvm pvm' _ p c (
            run-Ends buffer fuel pvm' (kept-IsSound pvm pvm' s p m)
              (gas_left pvm.gas pvm'.gas fuel gas (paid_one pvm.gas pvm'.gas panic g) h)))
  ]
]
