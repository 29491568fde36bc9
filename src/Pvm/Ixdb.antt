-- ===== src/Pvm/Ixdb.antt =====
-- The instruction database of packages/jam-pvm-js/src/instructions/ixdb.ts, and the hydrated
-- evaluation that the decorator `Ix` wraps round every handler.
pub mod New
pub mod Registry
use Prim.Native.String.{String}
use text.Mathlib.Text.{◌==◌ as str_eq}
use mathlib.Core.Option
use tsjam.Prelude.{ℕ, ◌+◌, Bool, true, false, ◌&&◌, not, Option, none, some, ◌>>=◌, List, [], ◌∷◌}
use tsjam.Prelude.{◌==◌, if◌then◌else◌}
use tsjam.Prelude.Int.{pos, ◌-ℤ◌}
use tsjam.Pvm.Vm.{Pvm, Outcome, ExitReason, is_page_fault}

-- `PVMIx`: `execute bytes` decodes the arguments, and is `none` if the decoder throws.
pub record Ix : Type 0 where
  pub op_code : ℕ
  pub identifier : String
  pub is_block_terminator : Bool
  pub execute : List ℕ → Option (Pvm → ℕ → Outcome)

abbrev pub faults : Option ExitReason → Bool
faults none = false
faults (some r) = is_page_fault r

-- The end of `hydratedEvaluate`: the gas, and the skip unless the handler moved the pointer.
unfoldable pub settle : Bool → ℕ → Pvm × Option ExitReason → Pvm × Option ExitReason
settle handles_instruction_pointer skip (pvm, ret) =
    let paid = record pvm { gas = pvm.gas -ℤ pos 1 } in
    (
      if not (faults ret) && not handles_instruction_pointer
          then record paid { pc = paid.pc + skip }
          else paid,
      ret,
    )

unfoldable pub hydrated_evaluate : Bool → (Pvm → ℕ → Outcome) → Pvm → ℕ → Outcome
unfolding settle
hydrated_evaluate handles_instruction_pointer handler pvm skip =
    Option.map (settle handles_instruction_pointer skip) (handler pvm skip)

-- `@Ix(opCode, decoder, handlesInstructionPointer)`, with `@BlockTermination` as a flag.
unfoldable pub ix :
    {A : Type 0} → ℕ → String → Bool → Bool → (List ℕ → Option A) → (A → Pvm → ℕ → Outcome) → Ix
unfolding hydrated_evaluate
ix {A} op_code identifier handles_instruction_pointer is_block_terminator decoder handler = record {
  op_code = op_code;
  identifier = identifier;
  is_block_terminator = is_block_terminator;
  execute = λ bytes.
      Option.map (λ (args : A). hydrated_evaluate handles_instruction_pointer (handler args))
        (decoder bytes);
}

-- `Ixdb.byCode.get(opCode)`; the three collections of `Ixdb` are read off the list of what is
-- registered.
unfoldable pub by_code : List Ix → ℕ → Option Ix
by_code [] op_code = none
by_code (i ∷ db) op_code = if i.op_code == op_code then some i else by_code db op_code

unfoldable pub has_identifier : List Ix → String → Bool
has_identifier [] name = false
has_identifier (i ∷ db) name = if str_eq i.identifier name then true else has_identifier db name

abbrev pub terminates : Option Ix → Bool
terminates none = false
terminates (some i) = i.is_block_terminator

-- `Ixdb.blockTerminators.has(opCode)`.
unfoldable pub block_terminators_has : List Ix → ℕ → Bool
unfolding by_code
block_terminators_has db op_code = terminates (by_code db op_code)

abbrev is_some : Option Ix → Bool
is_some none = false
is_some (some i) = true

-- `regIx(ix)`: a second instruction with the code or the name throws.
unfoldable pub reg_ix : List Ix → Ix → Option (List Ix)
unfolding by_code has_identifier
reg_ix db i =
    if is_some (by_code db i.op_code)
    then none
    else if has_identifier db i.identifier
    then none
    else some (i ∷ db)

-- What the decorators do one after the other: `regIx` for each instruction.
unfoldable pub reg_all : List Ix → List Ix → Option (List Ix)
unfolding reg_ix
reg_all db [] = some db
reg_all db (i ∷ is) = reg_ix db i >>= λ db'. reg_all db' is
