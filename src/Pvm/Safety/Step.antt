-- ===== src/Pvm/Safety/Step.antt =====
-- What an instruction of the database does to the state: `PVMIx.execute` and `hydratedEvaluate`.
use mathlib.Core.Option
use Prim.Native.String.{String}
use tsjam.Prelude.{
  ℕ, ◌+◌, ◌≡◌, refl, ap, ◌⊎◌, inl, inr, Bool, true, false, Option, none, some, List, length, All,
}
use tsjam.Prelude.{some_eq, subst, Bool-cases}
use tsjam.Prelude.Int.{pos, ◌-ℤ◌}
use tsjam.Codec.Buffer.{IsBytes}
use tsjam.Pvm.Ops.Bounds.{IsU64}
use tsjam.Pvm.Memory.Invariant.{IsMemory}
use tsjam.Pvm.Vm.{Pvm, ExitReason, Outcome, is_block_beginning, is_page_fault}
use tsjam.Pvm.Ixdb.{Ix, ix, settle, hydrated_evaluate}
use tsjam.Pvm.Safety.{IsSound, InRange, Kept, Keeps, KeepsAt, Target}

-- Where the run goes on: behind the instruction, one further, or at the beginning of a block.
abbrev pub IsNext : Pvm → ℕ → ℕ → Type 0
IsNext pvm skip pc =
    (pc ≡ pvm.pc + skip) ⊎ ((pc ≡ pvm.pc + 1) ⊎ (is_block_beginning pvm (pos pc) ≡ true))

-- What an instruction does, whatever it computes.
pub record Stepped (pvm : Pvm) (skip : ℕ) (pvm' : Pvm) (ret : Option ExitReason) : Type 0 where
  pub gas_paid : pvm'.gas ≡ pvm.gas -ℤ pos 1
  pub prog_kept : pvm'.prog ≡ pvm.prog
  pub cache_kept : pvm'.ix_pointer_cache ≡ pvm.ix_pointer_cache
  pub regs_kept : InRange pvm → All IsU64 pvm'.registers
  pub count_kept : length pvm'.registers ≡ length pvm.registers
  pub pages_kept : IsMemory pvm'.memory
  pub next : ret ≡ none → IsNext pvm skip pvm'.pc

abbrev pub Steps : Pvm → ℕ → Outcome → Type 0
Steps pvm skip none = Unit {0}
Steps pvm skip (some (pvm', ret)) = Stepped pvm skip pvm' ret

-- An instruction whose evaluation is such a step at every sound state, at all arguments.
pub record IxKeeps (i : Ix) : Type 0 where
  pub steps :
      (bytes : List ℕ) (evaluate : Pvm → ℕ → Outcome) (pvm : Pvm) (skip : ℕ)
      → IsBytes bytes
      → i.execute bytes ≡ some evaluate
      → IsSound pvm
      → Steps pvm skip (evaluate pvm skip)

Target-IsNext :
    (pvm : Pvm) (skip pc : ℕ) (ret : Option ExitReason)
    → Target true pvm skip pc ret
    → ret ≡ none
    → IsNext pvm skip pc
Target-IsNext pvm skip pc ret (inl e) n = inl e
Target-IsNext pvm skip pc ret (inr (inl e)) n = inr (inl e)
Target-IsNext pvm skip pc ret (inr (inr (inl e))) n = inr (inr e)
Target-IsNext pvm skip pc ret (inr (inr (inr (e, m)))) n = absurd (m n)

paid :
    {handles : Bool} {pvm : Pvm} {skip : ℕ} {pvm' : Pvm} {ret : Option ExitReason} (pc : ℕ)
    → Kept handles pvm skip pvm' ret
    → (ret ≡ none → IsNext pvm skip pc)
    → Stepped pvm skip (record pvm' { gas = pvm'.gas -ℤ pos 1; pc = pc }) ret
paid pc k next = record {
  gas_paid = ap (λ g. g -ℤ pos 1) k.gas_kept;
  prog_kept = k.prog_kept;
  cache_kept = k.cache_kept;
  regs_kept = k.regs_kept;
  count_kept = k.count_kept;
  pages_kept = k.pages_kept;
  next = next;
}

settle-Steps :
    (handles : Bool) (pvm : Pvm) (skip : ℕ) (pvm' : Pvm) (ret : Option ExitReason)
    → Kept handles pvm skip pvm' ret
    → Steps pvm skip (some (settle handles skip (pvm', ret)))
unfolding settle
settle-Steps true pvm skip pvm' none k =
    paid pvm'.pc k (Target-IsNext pvm skip pvm'.pc none k.target)
settle-Steps false pvm skip pvm' none k =
    paid (pvm'.pc + skip) k (λ n. inl (ap (λ (p : ℕ). p + skip) k.target))
settle-Steps true pvm skip pvm' (some r) k = elim (Bool-cases (is_page_fault r)) [
  | inl e ↦ rw e (paid pvm'.pc k (λ n. cc))
  | inr e ↦ rw e (paid pvm'.pc k (λ n. cc))
]
settle-Steps false pvm skip pvm' (some r) k = elim (Bool-cases (is_page_fault r)) [
  | inl e ↦ rw e (paid pvm'.pc k (λ n. cc))
  | inr e ↦ rw e (paid (pvm'.pc + skip) k (λ n. cc))
]

hydrated-Steps :
    (handles : Bool) (pvm : Pvm) (skip : ℕ) (out : Outcome)
    → Keeps handles pvm skip out
    → Steps pvm skip (Option.map (settle handles skip) out)
hydrated-Steps handles pvm skip none k = tt
hydrated-Steps handles pvm skip (some (pvm', ret)) k = settle-Steps handles pvm skip pvm' ret k

module _ {A : Type 0} where
  executed :
      (handles : Bool) (handler : A → Pvm → ℕ → Outcome) (o : Option A)
      (evaluate : Pvm → ℕ → Outcome) (pvm : Pvm) (skip : ℕ)
      → Option.map (λ (args : A). hydrated_evaluate handles (handler args)) o ≡ some evaluate
      → ((args : A) → o ≡ some args → KeepsAt handles (handler args))
      → IsSound pvm
      → Steps pvm skip (evaluate pvm skip)
  unfolding hydrated_evaluate
  executed handles handler none evaluate pvm skip e h s = cc
  executed handles handler (some args) evaluate pvm skip e h s =
      subst (λ (f : Pvm → ℕ → Outcome). Steps pvm skip (f pvm skip)) (some_eq e)
        (hydrated-Steps handles pvm skip (handler args pvm skip) (h args refl pvm skip s))

  -- An instruction keeps what its handler keeps at the arguments that its decoder gives.
  pub ix-Keeps :
      (op_code : ℕ) (identifier : String) (handles block : Bool) (decoder : List ℕ → Option A)
      (handler : A → Pvm → ℕ → Outcome)
      → ((bytes : List ℕ) (args : A)
          → IsBytes bytes
          → decoder bytes ≡ some args
          → KeepsAt handles (handler args))
      → IxKeeps (ix op_code identifier handles block decoder handler)
  unfolding ix
  ix-Keeps op_code identifier handles block decoder handler h = record {
    steps = λ bytes evaluate pvm skip b e s.
        executed handles handler (decoder bytes) evaluate pvm skip e (λ args d. h bytes args b d) s;
  }

infixr 5 ◌&&&◌
-- A long proof of a product, from the first component on.
pub ◌&&&◌ : {A B : Type 0} → A → B → A × B
a &&& b = (a, b)
