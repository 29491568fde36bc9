-- ===== src/Pvm/Safety.antt =====
-- What every handler keeps of the state: the vocabulary of the proofs, and the rules for the
-- pieces that the handlers are made of.
pub mod Arithmetic
pub mod Flow
pub mod Branches
pub mod Mem
pub mod Loads
pub mod Stores
pub mod Decoders
pub mod Step
pub mod Table
use tsjam.Prelude.{
  ℕ, zero, suc, ◌+◌, ◌-◌, ◌*◌, ◌%◌, ◌^◌, ◌<◌, ◌≡◌, ◌≢◌, refl, sym, ap, ◌∙◌, arith, ◌⊎◌, inl, inr,
}
use tsjam.Prelude.{Bool, true, false, not, Option, none, some, ◌>>=◌, List, length, set, All, ltb}
use tsjam.Prelude.{
  Bool-cases, Option-cases, All-get_elem?, All-set, length-set, if◌then◌else◌, get_elem?, some_eq,
  subst, ltb→lt, ◌==◌, ◌||◌,
}
use tsjam.Prelude.Int.{ℤ, pos, negsuc}
use tsjam.Codec.Buffer.{IsBytes}
use tsjam.Pvm.Ops.Bounds.{IsU64}
use tsjam.Pvm.Memory.{PvmMemory, write_at, first_unwriteable, is_none}
use tsjam.Pvm.Memory.Invariant.{IsMemory, write_at-IsMemory}
use tsjam.Pvm.Vm.{
  Pvm, ExitReason, Outcome, is_block_beginning, branch, djump, jump_entry, store_safe, reg, set_reg,
  begins_block_at, begins_block, ix_at, IxPointerCache, get_pointer, page_fault, panic, halt,
}

-- A state that the interpreter works on: whole pages, and code that is bytes.
pub record IsSound (pvm : Pvm) : Type 0 where
  pub pages : IsMemory pvm.memory
  pub code : IsBytes pvm.prog.c

-- The numbers of the state are 64-bit numbers: the registers, and the heap pointer.
pub record InRange (pvm : Pvm) : Type 0 where
  pub regs : All IsU64 pvm.registers
  pub heap : IsU64 pvm.memory.heap.pointer

-- Where the program counter may stand after a handler, before the skip is added: where it was, for
-- a handler that leaves it to the skip; else behind the skip, one further, at the beginning of a
-- block, or where it was, and then the run stops.
abbrev pub Target : Bool → Pvm → ℕ → ℕ → Option ExitReason → Type 0
Target false pvm skip pc ret = pc ≡ pvm.pc
Target true pvm skip pc ret =
    (pc ≡ pvm.pc + skip)
    ⊎ ((pc ≡ pvm.pc + 1)
        ⊎ ((is_block_beginning pvm (pos pc) ≡ true) ⊎ ((pc ≡ pvm.pc) × (ret ≢ none))))

-- What a handler keeps. The heap pointer is not promised to stay below 2^64.
pub record Kept (handles : Bool) (pvm : Pvm) (skip : ℕ) (pvm' : Pvm) (ret : Option ExitReason)
    : Type 0 where
  pub gas_kept : pvm'.gas ≡ pvm.gas
  pub prog_kept : pvm'.prog ≡ pvm.prog
  pub cache_kept : pvm'.ix_pointer_cache ≡ pvm.ix_pointer_cache
  pub regs_kept : InRange pvm → All IsU64 pvm'.registers
  pub count_kept : length pvm'.registers ≡ length pvm.registers
  pub pages_kept : IsMemory pvm'.memory
  pub target : Target handles pvm skip pvm'.pc ret

-- The same of an outcome; an exception leaves no state.
abbrev pub Keeps : Bool → Pvm → ℕ → Outcome → Type 0
Keeps handles pvm skip none = Unit {0}
Keeps handles pvm skip (some (pvm', ret)) = Kept handles pvm skip pvm' ret

-- A handler keeps the state, at sound states.
abbrev pub KeepsAt : Bool → (Pvm → ℕ → Outcome) → Type 0
KeepsAt handles handler =
    (pvm : Pvm) (skip : ℕ) → IsSound pvm → Keeps handles pvm skip (handler pvm skip)

or_false : (a b : Bool) → (a || b) ≡ false → b ≡ false
or_false true b e = cc
or_false false b e = e

-- The test of `djump`, and what it means that it fails.
abbrev bad_entry : Pvm → ℕ → Bool
bad_entry pvm a =
    (a == 0)
    || (ltb (length pvm.prog.j * 2) a
        || (not (a % 2 == 0)
            || (is_none (jump_entry pvm a) || not (begins_block_at pvm (jump_entry pvm a)))))

begins_entry :
    (pvm : Pvm) (o : Option ℕ)
    → (is_none o || not (begins_block_at pvm o)) ≡ false
    → is_block_beginning pvm (pos (get_pointer o)) ≡ true
begins_entry pvm none e = cc
begins_entry pvm (some ip) e = ground arith

begins :
    (pvm : Pvm) (a : ℕ)
    → bad_entry pvm a ≡ false
    → is_block_beginning pvm (pos (get_pointer (jump_entry pvm a))) ≡ true
begins pvm a e =
    begins_entry pvm (jump_entry pvm a) (or_false _ _ (or_false _ _ (or_false (a == 0) _ e)))

pub same_blocks :
    (pvm pvm' : Pvm) (a : ℤ)
    → pvm'.ix_pointer_cache ≡ pvm.ix_pointer_cache
    → is_block_beginning pvm' a ≡ is_block_beginning pvm a
unfolding is_block_beginning
same_blocks pvm pvm' (pos n) e = ap (λ (c : List (ℕ × IxPointerCache)). begins_block (ix_at c n)) e
same_blocks pvm pvm' (negsuc n) e = refl

-- A state that differs in registers and memory only.
pub record IsLike (pvm pvm' : Pvm) : Type 0 where
  pub gas_same : pvm'.gas ≡ pvm.gas
  pub prog_same : pvm'.prog ≡ pvm.prog
  pub cache_same : pvm'.ix_pointer_cache ≡ pvm.ix_pointer_cache
  pub pc_same : pvm'.pc ≡ pvm.pc
  pub count_same : length pvm'.registers ≡ length pvm.registers

Target-from :
    (pvm pvm' : Pvm) (skip pc : ℕ) (ret : Option ExitReason)
    → IsLike pvm pvm'
    → Target true pvm' skip pc ret
    → Target true pvm skip pc ret
Target-from pvm pvm' skip pc ret l (inl e) = inl (omega (arith, l.pc_same))
Target-from pvm pvm' skip pc ret l (inr (inl e)) = inr (inl (omega (arith, l.pc_same)))
Target-from pvm pvm' skip pc ret l (inr (inr (inl e))) =
    inr (inr (inl (sym (same_blocks pvm pvm' (pos pc) l.cache_same) ∙ e)))
Target-from pvm pvm' skip pc ret l (inr (inr (inr (e, n)))) = inr (inr (inr (e ∙ l.pc_same, n)))

-- What is kept from such a state on is kept from the first one.
pub Keeps-from :
    (pvm pvm' : Pvm) (skip : ℕ) (out : Outcome)
    → IsLike pvm pvm'
    → (InRange pvm → InRange pvm')
    → Keeps true pvm' skip out
    → Keeps true pvm skip out
Keeps-from pvm pvm' skip none l range k = tt
Keeps-from pvm pvm' skip (some (pvm'', ret)) l range k = record {
  gas_kept = k.gas_kept ∙ l.gas_same;
  prog_kept = k.prog_kept ∙ l.prog_same;
  cache_kept = k.cache_kept ∙ l.cache_same;
  regs_kept = λ g. k.regs_kept (range g);
  count_kept = k.count_kept ∙ l.count_same;
  pages_kept = k.pages_kept;
  target = Target-from pvm pvm' skip pvm''.pc ret l k.target;
}

module _ (handles : Bool) (pvm : Pvm) (skip : ℕ) (s : IsSound pvm) where
  -- A handler that goes on with the value of a register.
  pub with_reg :
      (r : ℕ) (k : ℕ → Outcome)
      → ((a : ℕ) → (InRange pvm → IsU64 a) → Keeps handles pvm skip (k a))
      → Keeps handles pvm skip (reg pvm r >>= k)
  unfolding reg
  with_reg r k h = elim (Option-cases (get_elem? pvm.registers r)) [
    | inl e ↦ rw e tt
    | inr (a, e) ↦ rw e (h a (λ g. All-get_elem? IsU64 pvm.registers r g.regs e))
  ]

module _ (pvm : Pvm) (skip : ℕ) (s : IsSound pvm) where
  pub unchanged : (ret : Option ExitReason) → Kept false pvm skip pvm ret
  unchanged ret = record {
    gas_kept = refl;
    prog_kept = refl;
    cache_kept = refl;
    regs_kept = λ g. g.regs;
    count_kept = refl;
    pages_kept = s.pages;
    target = refl;
  }

  pub moved :
      (pc : ℕ) (ret : Option ExitReason)
      → Target true pvm skip pc ret
      → Kept true pvm skip (record pvm { pc = pc }) ret
  moved pc ret t = record {
    gas_kept = refl;
    prog_kept = refl;
    cache_kept = refl;
    regs_kept = λ g. g.regs;
    count_kept = refl;
    pages_kept = s.pages;
    target = t;
  }

  pub set_reg-Keeps : (r v : ℕ) → (InRange pvm → IsU64 v) → Keeps false pvm skip (set_reg pvm r v)
  unfolding set_reg
  set_reg-Keeps r v h = elim (Bool-cases (ltb r (length pvm.registers))) [
    | inl e ↦ rw e (record {
      gas_kept = refl;
      prog_kept = refl;
      cache_kept = refl;
      regs_kept = λ g. All-set IsU64 pvm.registers r v g.regs (h g);
      count_kept = length-set pvm.registers r v;
      pages_kept = s.pages;
      target = refl;
    })
    | inr e ↦ rw e tt
  ]

  pub store_safe-Keeps :
      (location : ℕ) (bytes : List ℕ)
      → IsBytes bytes
      → Keeps false pvm skip (store_safe location bytes pvm)
  unfolding store_safe
  store_safe-Keeps location bytes h =
      elim (Option-cases (first_unwriteable pvm.memory location (length bytes))) [
        | inr (fault, e) ↦ rw (e, store_safe) (unchanged (some (page_fault fault)))
        | inl e ↦ rw (e, store_safe) (stored (write_at pvm.memory location bytes) refl)
      ]
    where
      stored :
          (m : Option PvmMemory)
          → write_at pvm.memory location bytes ≡ m
          → Keeps false pvm skip (m >>= λ memory. some (record pvm { memory = memory }, none))
      stored none e = tt
      stored (some m) e = record {
        gas_kept = refl;
        prog_kept = refl;
        cache_kept = refl;
        regs_kept = λ g. g.regs;
        count_kept = refl;
        pages_kept = write_at-IsMemory pvm.memory location bytes m s.pages h e;
        target = refl;
      }

  pub stopped : (reason : ExitReason) → Kept true pvm skip pvm (some reason)
  stopped reason = moved pvm.pc (some reason) (inr (inr (inr (refl, (λ e. cc)))))

  pub branch-Keeps :
      (address : ℤ) (condition : Bool) → Keeps true pvm skip (branch pvm address condition skip)
  unfolding branch
  branch-Keeps address false = moved (pvm.pc + skip) none (inl refl)
  branch-Keeps (negsuc n) true = unfold is_block_beginning in stopped panic
  branch-Keeps (pos n) true = elim (Bool-cases (is_block_beginning pvm (pos n))) [
    | inl e ↦ rw e (moved n none (inr (inr (inl e))))
    | inr e ↦ rw e (stopped panic)
  ]

  pub djump-Keeps : (a : ℕ) → Keeps true pvm skip (djump a pvm)
  unfolding djump
  djump-Keeps a = elim (Bool-cases (a == 2 ^ 32 - 2 ^ 16)) [
    | inl e ↦ rw (e, djump) (stopped halt)
    | inr e ↦ elim (Bool-cases (bad_entry pvm a)) [
      | inl bad ↦ rw (e, bad, djump) (stopped panic)
      | inr good ↦
          rw (e, good, djump)
            (moved (get_pointer (jump_entry pvm a)) none (inr (inr (inl (begins pvm a good)))))
    ]
  ]
