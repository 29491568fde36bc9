-- ===== src/Pvm/Safety/Flow.antt =====
-- The handlers of control flow, of immediates and of the heap.
use tsjam.Prelude.{ℕ, ◌∙◌, ◌+◌, ◌%◌, ◌^◌, refl, inl, inr, Bool, true, false, none, some, ◌>>=◌}
use tsjam.Prelude.{length, set, ltb, Bool-cases, All-set, length-set, ◌==◌}
use tsjam.Prelude.Int.{ℤ}
use tsjam.Pvm.Words.{to_number}
use tsjam.Pvm.Memory as Memory
use tsjam.Pvm.Memory.Invariant.{sbrk-IsMemory}
use tsjam.Pvm.Ops.Bounds.{IsU64}
use tsjam.Pvm.Vm.{Pvm, Outcome, panic, host_call, djump, set_reg}
use tsjam.Pvm.Decoders.{
  OneRegOneImmArgs, OneRegOneImmOneOffsetArgs, TwoRegArgs, TwoRegOneOffsetArgs, TwoRegTwoImmArgs,
}
use tsjam.Pvm.Handlers.Flow.{
  trap, fallthrough, ecalli, load_imm_64, ip_offset, jump, jump_ind, load_imm, load_imm_jump,
  branch_imm, sbrk, load_imm_jump_ind, branch_regs,
}
use tsjam.Pvm.Safety.{
  IsSound, InRange, Keeps, IsLike, Keeps-from, KeepsAt, with_reg, unchanged, moved, stopped,
  set_reg-Keeps, branch-Keeps, djump-Keeps,
}

pub trap-Keeps : (args : Unit {0}) → KeepsAt true (trap args)
unfolding trap
trap-Keeps args pvm skip s = stopped pvm skip s panic

pub fallthrough-Keeps : (args : Unit {0}) → KeepsAt true (fallthrough args)
unfolding fallthrough
fallthrough-Keeps args pvm skip s = moved pvm skip s (pvm.pc + 1) none (inr (inl refl))

pub ecalli-Keeps : (v_x : ℕ) → KeepsAt false (ecalli v_x)
unfolding ecalli
ecalli-Keeps v_x pvm skip s = unchanged pvm skip s (some (host_call v_x))

pub load_imm_64-Keeps :
    (args : OneRegOneImmArgs) → IsU64 args.v_x → KeepsAt false (load_imm_64 args)
unfolding load_imm_64
load_imm_64-Keeps args x pvm skip s = set_reg-Keeps pvm skip s args.r_a args.v_x (λ g. x)

pub load_imm-Keeps : (args : OneRegOneImmArgs) → IsU64 args.v_x → KeepsAt false (load_imm args)
unfolding load_imm
load_imm-Keeps args x pvm skip s = set_reg-Keeps pvm skip s args.r_a args.v_x (λ g. x)

pub jump-Keeps : (raw : ℤ) → KeepsAt true (jump raw)
unfolding jump
jump-Keeps raw pvm skip s = branch-Keeps pvm skip s (ip_offset pvm raw) true

pub jump_ind-Keeps : (args : OneRegOneImmArgs) → KeepsAt true (jump_ind args)
unfolding jump_ind
jump_ind-Keeps args pvm skip s =
    with_reg true pvm skip s args.r_a _ λ a p. djump-Keeps pvm skip s ((a + args.v_x) % 2 ^ 32)

pub branch_imm-Keeps :
    (test : ℕ → ℕ → Bool) (args : OneRegOneImmOneOffsetArgs) → KeepsAt true (branch_imm test args)
unfolding branch_imm
branch_imm-Keeps test args pvm skip s =
    with_reg true pvm skip s args.r_a _
      λ a p. branch-Keeps pvm skip s (ip_offset pvm args.ip_offset_raw) (test a args.v_x)

pub branch_regs-Keeps :
    (test : ℕ → ℕ → Bool) (args : TwoRegOneOffsetArgs) → KeepsAt true (branch_regs test args)
unfolding branch_regs
branch_regs-Keeps test args pvm skip s = with_reg true pvm skip s args.r_a _ λ a p.
    with_reg true pvm skip s args.r_b _
      λ b q. branch-Keeps pvm skip s (ip_offset pvm args.ip_offset_raw) (test a b)

pub load_imm_jump-Keeps :
    (args : OneRegOneImmOneOffsetArgs) → IsU64 args.v_x → KeepsAt true (load_imm_jump args)
unfolding load_imm_jump set_reg
load_imm_jump-Keeps args x pvm skip s = elim (Bool-cases (ltb args.r_a (length pvm.registers))) [
  | inr e ↦ rw e tt
  | inl e ↦
      let pvm' = record pvm { registers = set pvm.registers args.r_a args.v_x } in
      let like : IsLike pvm pvm' = record {
        gas_same = refl;
        prog_same = refl;
        cache_same = refl;
        pc_same = refl;
        count_same = length-set pvm.registers args.r_a args.v_x;
      } in
      let s' : IsSound pvm' = record { pages = s.pages; code = s.code } in
      let range : InRange pvm → InRange pvm' = λ g. record {
        regs = All-set IsU64 pvm.registers args.r_a args.v_x g.regs x;
        heap = g.heap;
      } in
      rw e (
        Keeps-from pvm pvm' skip _ like range
          (branch-Keeps pvm' skip s' (ip_offset pvm args.ip_offset_raw) true))
]

-- A register written after the jump.
then_set :
    (pvm : Pvm) (skip r v : ℕ) (out : Outcome)
    → IsU64 v
    → Keeps true pvm skip out
    → Keeps true pvm skip
        (out >>= λ (pvm', ret). set_reg pvm' r v >>= λ (pvm'', n). some (pvm'', ret))
unfolding set_reg
then_set pvm skip r v none h k = tt
then_set pvm skip r v (some (pvm', ret)) h k = elim (Bool-cases (ltb r (length pvm'.registers))) [
  | inr e ↦ rw e tt
  | inl e ↦ rw e (record {
    gas_kept = k.gas_kept;
    prog_kept = k.prog_kept;
    cache_kept = k.cache_kept;
    regs_kept = λ g. All-set IsU64 pvm'.registers r v (k.regs_kept g) h;
    count_kept = length-set pvm'.registers r v ∙ k.count_kept;
    pages_kept = k.pages_kept;
    target = k.target;
  })
]

pub load_imm_jump_ind-Keeps :
    (args : TwoRegTwoImmArgs) → IsU64 args.v_x → KeepsAt true (load_imm_jump_ind args)
unfolding load_imm_jump_ind
load_imm_jump_ind-Keeps args x pvm skip s = with_reg true pvm skip s args.r_b _ λ b p.
    then_set pvm skip args.r_a args.v_x (djump ((b + args.v_y) % 2 ^ 32) pvm) x
      (djump-Keeps pvm skip s ((b + args.v_y) % 2 ^ 32))

sbrk_kept :
    (pvm : Pvm) (skip r size : ℕ)
    → IsSound pvm
    → Keeps false pvm skip (
        set_reg
          (record pvm { memory = (Memory.sbrk pvm.memory size).0 })
          r
          (Memory.sbrk pvm.memory size).1)
unfolding set_reg
sbrk_kept pvm skip r size s = elim (Bool-cases (ltb r (length pvm.registers))) [
  | inr e ↦ rw e tt
  | inl e ↦ rw e (record {
    gas_kept = refl;
    prog_kept = refl;
    cache_kept = refl;
    regs_kept = λ g.
        All-set IsU64 pvm.registers r (Memory.sbrk pvm.memory size).1 g.regs
          (unfold Memory.sbrk in g.heap);
    count_kept = length-set pvm.registers r (Memory.sbrk pvm.memory size).1;
    pages_kept = sbrk-IsMemory pvm.memory size s.pages;
    target = refl;
  })
]

pub sbrk-Keeps : (args : TwoRegArgs) → KeepsAt false (sbrk args)
unfolding sbrk
sbrk-Keeps args pvm skip s = with_reg false pvm skip s args.r_a _ λ a p.
    elim (Bool-cases (to_number a == 0)) [
      | inl e ↦ rw e (set_reg-Keeps pvm skip s args.r_d pvm.memory.heap.pointer (λ g. g.heap))
      | inr e ↦ rw e (sbrk_kept pvm skip args.r_d (to_number a) s)
    ]
