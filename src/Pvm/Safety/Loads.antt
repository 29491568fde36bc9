-- ===== src/Pvm/Safety/Loads.antt =====
-- The loads, instruction by instruction.
use tsjam.Prelude.{ℕ, ◌<◌, ◌^◌, arith, false}
use tsjam.Pvm.Words.{z, z8_inv, x_fn}
use tsjam.Pvm.Memory.{to_safe_memory_address}
use tsjam.Pvm.Ops.Bounds.{IsU64, z8_inv-IsU64}
use tsjam.Pvm.Decoders.{OneRegOneImmArgs, TwoRegOneImmArgs}
use tsjam.Pvm.Handlers.Mem.{
  unsigned, location, load_imm_at, load_ind_at, load_u8, load_ind_u8, load_u16, load_ind_u16,
  load_u32, load_ind_u32, load_u64, load_ind_u64, load_i8, load_ind_i8, load_i16, load_ind_i16,
  load_i32, load_ind_i32,
}
use tsjam.Pvm.Safety.{KeepsAt, with_reg}
use tsjam.Pvm.Safety.Decoders.{x_fn-IsU64}
use tsjam.Pvm.Safety.Mem.{load_at-Keeps}

pub load_imm_at-Keeps :
    (n : ℕ) (convert : ℕ → ℕ)
    → ((v : ℕ) → v < 256 ^ n → IsU64 (convert v))
    → (args : OneRegOneImmArgs) → KeepsAt false (load_imm_at n convert args)
unfolding load_imm_at
load_imm_at-Keeps n convert h args pvm skip s =
    load_at-Keeps pvm skip s n convert args.r_a (to_safe_memory_address args.v_x) h

pub load_ind_at-Keeps :
    (n : ℕ) (convert : ℕ → ℕ)
    → ((v : ℕ) → v < 256 ^ n → IsU64 (convert v))
    → (args : TwoRegOneImmArgs) → KeepsAt false (load_ind_at n convert args)
unfolding load_ind_at
load_ind_at-Keeps n convert h args pvm skip s =
    with_reg false pvm skip s args.r_b _
      λ b p. load_at-Keeps pvm skip s n convert args.r_a (location b args.v_x) h

pub load_u8-Keeps : (args : OneRegOneImmArgs) → KeepsAt false (load_u8 args)
unfolding load_u8
load_u8-Keeps = load_imm_at-Keeps 1 unsigned (λ v p. omega (arith, p))

pub load_ind_u8-Keeps : (args : TwoRegOneImmArgs) → KeepsAt false (load_ind_u8 args)
unfolding load_ind_u8
load_ind_u8-Keeps = load_ind_at-Keeps 1 unsigned (λ v p. omega (arith, p))

pub load_u16-Keeps : (args : OneRegOneImmArgs) → KeepsAt false (load_u16 args)
unfolding load_u16
load_u16-Keeps = load_imm_at-Keeps 2 unsigned (λ v p. omega (arith, p))

pub load_ind_u16-Keeps : (args : TwoRegOneImmArgs) → KeepsAt false (load_ind_u16 args)
unfolding load_ind_u16
load_ind_u16-Keeps = load_ind_at-Keeps 2 unsigned (λ v p. omega (arith, p))

pub load_u32-Keeps : (args : OneRegOneImmArgs) → KeepsAt false (load_u32 args)
unfolding load_u32
load_u32-Keeps = load_imm_at-Keeps 4 unsigned (λ v p. omega (arith, p))

pub load_ind_u32-Keeps : (args : TwoRegOneImmArgs) → KeepsAt false (load_ind_u32 args)
unfolding load_ind_u32
load_ind_u32-Keeps = load_ind_at-Keeps 4 unsigned (λ v p. omega (arith, p))

pub load_u64-Keeps : (args : OneRegOneImmArgs) → KeepsAt false (load_u64 args)
unfolding load_u64
load_u64-Keeps = load_imm_at-Keeps 8 unsigned (λ v p. omega (arith, p))

pub load_ind_u64-Keeps : (args : TwoRegOneImmArgs) → KeepsAt false (load_ind_u64 args)
unfolding load_ind_u64
load_ind_u64-Keeps = load_ind_at-Keeps 8 unsigned (λ v p. omega (arith, p))

pub load_i8-Keeps : (args : OneRegOneImmArgs) → KeepsAt false (load_i8 args)
unfolding load_i8
load_i8-Keeps = load_imm_at-Keeps 1 (x_fn 1) (λ v p. x_fn-IsU64 1 v (omega arith) p)

pub load_ind_i8-Keeps : (args : TwoRegOneImmArgs) → KeepsAt false (load_ind_i8 args)
unfolding load_ind_i8
load_ind_i8-Keeps = load_ind_at-Keeps 1 (λ v. z8_inv (z 1 v)) (λ v p. z8_inv-IsU64 (z 1 v))

pub load_i16-Keeps : (args : OneRegOneImmArgs) → KeepsAt false (load_i16 args)
unfolding load_i16
load_i16-Keeps = load_imm_at-Keeps 2 (x_fn 2) (λ v p. x_fn-IsU64 2 v (omega arith) p)

pub load_ind_i16-Keeps : (args : TwoRegOneImmArgs) → KeepsAt false (load_ind_i16 args)
unfolding load_ind_i16
load_ind_i16-Keeps = load_ind_at-Keeps 2 (λ v. z8_inv (z 2 v)) (λ v p. z8_inv-IsU64 (z 2 v))

pub load_i32-Keeps : (args : OneRegOneImmArgs) → KeepsAt false (load_i32 args)
unfolding load_i32
load_i32-Keeps = load_imm_at-Keeps 4 (x_fn 4) (λ v p. x_fn-IsU64 4 v (omega arith) p)

pub load_ind_i32-Keeps : (args : TwoRegOneImmArgs) → KeepsAt false (load_ind_i32 args)
unfolding load_ind_i32
load_ind_i32-Keeps = load_ind_at-Keeps 4 (λ v. z8_inv (z 4 v)) (λ v p. z8_inv-IsU64 (z 4 v))
