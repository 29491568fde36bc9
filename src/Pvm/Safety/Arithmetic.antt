-- ===== src/Pvm/Safety/Arithmetic.antt =====
-- The handlers that compute a value and store it.
use tsjam.Prelude.{ℕ, false}
use tsjam.Pvm.Ops.Bounds.{IsU64, Keeps₁, Keeps₂}
use tsjam.Pvm.Decoders.{TwoRegArgs, TwoRegOneImmArgs, ThreeRegArgs}
use tsjam.Pvm.Handlers.{one_op, imm_op, imm_cmov, regs_op, regs_cmov}
use tsjam.Pvm.Safety.{KeepsAt, with_reg, set_reg-Keeps}

-- A conditional move gives one of its arguments.
abbrev pub Keeps₃ : (ℕ → ℕ → ℕ → ℕ) → Type 0
Keeps₃ f = (d a b : ℕ) → IsU64 d → IsU64 a → IsU64 b → IsU64 (f d a b)

pub one_op-Keeps : (f : ℕ → ℕ) → Keeps₁ f → (args : TwoRegArgs) → KeepsAt false (one_op f args)
unfolding one_op
one_op-Keeps f h args pvm skip s =
    with_reg false pvm skip s args.r_a _
      λ a p. set_reg-Keeps pvm skip s args.r_d (f a) (λ g. h a (p g))

pub imm_op-Keeps :
    (f : ℕ → ℕ → ℕ)
    → Keeps₂ f
    → (args : TwoRegOneImmArgs) → IsU64 args.v_x
    → KeepsAt false (imm_op f args)
unfolding imm_op
imm_op-Keeps f h args x pvm skip s =
    with_reg false pvm skip s args.r_b _
      λ b p. set_reg-Keeps pvm skip s args.r_a (f b args.v_x) (λ g. h b args.v_x (p g) x)

pub imm_cmov-Keeps :
    (f : ℕ → ℕ → ℕ → ℕ)
    → Keeps₃ f
    → (args : TwoRegOneImmArgs) → IsU64 args.v_x
    → KeepsAt false (imm_cmov f args)
unfolding imm_cmov
imm_cmov-Keeps f h args x pvm skip s = with_reg false pvm skip s args.r_a _ λ a p.
    with_reg false pvm skip s args.r_b _
      λ b q. set_reg-Keeps pvm skip s args.r_a (f a b args.v_x) (λ g. h a b args.v_x (p g) (q g) x)

pub regs_op-Keeps :
    (f : ℕ → ℕ → ℕ) → Keeps₂ f → (args : ThreeRegArgs) → KeepsAt false (regs_op f args)
unfolding regs_op
regs_op-Keeps f h args pvm skip s = with_reg false pvm skip s args.r_a _ λ a p.
    with_reg false pvm skip s args.r_b _
      λ b q. set_reg-Keeps pvm skip s args.r_d (f a b) (λ g. h a b (p g) (q g))

pub regs_cmov-Keeps :
    (f : ℕ → ℕ → ℕ → ℕ) → Keeps₃ f → (args : ThreeRegArgs) → KeepsAt false (regs_cmov f args)
unfolding regs_cmov
regs_cmov-Keeps f h args pvm skip s = with_reg false pvm skip s args.r_d _ λ d o.
    with_reg false pvm skip s args.r_a _ λ a p.
      with_reg false pvm skip s args.r_b _
        λ b q. set_reg-Keeps pvm skip s args.r_d (f d a b) (λ g. h d a b (o g) (p g) (q g))
