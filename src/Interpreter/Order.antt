-- ===== src/Interpreter/Order.antt =====
-- Environments that run the branches they are given one after another, each to its end, as
-- `InMemoryEnv` of julep/execution/interpreter.py does with handlers that never wait.
use julep.Prelude.{ℕ, Option, List, All, ℤ}
use julep.Ir.{MergeKind}
use julep.Interpreter.Env.{State, Eff, Concurrency}
use julep.Interpreter.Eval.Keeps.{Finished}

-- What holds between the states before and after each branch, and passes along, holds between those
-- before and after all of them; and nothing runs forever that has branches which do not.
pub record InOrder {V W : Type 0} (conc : Concurrency V W) : Type 1 where
  pub gather_runs :
      (R : State V W → State V W → Type 0)
      → ((s : State V W) → R s s)
      → ((s t u : State V W) → R s t → R t u → R s u)
      → (ms : List (Eff V W (V × ℕ)))
      → All (λ m. (s : State V W) → Finished (m s).0 → R s (m s).1) ms
      → (s : State V W) → Finished (conc.gather ms s).0
      → R s (conc.gather ms s).1
  pub race_runs :
      (R : State V W → State V W → Type 0)
      → ((s : State V W) → R s s)
      → ((s t u : State V W) → R s t → R t u → R s u)
      → (kind : MergeKind) (m : ℤ) (hedge_ms : Option ℤ) (ms : List (Eff V W (V × ℕ)))
      → All (λ b. (s : State V W) → Finished (b s).0 → R s (b s).1) ms
      → (s : State V W) → Finished (conc.race_first kind m hedge_ms ms s).0
      → R s (conc.race_first kind m hedge_ms ms s).1
  pub gather_finishes :
      (ms : List (Eff V W (V × ℕ)))
      → All (λ m. (s : State V W) → Finished (m s).0) ms
      → (s : State V W) → Finished (conc.gather ms s).0
  pub race_finishes :
      (kind : MergeKind) (m : ℤ) (hedge_ms : Option ℤ) (ms : List (Eff V W (V × ℕ)))
      → All (λ b. (s : State V W) → Finished (b s).0) ms
      → (s : State V W) → Finished (conc.race_first kind m hedge_ms ms s).0
