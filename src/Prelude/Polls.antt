-- ===== src/Prelude/Polls.antt =====
-- `Poll<T>`, and what is polled by the answers that it gives, in turn.
use mathlib.Core.List.{List, [], ◌∷◌}
use rs_mev_relay.Prelude.Lists.{All}

pub data Poll {ℓ} (A : Type ℓ) : Type ℓ where
  ready : A → Poll A
  pending : Poll A

-- The answer to a poll, and those that are left. After the last one it is pending.
abbrev pub next_poll {ℓ} : {A : Type ℓ} → List (Poll A) → Poll A × List (Poll A)
next_poll [] = (pending, [])
next_poll (answer ∷ answers) = (answer, answers)

-- What holds of all answers, and of waiting, holds of the next one and of the rest.
pub All-next_poll {ℓ κ} :
    {A : Type ℓ} (P : Poll A → Type κ) (answers : List (Poll A))
    → P pending
    → All P answers
    → P (next_poll answers).0 × All P (next_poll answers).1
All-next_poll P [] waiting all = (waiting, tt)
All-next_poll P (answer ∷ answers) waiting (p, all) = (p, all)
