-- ===== src/Utils/OnceCallback.antt =====
-- utils/OnceCallback.h: a callback that runs once. The mutex makes the test and the reset in `call` one
-- step, so that any interleaving of its callers is a list of calls.
use drogon_pay.Common.{◌≡◌, refl, Bool, true, false, List, [], ◌∷◌, ◌++◌, arith}

-- `State::callback`: set until a call takes it. An empty state pointer answers as `taken` does.
pub data CallbackState : Type 0 where
  waiting taken : CallbackState

unfoldable pub valid : CallbackState → Bool
valid waiting = true
valid taken = false

-- What calls leave, the arguments that the callback runs on, and the answers of the calls.
pub record Called {ℓ} (A : Type ℓ) : Type ℓ where
  pub state : CallbackState
  pub ran : List A
  pub answers : List Bool

module _ {ℓ} {A : Type ℓ} where
  unfoldable pub call : A → CallbackState → Called A
  call args waiting = record { state = taken; ran = args ∷ []; answers = true ∷ [] }
  call args taken = record { state = taken; ran = []; answers = false ∷ [] }

  -- One call behind the other.
  unfoldable pub call_all : List A → CallbackState → Called A
  call_all [] state = record { state = state; ran = []; answers = [] }
  call_all (args ∷ later) state =
      let first : Called A = call args state in
      let rest : Called A = call_all later first.state in
      record {
        state = rest.state;
        ran = first.ran ++ rest.ran;
        answers = first.answers ++ rest.answers;
      }

  abbrev pub all_false : List A → List Bool
  all_false [] = []
  all_false (args ∷ later) = false ∷ all_false later

  taken_runs_nothing :
      (calls : List A)
      → call_all calls taken ≡ record { state = taken; ran = []; answers = all_false calls }
  unfolding call_all call
  taken_runs_nothing [] = refl
  taken_runs_nothing (args ∷ later) = ground (arith, taken_runs_nothing later)

  -- Of any calls of a new callback, the first runs it, on its own arguments, and is answered true; the
  -- others run nothing and are answered false; and behind them the callback is not valid any more.
  pub call_all-waiting :
      (args : A) (later : List A)
      → (call_all (args ∷ later) waiting
          ≡ record { state = taken; ran = args ∷ []; answers = true ∷ all_false later })
        × (valid (call_all (args ∷ later) waiting).state ≡ false)
  unfolding call_all call valid
  call_all-waiting args later =
      (rw (taken_runs_nothing later) refl, rw (taken_runs_nothing later) refl)
