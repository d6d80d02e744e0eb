-- ===== src/Prelude/Programs.antt =====
-- Code that calls what is outside of the program, as the tree of its calls: each is followed by the
-- rest of the code for every answer. Such code is run by something that answers the calls.
use mathlib.Core.List.{List, [], ◌∷◌}
use mathlib.Core.Option.{Option, none, some}
use Prim.Native.Nat.{ℕ}
use mathlib.Core.Path.{◌≡◌, refl, ap}
use mathlib.Core.Bool.{Bool, true, false}

-- The code returns a cell, calls, or is a loop that was given too few rounds.
pub data Program (E : Type 0) : Type 0 where
  finish : ℕ → Program E
  out_of_rounds : Program E
  perform : E → (ℕ → Program E) → Program E

module _ {E : Type 0} where
  -- A statement and the code behind it, with and without the value of the statement.
  infixl 5 ◌>>=◌ ◌>>◌
  abbrev pub ◌>>=◌ {ℓ} : {A : Type ℓ} → ((A → Program E) → Program E) → (A → Program E) → Program E
  statement >>= rest = statement rest

  abbrev pub ◌>>◌ {ℓ} : {A : Type ℓ} → ((A → Program E) → Program E) → Program E → Program E
  statement >> rest = statement (λ a. rest)

  -- A statement under an `if` that has no `else`.
  abbrev pub when : Bool → ((ℕ → Program E) → Program E) → (ℕ → Program E) → Program E
  when true statement rest = statement rest
  when false statement rest = rest 0

  module _ {W : Type 0} (answer : E → W → ℕ × W) where
    -- What the code returns, the world behind it, and the calls in their order.
    unfoldable pub run : Program E → W → Option ℕ × W × List E
    run (finish c) w = (some c, w, [])
    run out_of_rounds w = (none, w, [])
    run (perform e k) w =
        let (a, w') = answer e w in let (c, w'', es) = run (k a) w' in (c, w'', e ∷ es)

    -- The value and the world behind some code, without the calls.
    unfoldable pub outcome : Program E → W → Option ℕ × W
    outcome code w = let (c, w', es) = run code w in (c, w')

    pub outcome-perform :
        (e : E) (rest : ℕ → Program E) (w : W) (a : ℕ) (w' : W)
        → answer e w ≡ (a, w')
        → outcome (perform e rest) w ≡ outcome (rest a) w'
    unfolding outcome run
    outcome-perform e rest w a w' says = ap (λ r. outcome (rest r.0) r.1) says

    pub outcome-finish : (c : ℕ) (w : W) → outcome (finish c) w ≡ (some c, w)
    unfolding outcome run
    outcome-finish c w = refl

    pub outcome-out_of_rounds : (w : W) → outcome out_of_rounds w ≡ (none, w)
    unfolding outcome run
    outcome-out_of_rounds w = refl
