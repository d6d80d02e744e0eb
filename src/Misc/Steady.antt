-- ===== src/Misc/Steady.antt =====
-- Parts of natives that only ask: with an engine whose answers do not change, they end in one way or
-- give one value, and the world stays as it is.
use reapi.Misc.Calls.{Effect}
use reapi.Misc.{Native}
use reapi.Prelude.Programs.{finish, perform, outcome, outcome-perform, outcome-finish}
use reapi.Prelude.{ℕ, ◌≡◌, refl, ◌∙◌, Bool, true, false, Option, some, if◌then◌else◌}

-- How such a part ends: the native returns, or is out of rounds, or goes on with a value.
pub data Ending (A : Type 0) : Type 0 where
  stopped : Option ℕ → Ending A
  gives : A → Ending A

module _ {W : Type 0} (answer : Effect → W → ℕ × W) where
  abbrev pub follow : {A : Type 0} → Ending A → (A → Native) → W → Option ℕ × W
  follow (stopped c) rest w = (c, w)
  follow (gives a) rest w = outcome answer (rest a) w

  abbrev pub IsSteady : {A : Type 0} → ((A → Native) → Native) → Type 0
  IsSteady {A = A} part =
      (ending : Ending A) × ((rest : A → Native) (w : W)
        → outcome answer (part rest) w ≡ follow ending rest w)

  pub perform-IsSteady :
      (e : Effect) (a : ℕ) → ((w : W) → answer e w ≡ (a, w)) → IsSteady (perform e)
  perform-IsSteady e a says = (gives a, λ rest w. outcome-perform answer e rest w a w (says w))

  pub give-IsSteady : {A : Type 0} (a : A) → IsSteady (λ rest. rest a)
  give-IsSteady a = (gives a, λ rest w. refl)

  pub finish-IsSteady : {A : Type 0} (c : ℕ) → IsSteady {A = A} (λ rest. finish c)
  finish-IsSteady c = (stopped (some c), λ rest w. outcome-finish answer c w)

  pub then-IsSteady :
      {A B : Type 0} (first : (A → Native) → Native) (second : A → (B → Native) → Native)
      → IsSteady first
      → ((a : A) → IsSteady (second a))
      → IsSteady (λ rest. first (λ a. second a rest))
  then-IsSteady first second (stopped c, e) steady = (stopped c, λ rest w. e (λ a. second a rest) w)
  then-IsSteady first second (gives a, e) steady =
      ((steady a).0, λ rest w. e (λ a'. second a' rest) w ∙ (steady a).1 rest w)

  pub if-IsSteady :
      {A : Type 0} (b : Bool) (x y : (A → Native) → Native)
      → IsSteady x
      → IsSteady y
      → IsSteady (λ rest. if b then x rest else y rest)
  if-IsSteady true x y sx sy = sx
  if-IsSteady false x y sx sy = sy
