-- ===== src/Misc/NullSafe.antt =====
-- reapi/src/natives/natives_misc.cpp: code that uses no null pointer, whatever it is answered.
pub mod Guards
pub mod Players
pub mod Items
pub mod Rounds
pub mod Teams
pub mod ItemInfo
pub mod World
pub mod Actions
pub mod Engine
pub mod Table
pub mod Weapons
use reapi.Members.Natives.{Call}
use reapi.Misc.Calls.{
  Arg, Field, inner, voice_helper, frames, frame_entities, pev, Method, Routine, Effect, log_error,
  get, put, invoke, call, Server,
}
use reapi.Misc.{Native, Statement, for_field, inner_call}
use reapi.Prelude.Programs.{finish, out_of_rounds, perform, when, run}
use reapi.Prelude.{
  ℕ, sym, subst, ◌≢◌, inl, inr, Bool, true, false, Option, none, some, List, ◌==◌, if◌then◌else◌,
  set, All, Bool-cases, ==→ne,
}

-- A member is read, written or called through a pointer that is not null.
abbrev pub IsSafe : Effect → Type 0
IsSafe log_error = Unit
IsSafe (get field p) = p ≢ 0
IsSafe (put field p x) = p ≢ 0
IsSafe (invoke method p xs) = p ≢ 0
IsSafe (call routine xs) = Unit

-- The members that the game library and the engine set when they create an object, and the natives do
-- not test: m_pEntity, pev, the helper of the voice manager, the frames of a client, and the entities of
-- one.
abbrev pub IsInitialised : Effect → ℕ → Type 0
IsInitialised (get inner p) a = a ≢ 0
IsInitialised (get pev p) a = a ≢ 0
IsInitialised (get voice_helper p) a = a ≢ 0
IsInitialised (get frames p) a = a ≢ 0
IsInitialised (get (frame_entities i) p) a = a ≢ 0
IsInitialised e a = Unit

-- Code that is safe whatever it is answered, as long as those members are set.
unfoldable pub NullSafe : Native → Type 0
NullSafe (finish c) = Unit
NullSafe out_of_rounds = Unit
NullSafe (perform e rest) = IsSafe e × ((a : ℕ) → IsInitialised e a → NullSafe (rest a))

-- What the code calls when it is run is safe then, for every world and all such answers.
pub run-NullSafe :
    {W : Type 0} (answer : Effect → W → ℕ × W) (code : Native) (w : W)
    → ((e : Effect) (v : W) → IsInitialised e (answer e v).0)
    → NullSafe code
    → All IsSafe (run answer code w).2
unfolding NullSafe run
run-NullSafe answer (finish c) w set safe = tt
run-NullSafe answer out_of_rounds w set safe = tt
run-NullSafe answer (perform e rest) w set (first, others) = (
  first,
  run-NullSafe answer (rest (answer e w).0) (answer e w).1 set (others (answer e w).0 (set e w)),
)

pub call-NullSafe :
    (routine : Routine) (xs : List Arg) (rest : ℕ → Native)
    → ((answer : ℕ) → NullSafe (rest answer))
    → NullSafe (perform (call routine xs) rest)
unfolding NullSafe
call-NullSafe routine xs rest safe = (tt, λ a set. safe a)

pub get-NullSafe :
    (field : Field) (p : ℕ) (rest : ℕ → Native)
    → p ≢ 0
    → ((answer : ℕ) → NullSafe (rest answer))
    → NullSafe (perform (get field p) rest)
unfolding NullSafe
get-NullSafe field p rest ne safe = (ne, λ a set. safe a)

pub voice_helper-NullSafe :
    (p : ℕ) (rest : ℕ → Native)
    → p ≢ 0
    → ((a : ℕ) → a ≢ 0 → NullSafe (rest a))
    → NullSafe (perform (get voice_helper p) rest)
unfolding NullSafe
voice_helper-NullSafe p rest ne safe = (ne, safe)

pub pev-NullSafe :
    (p : ℕ) (rest : ℕ → Native)
    → p ≢ 0
    → ((a : ℕ) → a ≢ 0 → NullSafe (rest a))
    → NullSafe (perform (get pev p) rest)
unfolding NullSafe
pev-NullSafe p rest ne safe = (ne, safe)

pub frames-NullSafe :
    (p : ℕ) (rest : ℕ → Native)
    → p ≢ 0
    → ((a : ℕ) → a ≢ 0 → NullSafe (rest a))
    → NullSafe (perform (get frames p) rest)
unfolding NullSafe
frames-NullSafe p rest ne safe = (ne, safe)

pub frame_entities-NullSafe :
    (i p : ℕ) (rest : ℕ → Native)
    → p ≢ 0
    → ((a : ℕ) → a ≢ 0 → NullSafe (rest a))
    → NullSafe (perform (get (frame_entities i) p) rest)
unfolding NullSafe
frame_entities-NullSafe i p rest ne safe = (ne, safe)

pub inner_call-NullSafe :
    (method : Method) (p : ℕ) (xs : List Arg) (rest : ℕ → Native)
    → p ≢ 0
    → ((a : ℕ) → NullSafe (rest a))
    → NullSafe (inner_call method p xs rest)
unfolding NullSafe inner_call
inner_call-NullSafe method p xs rest ne safe = (ne, λ e set. (set, λ a none. safe a))

pub put-NullSafe :
    (field : Field) (p : ℕ) (x : Arg) (rest : ℕ → Native)
    → p ≢ 0
    → ((answer : ℕ) → NullSafe (rest answer))
    → NullSafe (perform (put field p x) rest)
unfolding NullSafe
put-NullSafe field p x rest ne safe = (ne, λ a set. safe a)

pub invoke-NullSafe :
    (method : Method) (p : ℕ) (xs : List Arg) (rest : ℕ → Native)
    → p ≢ 0
    → ((answer : ℕ) → NullSafe (rest answer))
    → NullSafe (perform (invoke method p xs) rest)
unfolding NullSafe
invoke-NullSafe method p xs rest ne safe = (ne, λ a set. safe a)

pub finish-NullSafe : (c : ℕ) → NullSafe (finish c)
unfolding NullSafe
finish-NullSafe c = tt

pub out_of_rounds-NullSafe : NullSafe out_of_rounds
unfolding NullSafe
out_of_rounds-NullSafe = tt

pub if-NullSafe :
    (b : Bool) (x y : Native) → NullSafe x → NullSafe y → NullSafe (if b then x else y)
if-NullSafe true x y sx sy = sx
if-NullSafe false x y sx sy = sy

pub for_field-NullSafe :
    (field : Option Field) (use_field : Field → Native) (otherwise : Native)
    → ((f : Field) → NullSafe (use_field f))
    → NullSafe otherwise
    → NullSafe (for_field field use_field otherwise)
for_field-NullSafe none use_field otherwise su so = so
for_field-NullSafe (some field) use_field otherwise su so = su field

-- The test of a pointer: the code behind it may use it.
pub test-NullSafe :
    (p : ℕ) (x y : Native) → NullSafe x → (p ≢ 0 → NullSafe y) → NullSafe (if p == 0 then x else y)
test-NullSafe p x y sx sy = elim (Bool-cases (p == 0)) [
  | inl e ↦ subst (λ b. NullSafe (if b then x else y)) (sym e) sx
  | inr e ↦ subst (λ b. NullSafe (if b then x else y)) (sym e) (sy (==→ne p 0 e))
]

pub when-NullSafe :
    (b : Bool) (statement : Statement) (rest : ℕ → Native)
    → NullSafe (statement rest)
    → NullSafe (rest 0)
    → NullSafe (when b statement rest)
when-NullSafe true statement rest st sr = st
when-NullSafe false statement rest st sr = sr

-- The natives, by what they are given: the number of rounds for the items in a slot, the limits of the
-- server, and the call.
abbrev pub NativeCode : Type 0
NativeCode = ℕ → Server → Call → Native
