-- ===== src/Misc/InRounds.antt =====
-- reapi/src/natives/natives_misc.cpp: the loops over the items of a player end, where the lists of items
-- have an end.
pub mod Items
use reapi.Members.Natives.{Call}
use reapi.Misc.Calls.{Arg, player_items, next_item, Method, Effect, get, Server}
use reapi.Misc.{
  Native, Statement, false_cell, refuse, present_player, inner_call, is_player, connected_player,
  each_from, each_item, each_slot,
}
use reapi.Prelude.Programs.{finish, out_of_rounds, perform, run}
use reapi.Prelude.{
  ℕ, zero, suc, ◌≡◌, sym, subst, ◌≢◌, inl, inr, Bool, true, false, none, List, arith, ◌==◌,
  if◌then◌else◌, Bool-cases,
}

-- Whether a list of items, linked by `next`, has at most so many.
abbrev pub is_short : (ℕ → ℕ) → ℕ → ℕ → Bool
is_short next zero item = item == 0
is_short next (suc n) item = if item == 0 then true else is_short next n (next item)

module _ (next : ℕ → ℕ) (n : ℕ) where
  -- What may be answered: the links are as `next` says, and no slot has more than `n` items.
  abbrev pub IsAllowed : Effect → ℕ → Type 0
  IsAllowed (get next_item item) a = a ≡ next item
  IsAllowed (get (player_items i) p) a = is_short next n a ≡ true
  IsAllowed e a = Unit

  -- Code that is never out of rounds with such answers.
  unfoldable pub InRounds : Native → Type 0
  InRounds (finish c) = Unit
  InRounds out_of_rounds = ⊥
  InRounds (perform e rest) = (a : ℕ) → IsAllowed e a → InRounds (rest a)

  pub run-InRounds :
      {W : Type 0} (answer : Effect → W → ℕ × W) (code : Native) (w : W)
      → ((e : Effect) (v : W) → IsAllowed e (answer e v).0)
      → InRounds code
      → (run answer code w).0 ≢ none
  unfolding InRounds run
  run-InRounds answer (finish c) w allowed r = ground arith
  run-InRounds answer out_of_rounds w allowed r = absurd r
  run-InRounds answer (perform e rest) w allowed r =
      run-InRounds answer (rest (answer e w).0) (answer e w).1 allowed
        (r (answer e w).0 (allowed e w))

  pub ask-InRounds :
      (e : Effect) (rest : ℕ → Native) → ((a : ℕ) → InRounds (rest a)) → InRounds (perform e rest)
  unfolding InRounds
  ask-InRounds e rest r = λ a allowed. r a

  pub link-InRounds :
      (item : ℕ) (rest : ℕ → Native)
      → InRounds (rest (next item))
      → InRounds (perform (get next_item item) rest)
  unfolding InRounds
  link-InRounds item rest r = λ a e. subst (λ b. InRounds (rest b)) (sym e) r

  pub inner_call-InRounds :
      (method : Method) (p : ℕ) (xs : List Arg) (rest : ℕ → Native)
      → ((a : ℕ) → InRounds (rest a))
      → InRounds (inner_call method p xs rest)
  unfolding inner_call
  inner_call-InRounds method p xs rest r = ask-InRounds _ _ (λ e. ask-InRounds _ _ (λ a. r a))

  pub finish-InRounds : (c : ℕ) → InRounds (finish c)
  unfolding InRounds
  finish-InRounds c = tt

  pub if-InRounds :
      (b : Bool) (x y : Native) → InRounds x → InRounds y → InRounds (if b then x else y)
  if-InRounds true x y sx sy = sx
  if-InRounds false x y sx sy = sy

  pub refuse-InRounds : InRounds refuse
  unfolding refuse
  refuse-InRounds = ask-InRounds _ _ (λ a. finish-InRounds false_cell)

  pub connected_player-InRounds :
      (server : Server) (i : ℕ) (args : Call) (rest : ℕ → Native)
      → ((p : ℕ) → InRounds (rest p))
      → InRounds (connected_player server i args rest)
  unfolding connected_player present_player
  connected_player-InRounds server i args rest r =
      if-InRounds (is_player server (args.params i)) _ _
        (ask-InRounds _ _ (λ p.
          if-InRounds (p == 0) _ _ refuse-InRounds
            (ask-InRounds _ _ (λ gone. if-InRounds (gone == 0) _ _ (r p) refuse-InRounds))))
        refuse-InRounds

  -- The loops, for what is done with an item and asks for rounds of no other loop.
  abbrev pub VisitInRounds : (ℕ → Statement) → Type 0
  VisitInRounds visit =
      (item : ℕ) (rest : ℕ → Native) → ((r : ℕ) → InRounds (rest r)) → InRounds (visit item rest)

  -- The test at the head of a list that is short.
  pub short_from :
      (m item : ℕ)
      → is_short next (suc m) item ≡ true
      → (item == 0) ≡ false
      → is_short next m (next item) ≡ true
  short_from m item short there = ground arith

  each_from-InRounds :
      (m item : ℕ) (visit : ℕ → Statement) (rest : ℕ → Native)
      → is_short next m item ≡ true
      → VisitInRounds visit
      → ((r : ℕ) → InRounds (rest r))
      → InRounds (each_from m visit item rest)
  unfolding each_from
  each_from-InRounds zero item visit rest short v r = rw short (r 0)
  each_from-InRounds (suc m) item visit rest short v r = elim (Bool-cases (item == 0)) [
    | inl over ↦ rw over (r 0)
    | inr there ↦ rw there (
        link-InRounds item _ (
          v item _ (λ found.
            if-InRounds (found == 0) _ _
              (each_from-InRounds m (next item) visit rest (short_from m item short there) v r)
              (r item))))
  ]

  pub each_item-InRounds :
      (p index : ℕ) (visit : ℕ → Statement) (rest : ℕ → Native)
      → VisitInRounds visit
      → ((r : ℕ) → InRounds (rest r))
      → InRounds (each_item n p index visit rest)
  unfolding each_item InRounds
  each_item-InRounds p index visit rest v r =
      λ item short. each_from-InRounds n item visit rest short v r

  pub each_slot-InRounds :
      (more p index : ℕ) (visit : ℕ → Statement) (rest : ℕ → Native)
      → VisitInRounds visit
      → ((r : ℕ) → InRounds (rest r))
      → InRounds (each_slot n more p index visit rest)
  unfolding each_slot
  each_slot-InRounds zero p index visit rest v r = r 0
  each_slot-InRounds (suc more) p index visit rest v r =
      each_item-InRounds p index visit _ v (λ item.
        if-InRounds (item == 0) _ _ (each_slot-InRounds more p (suc index) visit rest v r) (r item))
