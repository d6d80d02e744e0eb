-- ===== src/Misc/NullSafe/Guards.antt =====
-- reapi/src/natives/natives_helper.h: behind the checks the pointers that they give are not null.
use reapi.Misc.NullSafe.{
  NullSafe, call-NullSafe, get-NullSafe, voice_helper-NullSafe, pev-NullSafe, frames-NullSafe,
  frame_entities-NullSafe, inner_call-NullSafe, put-NullSafe, invoke-NullSafe, finish-NullSafe,
  if-NullSafe, test-NullSafe, when-NullSafe,
}
use reapi.Members.Natives.{Call}
use reapi.Misc.Calls.{edict, edict_private, Server, is_negative}
use reapi.Misc.{
  Native, Statement, refuse, present_player, is_player, is_entity, connected_player, check_entity,
  check_game_rules, private_arg, check_private, check_weapon, each_from, each_item, each_slot,
}
use reapi.Prelude.{ℕ, zero, suc, ◌≢◌, [], ◌∷◌, ◌==◌}

pub refuse-NullSafe : NullSafe refuse
unfolding NullSafe refuse
refuse-NullSafe = (tt, λ a set. tt)

pub present_player-NullSafe :
    (i : ℕ) (args : Call) (rest : ℕ → Native)
    → ((p : ℕ) → p ≢ 0 → NullSafe (rest p))
    → NullSafe (present_player i args rest)
unfolding NullSafe present_player
present_player-NullSafe i args rest safe = (
  tt,
  λ p set.
      test-NullSafe p _ _ refuse-NullSafe
        (λ ne. (ne, λ gone set. if-NullSafe (gone == 0) _ _ (safe p ne) refuse-NullSafe)),
)

pub connected_player-NullSafe :
    (server : Server) (i : ℕ) (args : Call) (rest : ℕ → Native)
    → ((p : ℕ) → p ≢ 0 → NullSafe (rest p))
    → NullSafe (connected_player server i args rest)
unfolding connected_player
connected_player-NullSafe server i args rest safe =
    if-NullSafe (is_player server (args.params i)) _ _ (present_player-NullSafe i args rest safe)
      refuse-NullSafe

pub check_entity-NullSafe :
    (server : Server) (i : ℕ) (args : Call) (rest : ℕ → Native)
    → NullSafe (rest 0)
    → NullSafe (check_entity server i args rest)
unfolding check_entity
check_entity-NullSafe server i args rest safe =
    if-NullSafe (is_entity server (args.params i)) _ _ safe refuse-NullSafe

pub check_game_rules-NullSafe :
    (rest : ℕ → Native)
    → ((rules : ℕ) → rules ≢ 0 → NullSafe (rest rules))
    → NullSafe (check_game_rules rest)
unfolding NullSafe check_game_rules
check_game_rules-NullSafe rest safe =
    (tt, λ rules set. test-NullSafe rules _ _ refuse-NullSafe (safe rules))

pub private_arg-NullSafe :
    (i : ℕ) (args : Call) (rest : ℕ → Native)
    → ((p : ℕ) → NullSafe (rest p))
    → NullSafe (private_arg i args rest)
unfolding NullSafe private_arg
private_arg-NullSafe i args rest safe =
    if-NullSafe (is_negative (args.params i)) _ _ (safe 0)
      (call-NullSafe edict_private (edict (args.params i) ∷ []) rest safe)

pub check_private-NullSafe :
    (i : ℕ) (args : Call) (rest : ℕ → Native)
    → ((p : ℕ) → p ≢ 0 → NullSafe (rest p))
    → NullSafe (check_private i args rest)
unfolding check_private
check_private-NullSafe i args rest safe =
    private_arg-NullSafe i args _ (λ p. test-NullSafe p _ _ refuse-NullSafe (safe p))

pub check_weapon-NullSafe :
    (p : ℕ) (rest : ℕ → Native) → p ≢ 0 → NullSafe (rest p) → NullSafe (check_weapon p rest)
unfolding NullSafe check_weapon
check_weapon-NullSafe p rest ne safe = (
  ne,
  λ castable set.
      if-NullSafe (castable == 0) _ _ refuse-NullSafe
        (ne, λ weapon set. if-NullSafe (weapon == 0) _ _ refuse-NullSafe safe),
)

-- A statement on what is not null, in front of code that is safe.
abbrev pub StatementIsSafe : (ℕ → Statement) → Type 0
StatementIsSafe visit =
    (item : ℕ) (rest : ℕ → Native)
    → item ≢ 0
    → ((r : ℕ) → NullSafe (rest r))
    → NullSafe (visit item rest)

pub each_from-NullSafe :
    (n : ℕ) (visit : ℕ → Statement) (item : ℕ) (rest : ℕ → Native)
    → StatementIsSafe visit
    → ((r : ℕ) → NullSafe (rest r))
    → NullSafe (each_from n visit item rest)
unfolding NullSafe each_from
each_from-NullSafe zero visit item rest sv sr = if-NullSafe (item == 0) _ _ (sr 0) tt
each_from-NullSafe (suc n) visit item rest sv sr = test-NullSafe item _ _ (sr 0) (λ ne. (
  ne,
  λ next set. sv item _ ne (λ found.
      if-NullSafe (found == 0) _ _ (each_from-NullSafe n visit next rest sv sr) (sr item)),
))

pub each_item-NullSafe :
    (n p index : ℕ) (visit : ℕ → Statement) (rest : ℕ → Native)
    → p ≢ 0
    → StatementIsSafe visit
    → ((r : ℕ) → NullSafe (rest r))
    → NullSafe (each_item n p index visit rest)
unfolding NullSafe each_item
each_item-NullSafe n p index visit rest ne sv sr =
    (ne, λ item set. each_from-NullSafe n visit item rest sv sr)

pub each_slot-NullSafe :
    (n more p index : ℕ) (visit : ℕ → Statement) (rest : ℕ → Native)
    → p ≢ 0
    → StatementIsSafe visit
    → ((r : ℕ) → NullSafe (rest r))
    → NullSafe (each_slot n more p index visit rest)
unfolding each_slot
each_slot-NullSafe n zero p index visit rest ne sv sr = sr 0
each_slot-NullSafe n (suc more) p index visit rest ne sv sr =
    each_item-NullSafe n p index visit _ ne sv (λ item.
      if-NullSafe (item == 0) _ _ (each_slot-NullSafe n more p (suc index) visit rest ne sv sr)
        (sr item))

pub ruleset null_safe = (
  refuse-NullSafe, present_player-NullSafe, connected_player-NullSafe, check_entity-NullSafe,
  check_game_rules-NullSafe, private_arg-NullSafe, check_private-NullSafe, check_weapon-NullSafe,
  each_item-NullSafe, each_slot-NullSafe, inner_call-NullSafe, pev-NullSafe, voice_helper-NullSafe,
  frames-NullSafe, frame_entities-NullSafe, if-NullSafe, test-NullSafe, when-NullSafe,
  call-NullSafe, get-NullSafe, put-NullSafe, invoke-NullSafe, finish-NullSafe,
)
