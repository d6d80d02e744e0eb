-- ===== src/Misc/FindOwner.antt =====
-- reapi/src/natives/natives_misc.cpp: what rg_find_ent_by_owner finds, and that a plugin which calls it
-- again and again gets every entity.
use reapi.Misc.Search.{first_match, all_matches, first_match-none, first_match-some}
use reapi.Misc.Entities.{first_index, clamped_index, find_by_owner, rg_find_ent_by_owner}
use reapi.Members.Natives.{Call, arg_cell}
use reapi.Members.Setter.{Input}
use reapi.Misc.Calls.{
  cell, text, edict, edict_owner, edict_private, edict_free, edict_is_class, edict_at, write_cell,
  Effect, call, Server, null_entity, text_arg,
}
use reapi.Misc.{Native, false_cell, true_cell, is_entity, check_entity}
use reapi.Prelude.Programs.{finish, perform, outcome, outcome-perform, outcome-finish}
use reapi.Prelude.{
  ℕ, zero, suc, ◌+◌, ◌-◌, ◌^◌, ◌<◌, ◌≡◌, refl, sym, ap, ◌∙◌, ◌≢◌, inl, inr, Bool, true, false, not,
  ◌||◌, Option, none, some, List, [], ◌∷◌, arith, ◌==◌, if◌then◌else◌, Bool-cases, Option-cases,
  get_or, ==_refl,
}

-- What the engine says of the entities.
pub record Entities : Type 0 where
  pub address : ℕ → ℕ
  pub owner_of : ℕ → ℕ
  pub data_of : ℕ → ℕ
  pub freed : ℕ → ℕ
  pub has_class : List ℕ → ℕ → ℕ

-- The engine answers so, and the world is the cell of the plugin that holds the index.
pub record IsAnswer (entities : Entities) (answer : Effect → ℕ → ℕ × ℕ) : Type 0 where
  pub says_owner : (i w : ℕ) → answer (call edict_owner (edict i ∷ [])) w ≡ (entities.owner_of i, w)
  pub says_data : (i w : ℕ) → answer (call edict_private (edict i ∷ [])) w ≡ (entities.data_of i, w)
  pub says_free : (i w : ℕ) → answer (call edict_free (edict i ∷ [])) w ≡ (entities.freed i, w)
  pub says_class :
      (i w : ℕ) (name : List ℕ)
      → answer (call edict_is_class (edict i ∷ text name ∷ [])) w ≡ (entities.has_class name i, w)
  pub says_address : (i w : ℕ) → answer (call edict_at (cell i ∷ [])) w ≡ (entities.address i, w)
  pub writes : (a v w : ℕ) → answer (call write_cell (cell a ∷ cell v ∷ [])) w ≡ (0, v)

-- An entity of the class with the owner that is in use.
abbrev pub is_match : Entities → ℕ → List ℕ → ℕ → Bool
is_match entities wanted name i =
    if entities.owner_of i == wanted
    then (if (entities.data_of i == 0) || not (entities.freed i == 0)
        then false
        else not (entities.has_class name i == 0))
    else false

-- What the loop passes on: 0 for none.
abbrev passed_on : Option ℕ → ℕ
passed_on none = 0
passed_on (some i) = suc i

first_null : (server : Server) → first_index server null_entity ≡ 0
unfolding first_index
first_null server = refl

first_next :
    (server : Server) (c : ℕ)
    → c < server.max_entities
    → server.max_entities < 2 ^ 31
    → first_index server c ≡ suc c
unfolding first_index
first_next server c inside small = ground arith

module _ (entities : Entities) (answer : Effect → ℕ → ℕ × ℕ) (says : IsAnswer entities answer) where
  find_by_owner-first_match :
      (n i wanted : ℕ) (name : List ℕ) (rest : ℕ → Native) (w : ℕ)
      → outcome answer (find_by_owner n i wanted name rest) w
        ≡ outcome answer (rest (passed_on (first_match (is_match entities wanted name) n i))) w
  unfolding find_by_owner
  find_by_owner-first_match zero i wanted name rest w = refl
  find_by_owner-first_match (suc n) i wanted name rest w =
      let later = find_by_owner-first_match n (suc i) wanted name rest w in
      outcome-perform answer _ _ w _ w (says.says_owner i w)
      ∙ (elim (Bool-cases (entities.owner_of i == wanted)) [
        | inl own ↦ rw own (
            outcome-perform answer _ _ w _ w (says.says_data i w)
            ∙ (outcome-perform answer _ _ w _ w (says.says_free i w)
                ∙ (elim (Bool-cases ((entities.data_of i == 0) || not (entities.freed i == 0))) [
                  | inl unused ↦ rw unused later
                  | inr in_use ↦ rw in_use (
                      outcome-perform answer _ _ w _ w (says.says_class i w name)
                      ∙ (elim (Bool-cases (entities.has_class name i == 0)) [
                        | inl other ↦ rw other later
                        | inr same ↦ rw same refl
                      ]))
                ])))
        | inr not_own ↦ rw not_own later
      ])

  -- The entities that a call of the native looks for.
  abbrev pub is_wanted : Call → ℕ → Bool
  is_wanted args = is_match entities (entities.address (args.params 3)) (text_arg args 2)

  -- What the native returns and leaves in the cell of the index.
  abbrev find_result : Server → Call → Option ℕ → Option ℕ × ℕ
  find_result server args none = (some 0, clamped_index server (arg_cell args 1))
  find_result server args (some i) = (some 1, i)

  rg_find_ent_by_owner-first_match :
      (server : Server) (args : Call) (w : ℕ)
      → is_entity server (args.params 3) ≡ true
      → let first = first_index server (arg_cell args 1) in
        outcome answer (rg_find_ent_by_owner server args) w
        ≡ find_result server args (first_match (is_wanted args) (server.max_entities - first) first)
  unfolding rg_find_ent_by_owner check_entity
  rg_find_ent_by_owner-first_match server args w held =
      let first = first_index server (arg_cell args 1) in
      let left = server.max_entities - first in
      let c = clamped_index server (arg_cell args 1) in
      rw held (
        outcome-perform answer _ _ w _ c (says.writes (args.params 1) c w)
        ∙ (outcome-perform answer _ _ c _ c (says.says_address (args.params 3) c)
            ∙ (find_by_owner-first_match left first _ _ _ c
                ∙ finished (first_match (is_wanted args) left first))))
    where
      finished :
          (o : Option ℕ)
          → outcome answer
              (if passed_on o == 0
                then finish false_cell
                else perform
                    (call write_cell (cell (args.params 1) ∷ cell (passed_on o - 1) ∷ []))
                    (λ r. finish true_cell))
              (clamped_index server (arg_cell args 1))
            ≡ find_result server args o
      finished none = outcome-finish answer 0 _
      finished (some i) =
          let found : (suc i == 0) ≡ false = ground arith in
          let before : suc i - 1 ≡ i = omega arith in
          let c = clamped_index server (arg_cell args 1) in
          rw (found, before)
            (outcome-perform answer _ _ c 0 i (says.writes (args.params 1) i c)
              ∙ outcome-finish answer 1 i)

  -- The call with another number in the cell of the index.
  abbrev pub with_index : ℕ → Call → Call
  with_index c args = record args {
    input = λ a. if a == args.params 1 then record { words = λ i. c } else args.input a;
  }

  -- A plugin that calls the native until it returns FALSE, so many times at most: what it is given.
  unfoldable pub collect : ℕ → Server → Call → ℕ → List ℕ
  collect zero server args c = []
  collect (suc n) server args c =
      let (result, c') = outcome answer (rg_find_ent_by_owner server (with_index c args)) c in
      let rest = collect n server args c' in if get_or result 0 == 0 then [] else c' ∷ rest

  arg_cell-with_index : (c : ℕ) (args : Call) → arg_cell (with_index c args) 1 ≡ c
  unfolding arg_cell
  arg_cell-with_index c args =
      let given : Input = record { words = λ i. c } in
      ap (λ b. (if b then given else args.input (args.params 1)).words 0) (==_refl (args.params 1))

  text_arg-with_index :
      (c : ℕ) (args : Call)
      → args.params 1 ≢ args.params 2
      → text_arg (with_index c args) 2 ≡ text_arg args 2
  unfolding text_arg
  text_arg-with_index c args apart =
      let other : (args.params 2 == args.params 1) ≡ false = ground arith in rw other refl

  -- One call of the native, by the index in the cell.
  call_with_index :
      (server : Server) (args : Call) (c first k : ℕ)
      → is_entity server (args.params 3) ≡ true
      → args.params 1 ≢ args.params 2
      → first_index server c ≡ first
      → first + k ≡ server.max_entities
      → outcome answer (rg_find_ent_by_owner server (with_index c args)) c
        ≡ find_result server (with_index c args) (first_match (is_wanted args) k first)
  call_with_index server args c first k held apart starts ends =
      let before = rg_find_ent_by_owner-first_match server (with_index c args) c held in
      let index = arg_cell-with_index c args in
      let name = text_arg-with_index c args apart in
      let left : server.max_entities - first ≡ k = omega arith in
      let test = is_wanted args in
      before
      ∙ ap (find_result server (with_index c args)) (
          ap
            (λ t.
              first_match (is_match entities (entities.address (args.params 3)) t)
                (server.max_entities - first_index server (arg_cell (with_index c args) 1))
                (first_index server (arg_cell (with_index c args) 1)))
            name
          ∙ (ap
                (λ i.
                  first_match test (server.max_entities - first_index server i)
                    (first_index server i))
                index
              ∙ (ap (λ f. first_match test (server.max_entities - f) f) starts
                  ∙ ap (λ l. first_match test l first) left)))

  collect_from :
      (n k first c : ℕ) (server : Server) (args : Call)
      → is_entity server (args.params 3) ≡ true
      → args.params 1 ≢ args.params 2
      → server.max_entities < 2 ^ 31
      → k < n
      → first + k ≡ server.max_entities
      → first_index server c ≡ first
      → collect n server args c ≡ all_matches (is_wanted args) k first
  unfolding collect
  collect_from zero k first c server args held apart small more ends starts = absurd (omega arith)
  collect_from (suc n) k first c server args held apart small more ends starts =
      let test = is_wanted args in
      rw (call_with_index server args c first k held apart starts ends)
        (elim (Option-cases (first_match test k first)) [
          | inl over ↦ rw over (sym (first_match-none test k first over))
          | inr (j, found) ↦ rw found (
              let (from, below, list) = first_match-some test k first j found in
              let inside : j < server.max_entities = omega arith in
              let left = first + k - suc j in
              let fewer : left < n = omega arith in
              let last : suc j + left ≡ server.max_entities = omega arith in
              ap (λ l. j ∷ l)
                (collect_from n left (suc j) j server args held apart small fewer last
                  (first_next server j inside small))
              ∙ sym list)
        ])

  -- On a server with fewer than 2 ^ 31 entities whose engine says truly what its entities are, a plugin
  -- that starts with the index -1 and calls rg_find_ent_by_owner until it returns FALSE is given all the
  -- entities in use that have the class and the owner, each once and in their order, provided that the
  -- owner's index is one of an entity and the index and the name are kept at different addresses; and it
  -- calls the native no more than once for each entity and once again.
  pub collect-all_matches :
      (server : Server) (args : Call)
      → is_entity server (args.params 3) ≡ true
      → args.params 1 ≢ args.params 2
      → server.max_entities < 2 ^ 31
      → collect (suc server.max_entities) server args null_entity
        ≡ all_matches (is_wanted args) server.max_entities 0
  collect-all_matches server args held apart small =
      collect_from (suc server.max_entities) server.max_entities 0 null_entity server args held
        apart small (omega arith) (omega arith) (first_null server)
