-- ===== src/Misc/AmmoKept.antt =====
-- reapi/src/natives/natives_misc.cpp: what the natives on ammunition read back.
use reapi.Misc.Ammo.{is_that_weapon, known_weapon, rg_set_user_bpammo, rg_get_user_bpammo}
use reapi.Misc.Steady.{
  Ending, stopped, gives, follow, IsSteady, perform-IsSteady, give-IsSteady, finish-IsSteady,
  then-IsSteady, if-IsSteady,
}
use reapi.Members.Natives.{Call}
use reapi.Misc.Calls.{
  cell, has_disconnected, player_items, rg_ammo, next_item, item_id, primary_ammo_type, weapon_id,
  is_weapon, player_by_index, weapon_slot_by_id, Effect, log_error, get, put, invoke, call, Server,
  truth, cell_arg,
}
use reapi.Misc.{
  Native, false_cell, true_cell, refuse, present_player, is_player, connected_player, each_from,
  each_item, each_slot, max_item_types,
}
use reapi.Prelude.Programs.{
  finish, out_of_rounds, perform, outcome, outcome-perform, outcome-finish, outcome-out_of_rounds,
}
use reapi.Prelude.{
  ℕ, zero, suc, ◌≡◌, refl, ap, ◌∙◌, ◌⊎◌, inl, inr, Bool, true, false, Option, none, some, [], ◌∷◌,
  arith, ◌==◌, if◌then◌else◌, Bool-cases,
}

-- Whether something is read or written that is the ammunition in `m_rgAmmo`.
abbrev pub is_ammo : Effect → Bool
is_ammo (get (rg_ammo kind) p) = true
is_ammo (put field p x) = true
is_ammo e = false

-- The ammunition by player and kind.
abbrev pub Ammo : Type 0
Ammo = ℕ → ℕ → ℕ

abbrev pub with_ammo : ℕ → ℕ → ℕ → Ammo → Ammo
with_ammo p kind amount w q k = if q == p then (if k == kind then amount else w q k) else w q k

-- A game whose state is the ammunition, and which answers all else as `fixed` says.
pub record IsGame (fixed : Effect → ℕ) (answer : Effect → Ammo → ℕ × Ammo) : Type 0 where
  pub asks : (e : Effect) → is_ammo e ≡ false → (w : Ammo) → answer e w ≡ (fixed e, w)
  pub reads : (kind p : ℕ) (w : Ammo) → answer (get (rg_ammo kind) p) w ≡ (w p kind, w)
  pub stores :
      (kind p amount : ℕ) (w : Ammo)
      → answer (put (rg_ammo kind) p (cell amount)) w ≡ (0, with_ammo p kind amount w)

module _ (fixed : Effect → ℕ) (answer : Effect → Ammo → ℕ × Ammo) (game : IsGame fixed answer) where
  ask : (e : Effect) → is_ammo e ≡ false → IsSteady answer (perform e)
  ask e h = perform-IsSteady answer e (fixed e) (game.asks e h)

  refuse-IsSteady : {A : Type 0} → IsSteady answer {A = A} (λ rest. refuse)
  unfolding refuse
  refuse-IsSteady =
      then-IsSteady answer (perform log_error) (λ a rest. finish false_cell) (ask log_error refl)
        (λ a. finish-IsSteady answer false_cell)

  present_player-IsSteady : (i : ℕ) (args : Call) → IsSteady answer (present_player i args)
  unfolding present_player
  present_player-IsSteady i args =
      then-IsSteady answer (perform (call player_by_index (cell (args.params i) ∷ []))) _
        (ask _ refl)
        (λ p.
          if-IsSteady answer (p == 0) (λ rest. refuse) _ refuse-IsSteady
            (then-IsSteady answer (perform (get has_disconnected p)) _ (ask _ refl) (λ gone.
              if-IsSteady answer (gone == 0) (λ rest. rest p) (λ rest. refuse)
                (give-IsSteady answer p) refuse-IsSteady)))

  connected_player-IsSteady :
      (server : Server) (i : ℕ) (args : Call) → IsSteady answer (connected_player server i args)
  unfolding connected_player
  connected_player-IsSteady server i args =
      if-IsSteady answer (is_player server (args.params i)) (present_player i args) (λ rest. refuse)
        (present_player-IsSteady i args) refuse-IsSteady

  known_weapon-IsSteady : (args : Call) → IsSteady answer (known_weapon args)
  unfolding known_weapon
  known_weapon-IsSteady args =
      then-IsSteady answer (perform (call weapon_slot_by_id (cell_arg args 2 ∷ []))) _ (ask _ refl)
        (λ info.
          if-IsSteady answer (info == 0) (λ rest. finish false_cell) (λ rest. rest info)
            (finish-IsSteady answer false_cell) (give-IsSteady answer info))

  is_that_weapon-IsSteady : (info item : ℕ) → IsSteady answer (is_that_weapon info item)
  unfolding is_that_weapon
  is_that_weapon-IsSteady info item =
      then-IsSteady answer (perform (invoke is_weapon item [])) _ (ask _ refl) (λ weapon.
        if-IsSteady answer (weapon == 0) (λ rest. rest 0) _ (give-IsSteady answer 0)
          (then-IsSteady answer (perform (get item_id item)) _ (ask _ refl) (λ id.
            then-IsSteady answer (perform (get weapon_id info)) _ (ask _ refl)
              (λ wanted. give-IsSteady answer (truth (id == wanted))))))

  each_from-IsSteady : (n info item : ℕ) → IsSteady answer (each_from n (is_that_weapon info) item)
  unfolding each_from
  each_from-IsSteady zero info item =
      if-IsSteady answer (item == 0) (λ rest. rest 0) (λ rest. out_of_rounds)
        (give-IsSteady answer 0) (stopped none, λ rest w. outcome-out_of_rounds answer w)
  each_from-IsSteady (suc n) info item =
      if-IsSteady answer (item == 0) (λ rest. rest 0) _ (give-IsSteady answer 0)
        (then-IsSteady answer (perform (get next_item item)) _ (ask _ refl) (λ next.
          then-IsSteady answer (is_that_weapon info item) _ (is_that_weapon-IsSteady info item)
            (λ found.
              if-IsSteady answer (found == 0) (each_from n (is_that_weapon info) next)
                (λ rest. rest item) (each_from-IsSteady n info next) (give-IsSteady answer item))))

  each_slot-IsSteady :
      (n more p index info : ℕ) → IsSteady answer (each_slot n more p index (is_that_weapon info))
  unfolding each_slot each_item
  each_slot-IsSteady n zero p index info = give-IsSteady answer 0
  each_slot-IsSteady n (suc more) p index info =
      then-IsSteady answer (each_item n p index (is_that_weapon info)) _
        (then-IsSteady answer (perform (get (player_items index) p)) _ (ask _ refl)
          (λ item. each_from-IsSteady n info item))
        (λ item.
          if-IsSteady answer (item == 0) (each_slot n more p (suc index) (is_that_weapon info))
            (λ rest. rest item) (each_slot-IsSteady n more p (suc index) info)
            (give-IsSteady answer item))

  -- What both natives do first: the player and his weapon.
  abbrev find_weapon : ℕ → Server → Call → (ℕ × ℕ → Native) → Native
  find_weapon n server args rest = connected_player server 1 args (λ p.
      known_weapon args
        (λ info. each_slot n max_item_types p 0 (is_that_weapon info) (λ weapon. rest (p, weapon))))

  find_weapon-IsSteady :
      (n : ℕ) (server : Server) (args : Call) → IsSteady answer (find_weapon n server args)
  find_weapon-IsSteady n server args =
      then-IsSteady answer (connected_player server 1 args) _
        (connected_player-IsSteady server 1 args)
        (λ p. then-IsSteady answer (known_weapon args) _ (known_weapon-IsSteady args) (λ info.
          then-IsSteady answer (each_slot n max_item_types p 0 (is_that_weapon info)) _
            (each_slot-IsSteady n max_item_types p 0 info)
            (λ weapon. give-IsSteady answer (p, weapon))))

  -- What they do with the weapon.
  abbrev store_rest : Call → ℕ × ℕ → Native
  store_rest args found =
      if found.1 == 0
      then finish false_cell
      else perform (get primary_ammo_type found.1)
          (λ kind. perform (put (rg_ammo kind) found.0 (cell_arg args 3)) (λ r. finish true_cell))

  abbrev read_rest : ℕ × ℕ → Native
  read_rest found =
      if found.1 == 0
      then finish false_cell
      else perform (get primary_ammo_type found.1)
          (λ kind. perform (get (rg_ammo kind) found.0) finish)

  -- Either the amount was stored and is read back, or both natives return the same and change nothing.
  abbrev IsKept : Native → Native → ℕ → Ammo → Type 0
  IsKept storing reading amount w =
      let (r, w') = outcome answer storing w in
      ((r ≡ some 1) × (outcome answer reading w' ≡ (some amount, w')))
      ⊎ ((w' ≡ w) × (outcome answer reading w ≡ (r, w)))

  stored-IsKept :
      (storing reading : Native) (amount : ℕ) (w w' : Ammo)
      → outcome answer storing w ≡ (some 1, w')
      → outcome answer reading w' ≡ (some amount, w')
      → IsKept storing reading amount w
  stored-IsKept storing reading amount w w' e f = rw e (inl (refl, f))

  same-IsKept :
      (storing reading : Native) (amount : ℕ) (w : Ammo) (c : Option ℕ)
      → outcome answer storing w ≡ (c, w)
      → outcome answer reading w ≡ (c, w)
      → IsKept storing reading amount w
  same-IsKept storing reading amount w c e f = rw e (inr (refl, f))

  with_ammo-same : (p kind amount : ℕ) (w : Ammo) → with_ammo p kind amount w p kind ≡ amount
  with_ammo-same p kind amount w = ground arith

  -- The code behind the search for the weapon.
  rest-IsKept :
      (storing reading : Native) (args : Call) (found : ℕ × ℕ) (w : Ammo)
      → outcome answer storing w ≡ outcome answer (store_rest args found) w
      → ((v : Ammo) → outcome answer reading v ≡ outcome answer (read_rest found) v)
      → IsKept storing reading (args.params 3) w
  rest-IsKept storing reading args (p, weapon) w e f = elim (Bool-cases (weapon == 0)) [
    | inl missing ↦
        let gone = λ (x y : Native). ap (λ b. outcome answer (if b then x else y) w) missing in
        same-IsKept storing reading (args.params 3) w (some 0)
          (e ∙ (gone _ _ ∙ outcome-finish answer 0 w))
          (f w ∙ (gone _ _ ∙ outcome-finish answer 0 w))
    | inr held ↦
        let kind = fixed (get primary_ammo_type weapon) in
        let there =
          λ (x y : Native) (v : Ammo). ap (λ b. outcome answer (if b then x else y) v) held in
        let w' = with_ammo p kind (args.params 3) w in
        let asked = λ (rest : ℕ → Native) (v : Ammo).
          outcome-perform answer (get primary_ammo_type weapon) rest v kind v
            (game.asks _ refl v) in
        stored-IsKept storing reading (args.params 3) w w'
          (e
            ∙ (there _ _ w
                ∙ (asked _ w
                    ∙ (outcome-perform answer _ _ w 0 w' (game.stores kind p (args.params 3) w)
                        ∙ outcome-finish answer 1 w'))))
          (f w'
            ∙ (there _ _ w'
                ∙ (asked _ w'
                    ∙ (outcome-perform answer _ _ w' (w' p kind) w' (game.reads kind p w')
                        ∙ (outcome-finish answer (w' p kind) w'
                            ∙ ap (λ a. (some a, w')) (with_ammo-same p kind (args.params 3) w))))))
  ]

  -- In a game that keeps the ammunition of its players, and whose answers to all else do not change:
  -- either rg_set_user_bpammo returns TRUE, and rg_get_user_bpammo for the same player and weapon then
  -- returns the amount and changes nothing, or it changes nothing, and rg_get_user_bpammo returns the
  -- same as it did.
  pub rg_get_user_bpammo-set :
      (n : ℕ) (server : Server) (args : Call) (w : Ammo)
      → let (r, w') = outcome answer (rg_set_user_bpammo n server args) w in
        ((r ≡ some 1)
          × (outcome answer (rg_get_user_bpammo n server args) w' ≡ (some (args.params 3), w')))
        ⊎ ((w' ≡ w) × (outcome answer (rg_get_user_bpammo n server args) w ≡ (r, w)))
  unfolding rg_set_user_bpammo rg_get_user_bpammo
  rg_get_user_bpammo-set n server args w =
      let (ending, e) = find_weapon-IsSteady n server args in
      kept ending (e (store_rest args)) (e read_rest)
    where
      kept :
          (ending : Ending (ℕ × ℕ))
          → ((v : Ammo)
              → outcome answer (find_weapon n server args (store_rest args)) v
                ≡ follow answer ending (store_rest args) v)
          → ((v : Ammo)
              → outcome answer (find_weapon n server args read_rest) v
                ≡ follow answer ending read_rest v)
          → IsKept
              (find_weapon n server args (store_rest args))
              (find_weapon n server args read_rest)
              (args.params 3)
              w
      kept (stopped c) e f = same-IsKept _ _ (args.params 3) w c (e w) (f w)
      kept (gives found) e f = rest-IsKept _ _ args found w (e w) f
