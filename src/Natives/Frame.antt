-- ===== src/Natives/Frame.antt =====
-- SetHookChainArg changes one argument and counts the temporary string that it takes.
use reapi.Chain.{
  AType, integer, float, string, classptr, edict, evars, bool, vector, trace, Value, number, text,
  entity, result, Arg, HookCtx,
}
use reapi.Natives.{
  Source, truth, string_size, get_amx_string, private_of, edict_by_index, get_temp_string,
  store_arg, write_arg, set_hook_chain_arg,
}
use reapi.Prelude.Int.{ℤ, pos, negsuc, eqb_ℤ}
use reapi.Prelude.{
  ap, sym, ◌∙◌, some, some_inj, subst, ℕ, zero, suc, ◌-◌, ◌+◌, ◌≡◌, refl, Bool, false, List, [],
  ◌∷◌, get_elem?, set, ◌==◌, arith, Run, ok, fault, Option-cases, inl, inr,
}

get_elem?-set_other :
    (xs : List Arg) (i j : ℕ) (a : Arg)
    → (i == j) ≡ false
    → get_elem? (set xs i a) j ≡ get_elem? xs j
get_elem?-set_other [] i j a h = refl
get_elem?-set_other (x ∷ xs) zero zero a h = cc
get_elem?-set_other (x ∷ xs) zero (suc j) a h = refl
get_elem?-set_other (x ∷ xs) (suc i) zero a h = refl
get_elem?-set_other (x ∷ xs) (suc i) (suc j) a h = get_elem?-set_other xs i j a (ground arith)

-- The value of a run that ends, or the given one.
abbrev get_ok : {A : Type 0} → Run A → A → A
get_ok (ok a) d = a
get_ok (fault e) d = d

ok_inj : {A : Type 0} (a b : A) → ok a ≡ ok b → a ≡ b
ok_inj a b e = ap (λ r. get_ok r a) e

-- What a call may change, seen from the argument `j`.
abbrev pub Framed : ℕ → ℕ → HookCtx → ℕ → HookCtx → Type 0
Framed j n ctx n' ctx' =
    (get_elem? ctx'.args j ≡ get_elem? ctx.args j)
    × (n' + ctx.tempstrings_used ≡ n + ctx'.tempstrings_used)
    × (ctx'.ret_val ≡ ctx.ret_val)

store_arg-Framed :
    (i j : ℕ) (t : AType) (v : Value) (n : ℕ) (ctx : HookCtx)
    → (i == j) ≡ false
    → Framed j n ctx n (store_arg i t v ctx)
unfolding store_arg
store_arg-Framed i j t v n ctx h =
    (get_elem?-set_other ctx.args i j (record { type = t; value = v }) h, refl, refl)

-- Every way in which the switch returns.
write_arg-Framed :
    (p : ℕ → Bool) (i j : ℕ) (t : AType) (src : Source) (n : ℕ) (ctx : HookCtx)
    (r : Bool × ℕ × HookCtx)
    → (i == j) ≡ false
    → write_arg p i t src n ctx ≡ ok r
    → Framed j n ctx r.1 r.2
unfolding write_arg get_temp_string store_arg
write_arg-Framed p i j integer src n ctx r h e =
    subst (λ x. Framed j n ctx x.1 x.2) (ok_inj _ r e)
      (store_arg-Framed i j integer (number src.cell) n ctx h)
write_arg-Framed p i j float src n ctx r h e =
    subst (λ x. Framed j n ctx x.1 x.2) (ok_inj _ r e)
      (store_arg-Framed i j float (number src.cell) n ctx h)
write_arg-Framed p i j string src n ctx r h e =
    let new : Arg = record {
      type = string;
      value = text (get_amx_string src.chars (string_size - 1));
    } in
    ground (arith, get_elem?-set_other ctx.args i j new h)
write_arg-Framed p i j classptr src n ctx r h e =
    subst (λ x. Framed j n ctx x.1 x.2) (ok_inj _ r e)
      (store_arg-Framed i j classptr (entity (private_of p src.cell)) n ctx h)
write_arg-Framed p i j edict src n ctx r h e =
    subst (λ x. Framed j n ctx x.1 x.2) (ok_inj _ r e)
      (store_arg-Framed i j edict (entity (edict_by_index src.cell)) n ctx h)
write_arg-Framed p i j evars src n ctx r h e =
    subst (λ x. Framed j n ctx x.1 x.2) (ok_inj _ r e)
      (store_arg-Framed i j evars (entity (edict_by_index src.cell)) n ctx h)
write_arg-Framed p i j bool src n ctx r h e =
    subst (λ x. Framed j n ctx x.1 x.2) (ok_inj _ r e)
      (store_arg-Framed i j bool (number (truth src.cell)) n ctx h)
write_arg-Framed p i j vector src n ctx r h e =
    subst (λ x. Framed j n ctx x.1 x.2) (ok_inj _ r e) (refl, refl, refl)
write_arg-Framed p i j trace src n ctx r h e =
    subst (λ x. Framed j n ctx x.1 x.2) (ok_inj _ r e)
      (store_arg-Framed i j trace (result src.trace_result) n ctx h)

abbrev pub arg_types : List Arg → List AType
arg_types [] = []
arg_types (a ∷ args) = a.type ∷ arg_types args

abbrev SameTypes : HookCtx → HookCtx → Type 0
SameTypes ctx ctx' = arg_types ctx'.args ≡ arg_types ctx.args

arg_types-set :
    (xs : List Arg) (i : ℕ) (a arg : Arg)
    → get_elem? xs i ≡ some arg
    → arg.type ≡ a.type
    → arg_types (set xs i a) ≡ arg_types xs
arg_types-set [] i a arg q h = refl
arg_types-set (x ∷ xs) zero a arg q h =
    ap (λ t. t ∷ arg_types xs) (sym h ∙ sym (ap (λ (b : Arg). b.type) (some_inj x arg q)))
arg_types-set (x ∷ xs) (suc i) a arg q h = ap (λ ts. x.type ∷ ts) (arg_types-set xs i a arg q h)

store_arg-types :
    (i : ℕ) (t : AType) (v : Value) (ctx : HookCtx) (arg : Arg)
    → get_elem? ctx.args i ≡ some arg
    → arg.type ≡ t
    → SameTypes ctx (store_arg i t v ctx)
unfolding store_arg
store_arg-types i t v ctx arg q h =
    arg_types-set ctx.args i (record { type = t; value = v }) arg q h

write_arg-types :
    (p : ℕ → Bool) (i : ℕ) (t : AType) (src : Source) (n : ℕ) (ctx : HookCtx) (arg : Arg)
    (r : Bool × ℕ × HookCtx)
    → get_elem? ctx.args i ≡ some arg
    → arg.type ≡ t
    → write_arg p i t src n ctx ≡ ok r
    → SameTypes ctx r.2
unfolding write_arg get_temp_string store_arg
write_arg-types p i integer src n ctx arg r q h e =
    subst (λ x. SameTypes ctx x.2) (ok_inj _ r e)
      (store_arg-types i integer (number src.cell) ctx arg q h)
write_arg-types p i float src n ctx arg r q h e =
    subst (λ x. SameTypes ctx x.2) (ok_inj _ r e)
      (store_arg-types i float (number src.cell) ctx arg q h)
write_arg-types p i string src n ctx arg r q h e =
    let new : Arg = record {
      type = string;
      value = text (get_amx_string src.chars (string_size - 1));
    } in
    ground (arith, arg_types-set ctx.args i new arg q h)
write_arg-types p i classptr src n ctx arg r q h e =
    subst (λ x. SameTypes ctx x.2) (ok_inj _ r e)
      (store_arg-types i classptr (entity (private_of p src.cell)) ctx arg q h)
write_arg-types p i edict src n ctx arg r q h e =
    subst (λ x. SameTypes ctx x.2) (ok_inj _ r e)
      (store_arg-types i edict (entity (edict_by_index src.cell)) ctx arg q h)
write_arg-types p i evars src n ctx arg r q h e =
    subst (λ x. SameTypes ctx x.2) (ok_inj _ r e)
      (store_arg-types i evars (entity (edict_by_index src.cell)) ctx arg q h)
write_arg-types p i bool src n ctx arg r q h e =
    subst (λ x. SameTypes ctx x.2) (ok_inj _ r e)
      (store_arg-types i bool (number (truth src.cell)) ctx arg q h)
write_arg-types p i vector src n ctx arg r q h e =
    subst (λ x. SameTypes ctx x.2) (ok_inj _ r e) refl
write_arg-types p i trace src n ctx arg r q h e =
    subst (λ x. SameTypes ctx x.2) (ok_inj _ r e)
      (store_arg-types i trace (result src.trace_result) ctx arg q h)

set_hook_chain_arg-types :
    (has_private : ℕ → Bool) (i t : ℤ) (src : Source) (n : ℕ) (ctx : HookCtx)
    (r : Bool × ℕ × HookCtx)
    → set_hook_chain_arg has_private i t src n ctx ≡ ok r
    → SameTypes ctx r.2
unfolding set_hook_chain_arg
set_hook_chain_arg-types has_private (negsuc i) t src n ctx r e =
    subst (λ x. SameTypes ctx x.2) (ok_inj _ r e) refl
set_hook_chain_arg-types has_private (pos zero) t src n ctx r e =
    subst (λ x. SameTypes ctx x.2) (ok_inj _ r e) refl
set_hook_chain_arg-types has_private (pos (suc i)) t src n ctx r e =
    elim (Option-cases (get_elem? ctx.args i)) [
      | inl q ↦ subst (λ x. SameTypes ctx x.2) (ok_inj _ r (rw (q, set_hook_chain_arg) at e)) refl
      | inr (arg, q) ↦ ground (arith, write_arg-types has_private i arg.type src n ctx arg r q refl)
    ]

set_hook_chain_arg-Framed :
    (has_private : ℕ → Bool) (i t : ℤ) (src : Source) (n n' : ℕ) (ctx ctx' : HookCtx) (b : Bool)
    (j : ℕ)
    → set_hook_chain_arg has_private i t src n ctx ≡ ok (b, n', ctx')
    → eqb_ℤ i (pos (suc j)) ≡ false
    → Framed j n ctx n' ctx'
unfolding set_hook_chain_arg
set_hook_chain_arg-Framed has_private (negsuc i) t src n n' ctx ctx' b j e h =
    subst (λ x. Framed j n ctx x.1 x.2) (ok_inj _ (b, n', ctx') e) (refl, refl, refl)
set_hook_chain_arg-Framed has_private (pos zero) t src n n' ctx ctx' b j e h =
    subst (λ x. Framed j n ctx x.1 x.2) (ok_inj _ (b, n', ctx') e) (refl, refl, refl)
set_hook_chain_arg-Framed has_private (pos (suc i)) t src n n' ctx ctx' b j e h =
    elim (Option-cases (get_elem? ctx.args i)) [
      | inl q ↦
          subst (λ x. Framed j n ctx x.1 x.2)
            (ok_inj _ (b, n', ctx') (rw (q, set_hook_chain_arg) at e)) (refl, refl, refl)
      | inr (arg, q) ↦
          ground (arith, write_arg-Framed has_private i j arg.type src n ctx (b, n', ctx'))
    ]

-- When SetHookChainArg returns, no other argument has changed, nor the type of any, also of the one
-- that was set, nor the return value; and the temporary strings in use have become more by as many as
-- the context counts more.
pub set_hook_chain_arg-frame :
    (has_private : ℕ → Bool) (i t : ℤ) (src : Source) (n n' : ℕ) (ctx ctx' : HookCtx) (b : Bool)
    (j : ℕ)
    → set_hook_chain_arg has_private i t src n ctx ≡ ok (b, n', ctx')
    → eqb_ℤ i (pos (suc j)) ≡ false
    → (get_elem? ctx'.args j ≡ get_elem? ctx.args j)
      × (arg_types ctx'.args ≡ arg_types ctx.args)
      × (n' + ctx.tempstrings_used ≡ n + ctx'.tempstrings_used)
      × (ctx'.ret_val ≡ ctx.ret_val)
set_hook_chain_arg-frame has_private i t src n n' ctx ctx' b j e h =
    let (others, strings, value) =
      set_hook_chain_arg-Framed has_private i t src n n' ctx ctx' b j e h in
    (others, set_hook_chain_arg-types has_private i t src n ctx (b, n', ctx') e, strings, value)
