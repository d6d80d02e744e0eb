-- ===== src/Natives/Examples.antt =====
-- The theorems on the context natives at concrete contexts.
use reapi.Chain.{AType, integer, number, HookCtx}
use reapi.Natives.Frame.{arg_types, set_hook_chain_arg-frame}
use reapi.Natives.{Source, set_hook_chain_arg, store_arg}
use reapi.Prelude.Int.{pos}
use reapi.Prelude.{ℕ, zero, suc, ◌+◌, ◌≡◌, refl, true, false, List, [], ◌∷◌, get_elem?, ok}

abbrev context_of : AType → HookCtx
context_of t = record {
  index = pos 1;
  ret_val = record { is_set = false; type = t; value = number (pos 0) };
  tempstrings_used = 0;
  args =
      record { type = integer; value = number (pos 2) }
      ∷ record { type = integer; value = number (pos 3) }
      ∷ [];
}

abbrev letters : ℕ → List ℕ
letters zero = []
letters (suc n) = 97 ∷ letters n

abbrev source : ℕ → Source
source n = record { cell = pos 7; chars = letters n; vec = (pos 0, pos 0, pos 0); trace_result = 0 }

first_set :
    set_hook_chain_arg (λ _. true) (pos 1) (pos 0) (source 0) 4 (context_of integer)
    ≡ ok (true, 4, store_arg 0 integer (number (pos 7)) (context_of integer))
unfolding set_hook_chain_arg
first_set = refl

set_hook_chain_arg-frame_example :
    let ctx = context_of integer in
    let ctx' = store_arg 0 integer (number (pos 7)) ctx in
    (get_elem? ctx'.args 1 ≡ get_elem? ctx.args 1)
    × (arg_types ctx'.args ≡ arg_types ctx.args)
    × (4 + ctx.tempstrings_used ≡ 4 + ctx'.tempstrings_used)
    × (ctx'.ret_val ≡ ctx.ret_val)
set_hook_chain_arg-frame_example =
    set_hook_chain_arg-frame (λ _. true) (pos 1) (pos 0) (source 0) 4 4 (context_of integer)
      (store_arg 0 integer (number (pos 7)) (context_of integer)) true 1 first_set refl
