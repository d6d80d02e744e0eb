-- ===== src/Messages/Examples.antt =====
-- The theorems on message hooks at concrete hooks.
use reapi.Chain.Void.{has_code, max_code}
use reapi.Chain.{hc_break, hc_continue, hc_supercede}
use reapi.Hooks.{AmxxHook, new_hook, enabled}
use reapi.Messages.Dispatch.{
  SeesMessage, message_codes, count_next, pre_loop, dispatch_message-count, dispatch_message-sees,
}
use reapi.Members.Natives.{Call, arg_cell}
use reapi.Messages.Api.{MessageApi, Version, current, original, long, param, data_type}
use reapi.Messages.Data.{set_message_data, get_message_data, get_message_orig_data}
use reapi.Messages.Stored.{
  IsMessage, Names, set_value, get_message_data-set_message_data, set_message_data-past_end,
}
use reapi.Messages.Removal.{remove_hook-shift, get_message_hook-add_hook}
use reapi.Messages.Context.{Message, MessageWorld, dispatch_message}
use reapi.Messages.{
  MessageHookManager, get_hook, message_handle, message_forwards, add_hook, remove_hook,
  get_message_hook, max_usermessages,
}
use reapi.Prelude.Int.{pos, negsuc, eqb_ℤ}
use reapi.Prelude.{
  ◌==◌, ◌≢◌, ℕ, ◌<◌, ◌≤◌, ◌⊎◌, ◌≡◌, refl, true, false, ◌||◌, none, some, [], ◌∷◌, All, length,
  get_elem?, arith, if◌then◌else◌, suc,
}

abbrev forward : ℕ → AmxxHook
forward code = record {
  fwdindex = code;
  index = negsuc 0;
  callback_name = [];
  state = enabled;
  amx = 0;
}

-- Two forwards before each message.
abbrev two_forwards : MessageHookManager
two_forwards = record {
  hooks = λ id. record { id = id; pre = forward 0 ∷ forward 1 ∷ []; post = [] };
  calls = [];
  released = [];
}

two_long : 0 < length (message_forwards false (two_forwards.hooks 66))
unfolding message_forwards
two_long = omega arith

two_fit : length (message_forwards false (two_forwards.hooks 66)) < max_usermessages
unfolding message_forwards
two_fit = omega arith

remove_hook-shift_example :
    ((remove_hook (message_handle 66 0 false) two_forwards).0 ≡ true)
    × (get_message_hook
          (message_handle 66 0 false)
          (remove_hook (message_handle 66 0 false) two_forwards).1
        ≡ get_elem? (message_forwards false (two_forwards.hooks 66)) 1)
remove_hook-shift_example =
    remove_hook-shift 66 0 0 false two_forwards (omega arith) (omega arith) (omega arith)
      (omega arith) two_long

get_message_hook-add_hook_example :
    let (handle, m') = add_hook 5 66 (97 ∷ []) (some 9) false two_forwards in
    (get_message_hook handle m' ≡ some (new_hook 5 (97 ∷ []) 9 (negsuc 0)))
    × ((length (message_forwards false (two_forwards.hooks 66)) ≤ 0)
        ⊎ (get_message_hook (message_handle 66 0 false) m'
            ≡ get_message_hook (message_handle 66 0 false) two_forwards))
get_message_hook-add_hook_example =
    get_message_hook-add_hook 5 66 0 (97 ∷ []) 9 false two_forwards (omega arith) (omega arith)
      two_fit

-- A callback returns the number of its forward and leaves the context alone.
abbrev message_world : MessageWorld ℕ
message_world = record {
  state_of = λ w fwd. fwd.state;
  execute = λ fwd msg active w. (pos fwd.fwdindex, active, suc w);
  call_next = λ msg active w. (active, w);
}

abbrev hud_message : Message
hud_message = record { msg_id = 66; dest = 1; edict = none }

known_message : get_hook 66 ≡ some 66
unfolding get_hook
known_message = refl

dispatch_message-count_example :
    let cs = message_codes (pre_loop message_world (two_forwards.hooks 66) hud_message 0).trace in
    count_next (dispatch_message message_world two_forwards hud_message none 0).2
    ≡ (if has_code hc_break cs || eqb_ℤ (max_code hc_continue cs) hc_supercede then 0 else 1)
dispatch_message-count_example =
    dispatch_message-count message_world two_forwards hud_message none 0 66 known_message

dispatch_message-sees_example :
    let r = dispatch_message message_world two_forwards hud_message none 0 in
    (r.0 ≡ none) × All (SeesMessage hud_message) r.2
dispatch_message-sees_example =
    dispatch_message-sees message_world (λ fwd msg active w. refl) two_forwards hud_message none 0
      66 known_message

-- A message of three numbers: what they are now, and what they were.
abbrev values : Version → (ℕ → ℕ) × (ℕ → ℕ) → ℕ → ℕ
values current w = w.0
values original w = w.1

abbrev change : ℕ → ℕ → (ℕ → ℕ) × (ℕ → ℕ) → (ℕ → ℕ) × (ℕ → ℕ)
change n x w = ((λ m. if n == m then x else w.0 m), w.1)

abbrev three_params : MessageApi ((ℕ → ℕ) × (ℕ → ℕ))
three_params = record {
  param_count = λ w. 3;
  param_type = λ w n. long;
  get_int = values;
  get_float = values;
  get_text = λ v w n. none;
  get_dest = λ v w. 0;
  get_id = λ w. 66;
  get_origin = λ v w. (0, 0, 0);
  get_edict = λ v w. 0;
  set_int = change;
  set_float = change;
  set_text = λ n t w. w;
  set_dest = λ d w. w;
  set_id = λ id w. w;
  set_origin = λ o w. w;
  set_edict = λ e w. w;
  is_modified = λ w t n. false;
  reset_modified = λ t n w. (false, w);
  get_block = λ w id. 0;
  set_block = λ id b w. w;
  edict_at = λ i. i;
  index_of_edict = λ e. e;
  log_error = λ w. w;
  write_vector = λ a v w. w;
  write_cell = λ a v w. w;
  write_text = λ a t w. w;
}

change-same : (n x : ℕ) (w : (ℕ → ℕ) × (ℕ → ℕ)) → (change n x w).0 n ≡ x
change-same n x w = ground arith

change-apart : (n m x : ℕ) (w : (ℕ → ℕ) × (ℕ → ℕ)) → n ≢ m → (change n x w).0 m ≡ w.0 m
change-apart n m x w h = ground arith

three_params-IsMessage : IsMessage three_params
three_params-IsMessage = record {
  count-set_value = λ w n x. refl;
  type-set_value = λ w n x m. refl;
  set_value-same = λ w n x h. change-same n x w;
  set_value-apart = λ w n m x h. change-apart n m x w h;
  set_value-original = λ w n m x. refl;
}

-- Argument `c` of the native, with the new value 7 at the address 3.
abbrev param_call : ℕ → Call
param_call c = record {
  count = 3;
  params = λ i. if i == 1 then 5 else i;
  input = λ a. record { words = λ i. if a == 2 then c else 7 };
}

means_param : (c : ℕ) → data_type ((param_call c).params 1) ≡ param
unfolding data_type
means_param c = refl

second_param : arg_cell (param_call 2) 2 ≡ 2
unfolding arg_cell
second_param = refl

abbrev second : Names three_params (param_call 2) 1 ((λ n. 5), (λ n. 5))
second = record {
  means_param = means_param 2;
  means_number = second_param;
  in_range = omega arith;
  small = omega arith;
  has_number = refl;
}

abbrev fives : (ℕ → ℕ) × (ℕ → ℕ)
fives = (λ n. 5, λ n. 5)

get_message_data-set_message_data_example :
    let (r, w') = set_message_data three_params true true (param_call 2) fives in
    (r ≡ 1)
    × ((get_message_data three_params true true (param_call 2) w').0
        ≡ (if 1 == 1 then 7 else (get_message_data three_params true true (param_call 2) fives).0))
    × ((get_message_orig_data three_params true true (param_call 2) w').0
        ≡ (get_message_orig_data three_params true true (param_call 2) fives).0)
get_message_data-set_message_data_example =
    get_message_data-set_message_data three_params (param_call 2) (param_call 2) 1 1 fives
      three_params-IsMessage second second

fourth_param : arg_cell (param_call 4) 2 ≡ 4
unfolding arg_cell
fourth_param = refl

set_message_data-past_end_example :
    set_message_data three_params true true (param_call 4) fives
    ≡ (1, set_value three_params 3 7 fives)
set_message_data-past_end_example =
    set_message_data-past_end three_params (param_call 4) 3 fives (means_param 4) fourth_param
      (omega arith) (omega arith) refl
