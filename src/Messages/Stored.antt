-- ===== src/Messages/Stored.antt =====
-- reapi/src/natives/natives_hookmessage.cpp: what a plugin reads back from a message that it changed.
use reapi.Members.Natives.{Call, arg_cell}
use reapi.Messages.Api.{
  Version, current, original, ParamType, angle, coord, text, other, param, MessageApi, data_type,
}
use reapi.Messages.Data.{
  minus_one, check_bounds, param_number, set_param, set_data, get_param, get_data, set_message_data,
  get_message_data, get_message_orig_data,
}
use reapi.Prelude.{
  ◌≤◌, ℕ, suc, ◌<◌, ◌^◌, ◌≡◌, ◌≢◌, refl, sym, ◌∙◌, ap, subst, Bool, true, false, ◌==◌, arith,
  if◌then◌else◌, ==→eq, ==→ne, Bool-cases, inl, inr,
}

-- The types of parameters that are numbers, and those of them that are floats.
abbrev pub is_number : ParamType → Bool
is_number text = false
is_number (other t) = false
is_number t = true

abbrev pub is_float : ParamType → Bool
is_float angle = true
is_float coord = true
is_float t = false

module _ {W : Type 0} (api : MessageApi W) where
  -- The value of a parameter that is a number.
  abbrev pub value_of : Version → W → ℕ → ℕ
  value_of v w n = if is_float (api.param_type w n) then api.get_float v w n else api.get_int v w n

  abbrev pub set_value : ℕ → ℕ → W → W
  set_value n x w = if is_float (api.param_type w n) then api.set_float n x w else api.set_int n x w

  -- What a message promises: a parameter that is set has the value, the others and the original keep
  -- theirs, and the types and the number of the parameters stay.
  pub record IsMessage : Type 0 where
    pub count-set_value : (w : W) (n x : ℕ) → api.param_count (set_value n x w) ≡ api.param_count w
    pub type-set_value :
        (w : W) (n x m : ℕ) → api.param_type (set_value n x w) m ≡ api.param_type w m
    pub set_value-same :
        (w : W) (n x : ℕ) → n < api.param_count w → value_of current (set_value n x w) n ≡ x
    pub set_value-apart :
        (w : W) (n m x : ℕ) → n ≢ m → value_of current (set_value n x w) m ≡ value_of current w m
    pub set_value-original :
        (w : W) (n m x : ℕ) → value_of original (set_value n x w) m ≡ value_of original w m

  param_number-suc : (n : ℕ) → n < 2 ^ 31 → param_number (suc n) ≡ n
  unfolding param_number
  param_number-suc n h = omega arith

  check_bounds-in : (n : ℕ) (w : W) → n < api.param_count w → check_bounds api n w ≡ w
  unfolding check_bounds
  check_bounds-in n w h = ground arith

  check_bounds-out :
      (n : ℕ) (w : W)
      → api.param_count w ≤ n
      → check_bounds api n w ≡ (if n == api.param_count w then w else api.log_error w)
  unfolding check_bounds
  check_bounds-out n w h = ground arith

  set_param-number :
      (t : ParamType) (n a : ℕ) (call : Call) (w : W)
      → is_number t ≡ true
      → set_param api t n a call w ≡ (
        1,
        if is_float t
            then api.set_float n ((call.input a).words 0) w
            else api.set_int n ((call.input a).words 0) w,
      )
  unfolding set_param
  set_param-number t n a call w h = ground arith

  get_param-number :
      (v : Version) (t : ParamType) (n : ℕ) (call : Call) (w : W)
      → is_number t ≡ true
      → (get_param api v t n call w).0
        ≡ (if is_float t then api.get_float v w n else api.get_int v w n)
  unfolding get_param
  get_param-number v t n call w h = ground arith

  -- A call of a native for the parameter `n` of the message `w`, as plugins count from `n + 1`.
  pub record Names (call : Call) (n : ℕ) (w : W) : Type 0 where
    pub means_param : data_type (call.params 1) ≡ param
    pub means_number : arg_cell call 2 ≡ suc n
    pub in_range : n < api.param_count w
    pub small : n < 2 ^ 31
    pub has_number : is_number (api.param_type w n) ≡ true

  set_data-Names :
      (call : Call) (n : ℕ) (w : W)
      → Names call n w
      → set_message_data api true true call w
        ≡ (1, set_value n ((call.input (call.params 3)).words 0) w)
  unfolding set_message_data set_data
  set_data-Names call n w h = rw (
    h.means_param,
    h.means_number,
    param_number-suc n h.small,
    check_bounds-in n w h.in_range,
    set_param-number (api.param_type w n) n (call.params 3) call w h.has_number,
  )

  get_data-Names :
      (v : Version) (invalid : ℕ) (call : Call) (n : ℕ) (w : W)
      → Names call n w
      → (get_data api v invalid (data_type (call.params 1)) call w).0 ≡ value_of v w n
  unfolding get_data
  get_data-Names v invalid call n w h = rw (
    h.means_param,
    h.means_number,
    param_number-suc n h.small,
    check_bounds-in n w h.in_range,
    get_param-number v (api.param_type w n) n call w h.has_number,
  )

  -- The natives stay callable on a message in which a value was set.
  Names-set_value :
      (call : Call) (m n x : ℕ) (w : W)
      → IsMessage
      → Names call m w
      → Names call m (set_value n x w)
  Names-set_value call m n x w laws h = record {
    means_param = h.means_param;
    means_number = h.means_number;
    in_range = subst (λ c. m < c) (sym (laws.count-set_value w n x)) h.in_range;
    small = h.small;
    has_number = ap is_number (laws.type-set_value w n x m) ∙ h.has_number;
  }

  value_of-set_value :
      (m n x : ℕ) (w : W)
      → IsMessage
      → n < api.param_count w
      → value_of current (set_value n x w) m ≡ (if m == n then x else value_of current w m)
  value_of-set_value m n x w laws h = elim (Bool-cases (m == n)) [
    | inl same ↦
        (subst (λ k. value_of current (set_value n x w) k ≡ x) (sym (==→eq m n same))
          (laws.set_value-same w n x h))
        ∙ sym (ap (λ b. if b then x else value_of current w m) same)
    | inr apart ↦
        laws.set_value-apart w n m x (λ e. ==→ne m n apart (sym e))
        ∙ sym (ap (λ b. if b then x else value_of current w m) apart)
  ]

  -- On a message that keeps what IsMessage says, SetMessageData for a parameter of the message that is
  -- a number, or a float, returns TRUE; then GetMessageData gives the new value for this parameter and
  -- the same as before for every other one that is a number, and GetMessageOrigData gives the same as
  -- before for all of them.
  pub get_message_data-set_message_data :
      (write read : Call) (n m : ℕ) (w : W)
      → IsMessage
      → Names write n w
      → Names read m w
      → let x = (write.input (write.params 3)).words 0 in
        let (r, w') = set_message_data api true true write w in
        (r ≡ 1)
        × ((get_message_data api true true read w').0
            ≡ (if m == n then x else (get_message_data api true true read w).0))
        × ((get_message_orig_data api true true read w').0
            ≡ (get_message_orig_data api true true read w).0)
  unfolding get_message_data get_message_orig_data
  get_message_data-set_message_data write read n m w laws hw hr =
      let x = (write.input (write.params 3)).words 0 in
      let hr' = Names-set_value read m n x w laws hr in
      rw
        (
          set_data-Names write n w hw,
          get_data-Names current 0 read m (set_value n x w) hr',
          get_data-Names original minus_one read m (set_value n x w) hr',
          get_data-Names current 0 read m w hr,
          get_data-Names original minus_one read m w hr,
        )
        (refl, value_of-set_value m n x w laws hw.in_range, laws.set_value-original w n m x)

  -- A parameter past the end of the message is not refused: SetMessageData with a number greater than
  -- the number of the parameters asks for the type of the parameter, and if the answer is a number or
  -- a float it has the message set it and returns TRUE. For the first number past the end the error is
  -- not even logged.
  pub set_message_data-past_end :
      (call : Call) (n : ℕ) (w : W)
      → data_type (call.params 1) ≡ param
      → arg_cell call 2 ≡ suc n
      → api.param_count w ≤ n
      → n < 2 ^ 31
      → let w' = if n == api.param_count w then w else api.log_error w in
        is_number (api.param_type w' n) ≡ true
        → set_message_data api true true call w
          ≡ (1, set_value n ((call.input (call.params 3)).words 0) w')
  unfolding set_message_data set_data
  set_message_data-past_end call n w is_param is_n past small number =
      rw (is_param, is_n, param_number-suc n small, check_bounds-out n w past)
        (set_param-number _ n (call.params 3) call _ number)
