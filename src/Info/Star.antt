-- ===== src/Info/Star.antt =====
-- `Info_SetValueForStarKey` on any string: it ends, and it never overruns the buffer of the string.
use reapi.Info.Room.{make_room-ne_fuel, make_room-room}
use reapi.Info.Shrink.{remove_key-ne_fuel, remove_key-le}
use reapi.Info.Text.{str_eq, codes, to_lower}
use reapi.Info.Setter.{
  Outcome, stored, exceeded, make_room, new_pair, append_pair, replace_pair, set_value_for_star_key,
}
use reapi.Info.{remove_key}
use reapi.Prelude.{
  ℕ, suc, ◌+◌, ◌≤◌, ◌<◌, ◌≡◌, ◌≢◌, refl, Bool, Option, none, some, List, [], ◌∷◌, map, length,
  if◌then◌else◌, arith, Run, ok, fault, overflow, null_pointer, fuel, ◌>>=◌, length-append,
  Bool-cases, inl, inr,
}

length-map : (f : ℕ → ℕ) (s : List ℕ) → length (map f s) ≡ length s
length-map f [] = refl
length-map f (c ∷ s) = omega (arith, length-map f s)

pub length-append_pair :
    (s key pair : List ℕ) → length (append_pair s key pair) ≡ length s + length pair
unfolding append_pair
length-append_pair s key pair = elim (Bool-cases (str_eq (map to_lower key) (codes "team"))) [
  | inl e ↦ rw e (omega (arith, length-append s (map to_lower pair), length-map to_lower pair))
  | inr e ↦ rw e (length-append s pair)
]

-- What follows the loop that makes room.
abbrev finish : List ℕ → List ℕ → Bool × List ℕ → Run (Outcome × List ℕ)
finish key pair (b, u) = ok (if b then (stored, append_pair u key pair) else (exceeded, u))

module _ (s key : List ℕ) (maxsize : ℕ) where
  replace_pair-ne_fuel : (v : List ℕ) → replace_pair s key v maxsize ≢ fault fuel
  unfolding replace_pair
  replace_pair-ne_fuel v = after v (remove_key s key) refl
    where
      after :
          (v : List ℕ) (r : Run (List ℕ))
          → remove_key s key ≡ r
          → replace_pair s key v maxsize ≢ fault fuel
      after v (fault overflow) q = rw q (λ e. cc)
      after v (fault null_pointer) q = rw q (λ e. cc)
      after v (fault fuel) q = absurd (remove_key-ne_fuel s key q)
      after [] (ok s') q = rw q (λ e. cc)
      after (c ∷ v) (ok s') q =
          let n = length (new_pair key (c ∷ v)) in
          ground (arith, make_room-ne_fuel (suc (length s')) n maxsize s')

  replace_pair-lt :
      (v : List ℕ) (o : Outcome) (t : List ℕ)
      → length s < maxsize
      → replace_pair s key v maxsize ≡ ok (o, t)
      → length t < maxsize
  unfolding replace_pair
  replace_pair-lt v o t h e = after v (remove_key s key) refl e
    where
      room :
          (c : ℕ) (v s' : List ℕ) (m : Run (Bool × List ℕ))
          → length s' ≤ length s
          → make_room (suc (length s')) (length (new_pair key (c ∷ v))) maxsize s' ≡ m
          → m >>= finish key (new_pair key (c ∷ v)) ≡ ok (o, t)
          → length t < maxsize
      room c v s' (fault e) l q f = cc
      room c v s' (ok (b, u)) l q f =
          let pair = new_pair key (c ∷ v) in
          ground (
            arith,
            make_room-room (suc (length s')) (length pair) maxsize s' b u q,
            length-append_pair u key pair,
          )

      after :
          (v : List ℕ) (r : Run (List ℕ))
          → remove_key s key ≡ r
          → replace_pair s key v maxsize ≡ ok (o, t)
          → length t < maxsize
      after v (fault e) q f = ground arith
      after [] (ok s') q f = ground (arith, remove_key-le s key s' q)
      after (c ∷ v) (ok s') q f =
          let pair = new_pair key (c ∷ v) in
          let shorter = remove_key-le s key s' q in
          ground (
            arith,
            length-append_pair s' key pair,
            room c v s' (make_room (suc (length s')) (length pair) maxsize s') shorter refl,
          )

-- Whatever the string and the request, the code comes to an end: the do loop that removes the
-- largest keys cannot go round for ever.
pub set_value_for_star_key-ne_fuel :
    (s : List ℕ) (key value : Option (List ℕ)) (maxsize : ℕ)
    → set_value_for_star_key s key value maxsize ≢ fault fuel
unfolding set_value_for_star_key
set_value_for_star_key-ne_fuel s none value maxsize = λ e. cc
set_value_for_star_key-ne_fuel s (some key) none maxsize = λ e. cc
set_value_for_star_key-ne_fuel s (some key) (some value) maxsize =
    ground (arith, replace_pair-ne_fuel s key maxsize value)

-- Whatever the request, a string that fits its buffer of `maxsize` characters with the NUL still
-- fits it when the call has returned.
pub set_value_for_star_key-lt :
    (s : List ℕ) (key value : Option (List ℕ)) (maxsize : ℕ) (o : Outcome) (t : List ℕ)
    → length s < maxsize
    → set_value_for_star_key s key value maxsize ≡ ok (o, t)
    → length t < maxsize
unfolding set_value_for_star_key
set_value_for_star_key-lt s none value maxsize o t h e = ground arith
set_value_for_star_key-lt s (some key) none maxsize o t h e = ground arith
set_value_for_star_key-lt s (some key) (some value) maxsize o t h e =
    ground (arith, replace_pair-lt s key maxsize value o t h)
