-- ===== src/Info/Room.antt =====
-- The do loop of `Info_SetValueForStarKey` that removes the largest keys: it ends, and what it
-- leaves has the room that was asked for.
use reapi.Info.Largest.{find_largest_key-ne_fuel, remove_key-largest-lt}
use reapi.Info.Shrink.{remove_key-ne_fuel, remove_key-le}
use reapi.Info.Setter.{make_room}
use reapi.Info.{find_largest_key, remove_key}
use reapi.Prelude.{
  ℕ, zero, suc, ◌+◌, ◌≤◌, ◌<◌, ◌≡◌, ◌≢◌, refl, Bool, true, false, List, [], ◌∷◌, length, leb, arith,
  Run, ok, fault, overflow, null_pointer, fuel, ◌>>=◌,
}

-- One round, by what the search and the removal return.
abbrev Round : ℕ → ℕ → ℕ → List ℕ → Run (List ℕ) → Run (Bool × List ℕ)
Round n needed maxsize s (fault e) = fault e
Round n needed maxsize s (ok []) = ok (false, s)
Round n needed maxsize s (ok (c ∷ k)) = remove_key s (c ∷ k) >>= λ s'.
    elim (leb maxsize (length s' + needed)) [
      | true ↦ make_room n needed maxsize s'
      | false ↦ ok (true, s')
    ]

module _ (n needed maxsize : ℕ) (s : List ℕ) where
  make_room-round :
      (r : Run (List ℕ))
      → find_largest_key s ≡ r
      → make_room (suc n) needed maxsize s ≡ Round n needed maxsize s r
  unfolding make_room
  make_room-round (fault e) q = rw q
  make_room-round (ok []) q = rw q
  make_room-round (ok (c ∷ k)) q = rw q

  Round-ne_fuel :
      (r : Run (List ℕ))
      → find_largest_key s ≡ r
      → ((s' : List ℕ) → length s' < length s → make_room n needed maxsize s' ≢ fault fuel)
      → Round n needed maxsize s r ≢ fault fuel
  Round-ne_fuel (fault overflow) q ih = λ e. cc
  Round-ne_fuel (fault null_pointer) q ih = λ e. cc
  Round-ne_fuel (fault fuel) q ih = λ e. find_largest_key-ne_fuel s q
  Round-ne_fuel (ok []) q ih = λ e. cc
  Round-ne_fuel (ok (c ∷ k)) q ih = removal (remove_key s (c ∷ k)) refl
    where
      removal :
          (t : Run (List ℕ))
          → remove_key s (c ∷ k) ≡ t
          → Round n needed maxsize s (ok (c ∷ k)) ≢ fault fuel
      removal (fault overflow) u = rw u (λ e. cc)
      removal (fault null_pointer) u = rw u (λ e. cc)
      removal (fault fuel) u = absurd (remove_key-ne_fuel s (c ∷ k) u)
      removal (ok s') u =
          let shorter = remove_key-largest-lt s (c ∷ k) s' q (λ e. cc) u in
          rw u (ground (arith, ih s' shorter))

  Round-room :
      (r : Run (List ℕ)) (b : Bool) (t : List ℕ)
      → ((s' : List ℕ)
          → make_room n needed maxsize s' ≡ ok (b, t)
          → (length t ≤ length s') × (b ≡ true → length t + needed < maxsize))
      → Round n needed maxsize s r ≡ ok (b, t)
      → (length t ≤ length s) × (b ≡ true → length t + needed < maxsize)
  Round-room (fault e) b t ih h = cc
  Round-room (ok []) b t ih h = ground arith
  Round-room (ok (c ∷ k)) b t ih h = removal (remove_key s (c ∷ k)) refl h
    where
      removal :
          (u : Run (List ℕ))
          → remove_key s (c ∷ k) ≡ u
          → Round n needed maxsize s (ok (c ∷ k)) ≡ ok (b, t)
          → (length t ≤ length s) × (b ≡ true → length t + needed < maxsize)
      removal (fault e) v h = ground arith
      removal (ok s') v h = ground (arith, ih s', remove_key-le s (c ∷ k) s' v)

-- One round for each character is enough.
pub make_room-ne_fuel :
    (n needed maxsize : ℕ) (s : List ℕ) → length s < n → make_room n needed maxsize s ≢ fault fuel
make_room-ne_fuel zero needed maxsize s h = elim h [ ]
make_room-ne_fuel (suc n) needed maxsize s h =
    rw (make_room-round n needed maxsize s (find_largest_key s) refl) (
      Round-ne_fuel n needed maxsize s (find_largest_key s) refl
        (λ s' shorter. make_room-ne_fuel n needed maxsize s' (omega arith)))

-- The string never grows, and `true` means that it now has the room.
pub make_room-room :
    (n needed maxsize : ℕ) (s : List ℕ) (b : Bool) (t : List ℕ)
    → make_room n needed maxsize s ≡ ok (b, t)
    → (length t ≤ length s) × (b ≡ true → length t + needed < maxsize)
make_room-room zero needed maxsize s b t e = unfold make_room in (cc)
make_room-room (suc n) needed maxsize s b t e =
    Round-room n needed maxsize s (find_largest_key s) b t
      (λ s'. make_room-room n needed maxsize s' b t)
      (rw (make_room-round n needed maxsize s (find_largest_key s) refl) at e)
