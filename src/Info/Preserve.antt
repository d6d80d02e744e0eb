-- ===== src/Info/Preserve.antt =====
-- `Info_SetValueForStarKey` writes past no array on a well-formed string, and keeps it well-formed.
use reapi.Info.Pairs.{IsPart}
use reapi.Info.Stored.{
  stored_pair, rejection-none, append_pair-print, new_pair-print, stored_pair-IsPart,
}
use reapi.Info.WellFormed.{IsInfo, remove_key-IsInfo, make_room-IsInfo}
use reapi.Info.Setter.{
  Outcome, stored, removed, exceeded, null_argument, make_room, new_pair, append_pair, rejection,
  replace_pair, set_value_for_star_key,
}
use reapi.Info.{remove_key, is_key_important}
use reapi.Prelude.{
  ℕ, suc, ◌+◌, ◌≡◌, refl, Bool, true, false, Option, none, some, List, [], ◌∷◌, ◌++◌, length,
  All-append, leb, if◌then◌else◌, arith, ok, Returns, Bool-cases, Option-cases, inl, inr,
}

append_pair-IsInfo :
    (s k v : List ℕ) → IsPart k → IsPart v → IsInfo s → IsInfo (append_pair s k (new_pair k v))
append_pair-IsInfo s k v hk hv (ps, e, h) = (
  ps ++ stored_pair k v ∷ [],
  rw (e, new_pair-print k v hk hv) (append_pair-print ps k v),
  All-append (λ p. IsPart p.0 × IsPart p.1) ps (stored_pair k v ∷ []) h
      (stored_pair-IsPart k v hk hv, tt),
)

-- How the call returns from the loop that makes room.
abbrev ending : List ℕ → List ℕ → Bool → List ℕ → Outcome × List ℕ
ending key pair room t = if room then (stored, append_pair t key pair) else (exceeded, t)

module _ (s key value s' : List ℕ) (c maxsize : ℕ) (q : remove_key s key ≡ ok s') where
  replace_pair-removed : replace_pair s key [] maxsize ≡ ok (removed, s')
  unfolding replace_pair
  replace_pair-removed = ground arith

  replace_pair_stored :
      leb maxsize (length s' + length (new_pair key (c ∷ value))) ≡ false
      → replace_pair s key (c ∷ value) maxsize
        ≡ ok (stored, append_pair s' key (new_pair key (c ∷ value)))
  unfolding replace_pair
  replace_pair_stored b = ground arith

  replace_pair_refused :
      leb maxsize (length s' + length (new_pair key (c ∷ value))) ≡ true
      → is_key_important key ≡ false
      → replace_pair s key (c ∷ value) maxsize ≡ ok (exceeded, s')
  unfolding replace_pair
  replace_pair_refused b i = ground arith

  replace_pair_made :
      (room : Bool) (t : List ℕ)
      → leb maxsize (length s' + length (new_pair key (c ∷ value))) ≡ true
      → is_key_important key ≡ true
      → make_room (suc (length s')) (length (new_pair key (c ∷ value))) maxsize s' ≡ ok (room, t)
      → replace_pair s key (c ∷ value) maxsize ≡ ok (ending key (new_pair key (c ∷ value)) room t)
  unfolding replace_pair
  replace_pair_made room t b i m = ground arith

replace_pair-IsInfo :
    (s key value : List ℕ) (maxsize : ℕ)
    → IsPart key
    → IsPart value
    → IsInfo s
    → Returns (replace_pair s key value maxsize) (λ r. IsInfo r.1)
replace_pair-IsInfo s key [] maxsize hk hv i =
    let (s', q, i') = remove_key-IsInfo s key i in
    ((removed, s'), replace_pair-removed s key [] s' 0 maxsize q, i')
replace_pair-IsInfo s key (c ∷ v) maxsize hk hv i =
    let (s', q, i') = remove_key-IsInfo s key i in fits s' q i'
  where
    finish :
        (room : Bool) (t : List ℕ) → IsInfo t → IsInfo (ending key (new_pair key (c ∷ v)) room t).1
    finish true t j = append_pair-IsInfo t key (c ∷ v) hk hv j
    finish false t j = j

    fits :
        (s' : List ℕ)
        → remove_key s key ≡ ok s'
        → IsInfo s'
        → Returns (replace_pair s key (c ∷ v) maxsize) (λ r. IsInfo r.1)
    fits s' q i' =
        let n = length (new_pair key (c ∷ v)) in
        elim (Bool-cases (leb maxsize (length s' + n))) [
          | inr b ↦ (
            _,
            replace_pair_stored s key v s' c maxsize q b,
            append_pair-IsInfo s' key (c ∷ v) hk hv i',
          )
          | inl b ↦ elim (Bool-cases (is_key_important key)) [
            | inr m ↦ (_, replace_pair_refused s key v s' c maxsize q b m, i')
            | inl m ↦
                let ((room, t), made, j) =
                  make_room-IsInfo (suc (length s')) n maxsize s' i' (omega arith) in
                (_, replace_pair_made s key v s' c maxsize q room t b m made, finish room t j)
          ]
        ]

-- Whatever the request, on a well-formed string the code writes past no array, and it leaves a
-- well-formed string.
pub set_value_for_star_key-IsInfo :
    (s : List ℕ) (key value : Option (List ℕ)) (maxsize : ℕ)
    → IsInfo s
    → Returns (set_value_for_star_key s key value maxsize) (λ r. IsInfo r.1)
unfolding set_value_for_star_key
set_value_for_star_key-IsInfo s none value maxsize i = ((null_argument, s), refl, i)
set_value_for_star_key-IsInfo s (some key) none maxsize i = ((null_argument, s), refl, i)
set_value_for_star_key-IsInfo s (some key) (some value) maxsize i =
    elim (Option-cases (rejection key value)) [
      | inr (why, e) ↦ ((why, s), rw (e, set_value_for_star_key), i)
      | inl e ↦
          let (hk, hv) = rejection-none key value e in
          rw (e, set_value_for_star_key) (replace_pair-IsInfo s key value maxsize hk hv i)
    ]
