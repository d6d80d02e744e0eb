-- ===== src/Entity/Counts.antt =====
-- The callbacks counted by address, and by what they are for: how deletions, marks and the pruning
-- change the counts.
use reapi.Entity.Dispatch.{erase_address, prune}
use reapi.Entity.{
  CallbackType, EntityCallback, is_for, selects, is_marked, mark, mark_selected, keep_others,
}
use reapi.Prelude.{
  ℕ, ◌+◌, ◌≤◌, ◌<◌, ◌≡◌, refl, ◌∙◌, Bool, true, false, not, ◌&&◌, ◌||◌, Option, some, List, [], ◌∷◌,
  ◌++◌, ◌==◌, arith,
}

abbrev pub to_nat : Bool → ℕ
to_nat true = 1
to_nat false = 0

unfoldable pub count_address : ℕ → List EntityCallback → ℕ
count_address a [] = 0
count_address a (c ∷ cs) = to_nat (c.address == a) + count_address a cs

-- The callbacks for an entity and a type that are not marked.
unfoldable pub count_live : ℕ → CallbackType → List ℕ → List EntityCallback → ℕ
count_live e t ms [] = 0
count_live e t ms (c ∷ cs) =
    to_nat (is_for e t c && not (is_marked c.address ms)) + count_live e t ms cs

pub is_marked-append :
    (a : ℕ) (ms ns : List ℕ) → is_marked a (ms ++ ns) ≡ (is_marked a ms || is_marked a ns)
unfolding is_marked
is_marked-append a [] ns = refl
is_marked-append a (m ∷ ms) ns = ground (arith, is_marked-append a ms ns)

is_marked-mark : (a b : ℕ) (ms : List ℕ) → is_marked a (mark b ms) ≡ (is_marked a ms || (a == b))
unfolding mark is_marked
is_marked-mark a b ms = ground (arith, is_marked-append a ms (b ∷ []))

-- A selected callback has the address.
unfoldable pub has_selected : ℕ → Option ℕ → CallbackType → List EntityCallback → Bool
has_selected a e t [] = false
has_selected a e t (c ∷ cs) = (selects e t c && (a == c.address)) || has_selected a e t cs

pub is_marked-mark_selected :
    (a : ℕ) (e : Option ℕ) (t : CallbackType) (cs : List EntityCallback) (ms : List ℕ)
    → is_marked a (mark_selected e t cs ms) ≡ (is_marked a ms || has_selected a e t cs)
unfolding mark_selected has_selected
is_marked-mark_selected a e t [] ms = ground arith
is_marked-mark_selected a e t (c ∷ cs) ms = ground (
  arith,
  is_marked-mark a c.address ms,
  is_marked-mark_selected a e t cs ms,
  is_marked-mark_selected a e t cs (mark c.address ms),
)

pub has_selected-count :
    (a : ℕ) (e : Option ℕ) (t : CallbackType) (cs : List EntityCallback)
    → has_selected a e t cs ≡ true
    → 0 < count_address a cs
unfolding has_selected count_address
has_selected-count a e t [] h = cc
has_selected-count a e t (c ∷ cs) h = ground (arith, has_selected-count a e t cs)

pub count_address-keep_others :
    (a : ℕ) (e : Option ℕ) (t : CallbackType) (cs : List EntityCallback)
    → count_address a (keep_others e t cs) ≤ count_address a cs
unfolding count_address keep_others
count_address-keep_others a e t [] = omega arith
count_address-keep_others a e t (c ∷ cs) = ground (arith, count_address-keep_others a e t cs)

-- More marks leave fewer callbacks live, and so do fewer callbacks.
pub count_live_mono :
    (e : ℕ) (t : CallbackType) (ms ns : List ℕ) (cs : List EntityCallback)
    → ((a : ℕ) → is_marked a ms ≡ true → is_marked a ns ≡ true)
    → count_live e t ns cs ≤ count_live e t ms cs
unfolding count_live
count_live_mono e t ms ns [] h = omega arith
count_live_mono e t ms ns (c ∷ cs) h = ground (arith, h c.address, count_live_mono e t ms ns cs h)

pub count_live-keep_others :
    (e : ℕ) (t : CallbackType) (ms : List ℕ) (e' : Option ℕ) (t' : CallbackType)
    (cs : List EntityCallback)
    → count_live e t ms (keep_others e' t' cs) ≤ count_live e t ms cs
unfolding count_live keep_others
count_live-keep_others e t ms e' t' [] = omega arith
count_live-keep_others e t ms e' t' (c ∷ cs) =
    ground (arith, count_live-keep_others e t ms e' t' cs)

pub count_live-append :
    (e : ℕ) (t : CallbackType) (ms : List ℕ) (cs ds : List EntityCallback)
    → count_live e t ms (cs ++ ds) ≡ count_live e t ms cs + count_live e t ms ds
unfolding count_live
count_live-append e t ms [] ds = omega arith
count_live-append e t ms (c ∷ cs) ds = ground (arith, count_live-append e t ms cs ds)

pub count_address-append :
    (a : ℕ) (cs ds : List EntityCallback)
    → count_address a (cs ++ ds) ≡ count_address a cs + count_address a ds
unfolding count_address
count_address-append a [] ds = omega arith
count_address-append a (c ∷ cs) ds = ground (arith, count_address-append a cs ds)

-- What a removal for an entity and a type leaves of them: nothing.
pub count_live-kept :
    (e : ℕ) (t : CallbackType) (ms : List ℕ) (cs : List EntityCallback)
    → count_live e t ms (keep_others (some e) t cs) ≡ 0
unfolding count_live keep_others selects is_for
count_live-kept e t ms [] = refl
count_live-kept e t ms (c ∷ cs) = ground (arith, count_live-kept e t ms cs)

pub count_live-selected :
    (e : ℕ) (t : CallbackType) (ms : List ℕ) (cs : List EntityCallback)
    → ((a : ℕ) → has_selected a (some e) t cs ≡ true → is_marked a ms ≡ true)
    → count_live e t ms cs ≡ 0
unfolding count_live has_selected selects is_for
count_live-selected e t ms [] h = refl
count_live-selected e t ms (c ∷ cs) h =
    ground (arith, h c.address, count_live-selected e t ms cs (λ a q. h a (ground arith)))

unmarked-address :
    (e : ℕ) (t : CallbackType) (m : ℕ) (ms : List ℕ) (cs : List EntityCallback)
    → count_address m cs ≡ 0
    → count_live e t (m ∷ ms) cs ≡ count_live e t ms cs
unfolding count_live count_address is_marked
unmarked-address e t m ms [] h = refl
unmarked-address e t m ms (c ∷ cs) h = ground (arith, unmarked-address e t m ms cs)

count_live-erase_address :
    (e : ℕ) (t : CallbackType) (m : ℕ) (ms : List ℕ) (cs : List EntityCallback)
    → count_address m cs ≤ 1
    → count_live e t ms (erase_address m cs) ≡ count_live e t (m ∷ ms) cs
unfolding count_live count_address erase_address is_marked
count_live-erase_address e t m ms [] h = refl
count_live-erase_address e t m ms (c ∷ cs) h =
    ground (arith, count_live-erase_address e t m ms cs, unmarked-address e t m ms cs)

count_address-erase_address :
    (a m : ℕ) (cs : List EntityCallback) → count_address a (erase_address m cs) ≤ count_address a cs
unfolding count_address erase_address
count_address-erase_address a m [] = omega arith
count_address-erase_address a m (c ∷ cs) = ground (arith, count_address-erase_address a m cs)

pub count_address-prune :
    (a : ℕ) (ms : List ℕ) (cs : List EntityCallback)
    → count_address a (prune ms cs) ≤ count_address a cs
unfolding prune
count_address-prune a [] cs = omega arith
count_address-prune a (m ∷ ms) cs =
    omega (arith, count_address-prune a ms (erase_address m cs), count_address-erase_address a m cs)

-- Where no two callbacks share an address, the pruning removes exactly the marked ones.
pub count_live-prune :
    (e : ℕ) (t : CallbackType) (ms : List ℕ) (cs : List EntityCallback)
    → ((a : ℕ) → count_address a cs ≤ 1)
    → count_live e t [] (prune ms cs) ≡ count_live e t ms cs
unfolding prune
count_live-prune e t [] cs h = refl
count_live-prune e t (m ∷ ms) cs h =
    count_live-prune e t ms (erase_address m cs)
      (λ a. omega (arith, h a, count_address-erase_address a m cs))
    ∙ count_live-erase_address e t m ms cs (h m)

erase_address-gone :
    (m : ℕ) (cs : List EntityCallback)
    → count_address m cs ≤ 1
    → count_address m (erase_address m cs) ≡ 0
unfolding count_address erase_address
erase_address-gone m [] h = refl
erase_address-gone m (c ∷ cs) h = ground (arith, erase_address-gone m cs)

pub prune-gone :
    (a : ℕ) (ms : List ℕ) (cs : List EntityCallback)
    → count_address a cs ≤ 1
    → is_marked a ms ≡ true
    → count_address a (prune ms cs) ≡ 0
unfolding prune is_marked
prune-gone a [] cs h m = cc
prune-gone a (b ∷ ms) cs h m = ground (
  arith,
  prune-gone a ms (erase_address b cs),
  count_address-erase_address a b cs,
  erase_address-gone b cs,
  count_address-prune a ms (erase_address b cs),
)
