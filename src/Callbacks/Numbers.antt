-- ===== src/Callbacks/Numbers.antt =====
-- reapi/src/hook_list.cpp and hook_callback.cpp: that each number of a function leads to one function.
use reapi.Callbacks.Table.{all_callbacks}
use reapi.Callbacks.{Callback}
use reapi.Hooks.{get_hook_safe, max_region_range, table_sizes}
use reapi.Prelude.{
  ℕ, zero, suc, ◌+◌, ◌*◌, ◌/◌, ◌%◌, ◌≤◌, ◌<◌, ◌≡◌, refl, ap, subst, ◌∙◌, some_inj, Bool, true, ◌&&◌,
  some, List, [], ◌∷◌, ◌++◌, length, get_elem?, get_elem?-append_left, leb, inl, inr, Option-cases,
  arith,
}

-- The numbers of the functions of the tables from one on, by the lengths of the tables.
abbrev numbers : ℕ → ℕ → List ℕ
numbers first zero = []
numbers first (suc n) = first ∷ numbers (suc first) n

abbrev functions_from : ℕ → List ℕ → List ℕ
functions_from table [] = []
functions_from table (size ∷ sizes) =
    numbers (table * max_region_range) size ++ functions_from (suc table) sizes

abbrev funcs : List Callback → List ℕ
funcs [] = []
funcs (cb ∷ cbs) = cb.func ∷ funcs cbs

all_callbacks-funcs : funcs all_callbacks ≡ functions_from 0 table_sizes
all_callbacks-funcs = refl

abbrev increasing : ℕ → List ℕ → Bool
increasing least [] = true
increasing least (n ∷ ns) = leb least n && increasing (suc n) ns

all_callbacks-increasing : increasing 0 (funcs all_callbacks) ≡ true
all_callbacks-increasing = refl

increasing-get_elem? :
    (ns : List ℕ) (least k n : ℕ)
    → increasing least ns ≡ true
    → get_elem? ns k ≡ some n
    → least + k ≤ n
increasing-get_elem? [] least k n h e = absurd (ground arith)
increasing-get_elem? (m ∷ ns) least zero n h e = ground (arith, some_inj m n e)
increasing-get_elem? (m ∷ ns) least (suc k) n h e =
    ground (arith, increasing-get_elem? ns (suc m) k n)

numbers-get_elem? : (first n i : ℕ) → i < n → get_elem? (numbers first n) i ≡ some (first + i)
numbers-get_elem? first zero i h = elim h [ ]
numbers-get_elem? first (suc n) zero h = ground arith
numbers-get_elem? first (suc n) (suc i) h = ground (arith, numbers-get_elem? (suc first) n i)

get_elem?-append_right :
    (xs ys : List ℕ) (k n : ℕ) → n ≡ length xs + k → get_elem? (xs ++ ys) n ≡ get_elem? ys k
get_elem?-append_right [] ys k n e = ap (get_elem? ys) (omega arith)
get_elem?-append_right (x ∷ xs) ys k zero e = absurd (omega arith)
get_elem?-append_right (x ∷ xs) ys k (suc n) e = get_elem?-append_right xs ys k n (omega arith)

length-numbers : (first n : ℕ) → length (numbers first n) ≡ n
length-numbers first zero = refl
length-numbers first (suc n) = ap suc (length-numbers (suc first) n)

functions_from-get_elem? :
    (first : ℕ) (sizes : List ℕ) (t size i : ℕ)
    → get_elem? sizes t ≡ some size
    → i < size
    → (k : ℕ) × (get_elem? (functions_from first sizes) k
        ≡ some ((first + t) * max_region_range + i))
functions_from-get_elem? first [] t size i e h = absurd (ground arith)
functions_from-get_elem? first (s ∷ sizes) zero size i e h =
    let same = some_inj s size e in
    let first_numbers = numbers (first * max_region_range) s in
    (
      i,
      get_elem?-append_left first_numbers (functions_from (suc first) sizes) i
            (omega (arith, length-numbers (first * max_region_range) s))
          ∙ numbers-get_elem? (first * max_region_range) s i (omega arith)
          ∙ ap some (omega arith),
    )
functions_from-get_elem? first (s ∷ sizes) (suc t) size i e h =
    let (k, found) = functions_from-get_elem? (suc first) sizes t size i e h in
    let first_numbers = numbers (first * max_region_range) s in
    (
      length first_numbers + k,
      get_elem?-append_right first_numbers (functions_from (suc first) sizes) k _ refl
          ∙ found
          ∙ ap some (omega arith),
    )

funcs-get_elem? :
    (cbs : List Callback) (k func : ℕ)
    → get_elem? (funcs cbs) k ≡ some func
    → (cb : Callback) × (get_elem? cbs k ≡ some cb) × (cb.func ≡ func)
funcs-get_elem? [] k func e = absurd (ground arith)
funcs-get_elem? (cb ∷ cbs) zero func e = (cb, refl, some_inj cb.func func e)
funcs-get_elem? (cb ∷ cbs) (suc k) func e = funcs-get_elem? cbs k func e

get_elem?-funcs :
    (cbs : List Callback) (k : ℕ) (cb : Callback)
    → get_elem? cbs k ≡ some cb
    → get_elem? (funcs cbs) k ≡ some cb.func
get_elem?-funcs [] k cb e = absurd (ground arith)
get_elem?-funcs (c ∷ cbs) zero cb e = ap (λ c. some c.func) (some_inj c cb e)
get_elem?-funcs (c ∷ cbs) (suc k) cb e = get_elem?-funcs cbs k cb e

get_hook_safe-some :
    (func t i : ℕ)
    → get_hook_safe func ≡ some (t, i)
    → (size : ℕ) × (get_elem? table_sizes t ≡ some size)
      × (i < size)
      × (func ≡ t * max_region_range + i)
unfolding get_hook_safe
get_hook_safe-some func t i e =
    elim (Option-cases (get_elem? table_sizes (func / max_region_range))) [
      | inl none_there ↦ absurd (ground arith)
      | inr (size, there) ↦
          let small : func % max_region_range < size = ground arith in
          let found : some (func / max_region_range, func % max_region_range) ≡ some (t, i) =
            ground arith in
          let pair = some_inj (func / max_region_range, func % max_region_range) (t, i) found in
          let table : func / max_region_range ≡ t = ap (λ (p : ℕ × ℕ). p.0) pair in
          let index : func % max_region_range ≡ i = ap (λ (p : ℕ × ℕ). p.1) pair in
          (
            size,
            subst (λ (t : ℕ). get_elem? table_sizes t ≡ some size) table there,
            omega arith,
            omega arith,
          )
    ]

increasing_unique :
    (ns : List ℕ) (least j k n : ℕ)
    → increasing least ns ≡ true
    → get_elem? ns j ≡ some n
    → get_elem? ns k ≡ some n
    → j ≡ k
increasing_unique [] least j k n h e f = absurd (ground arith)
increasing_unique (m ∷ ns) least zero zero n h e f = refl
increasing_unique (m ∷ ns) least zero (suc k) n h e f =
    absurd (ground (arith, some_inj m n e, increasing-get_elem? ns (suc m) k n))
increasing_unique (m ∷ ns) least (suc j) zero n h e f =
    absurd (ground (arith, some_inj m n f, increasing-get_elem? ns (suc m) j n))
increasing_unique (m ∷ ns) least (suc j) (suc k) n h e f =
    ap suc (increasing_unique ns (suc m) j k n (ground arith) e f)

-- Each function number that the tables know has one function of the tables, and only one.
all_callbacks-get_hook_safe :
    (func t i : ℕ)
    → get_hook_safe func ≡ some (t, i)
    → (k : ℕ) × (cb : Callback) × (get_elem? all_callbacks k ≡ some cb)
      × (cb.func ≡ func)
      × ((k' : ℕ) (cb' : Callback)
          → get_elem? all_callbacks k' ≡ some cb'
          → cb'.func ≡ func
          → k' ≡ k)
all_callbacks-get_hook_safe func t i e =
    let (size, there, small, number) = get_hook_safe-some func t i e in
    let (k, at) = functions_from-get_elem? 0 table_sizes t size i there small in
    let found : get_elem? (funcs all_callbacks) k ≡ some func =
      ap (λ ns. get_elem? ns k) all_callbacks-funcs ∙ at ∙ ap some (omega arith) in
    let (cb, here, same) = funcs-get_elem? all_callbacks k func found in
    (
      k,
      cb,
      here,
      same,
      λ k' cb' there' same'.
          increasing_unique (funcs all_callbacks) 0 k' k func all_callbacks-increasing
            (get_elem?-funcs all_callbacks k' cb' there' ∙ ap some same') found,
    )
