-- ===== src/Queries/Balance.antt =====
-- What ReChecker is told fits the handlers that there are.
use reapi.Prelude.Int.{ℤ}
use reapi.Prelude.{ℕ, suc, ◌+◌, ◌≡◌, refl, Bool, List, [], ◌∷◌, ◌++◌, ◌==◌, if◌then◌else◌, arith}
use reapi.Queries.{
  Event, QueryFile, ResourceType, add, clear, destroy, forward_registered, forward_unregistered,
  query_added, query_removed, register_query_file, remove,
}

-- How often a request is added and removed, and how many handlers have it.
abbrev pub count_added : ℕ → List Event → ℕ
count_added u [] = 0
count_added u (query_added v flag hash ∷ es) =
    let n = count_added u es in if v == u then suc n else n
count_added u (e ∷ es) = count_added u es

abbrev pub count_removed : ℕ → List Event → ℕ
count_removed u [] = 0
count_removed u (query_removed v ∷ es) = let n = count_removed u es in if v == u then suc n else n
count_removed u (e ∷ es) = count_removed u es

abbrev pub count_handlers : ℕ → List QueryFile → ℕ
count_handlers u [] = 0
count_handlers u (q ∷ qs) = let n = count_handlers u qs in if q.unique_id == u then suc n else n

-- What plugins and the module do with the list.
pub data Op : Type 0 where
  registers : List ℕ → Bool → ℤ → ℕ → ResourceType → ℤ → Op
  unregisters : ℤ → Op
  clears : Op

unfoldable pub apply : Op → List QueryFile → List QueryFile × List Event
apply (registers name has_public forward unique flag hash) qs =
    let (handle, qs', es) = register_query_file name has_public forward unique flag hash qs in
    (qs', es)
apply (unregisters index) qs = let (found, qs', es) = remove index qs in (qs', es)
apply clears qs = clear qs

unfoldable pub apply_all : List Op → List QueryFile → List QueryFile × List Event
apply_all [] qs = (qs, [])
apply_all (op ∷ ops) qs =
    let (qs', es) = apply op qs in let (qs'', es') = apply_all ops qs' in (qs'', es ++ es')

added-append :
    (u : ℕ) (es fs : List Event) → count_added u (es ++ fs) ≡ count_added u es + count_added u fs
added-append u [] fs = omega arith
added-append u (query_added v flag hash ∷ es) fs = ground (arith, added-append u es fs)
added-append u (query_removed v ∷ es) fs = added-append u es fs
added-append u (forward_registered i ∷ es) fs = added-append u es fs
added-append u (forward_unregistered i ∷ es) fs = added-append u es fs

removed-append :
    (u : ℕ) (es fs : List Event)
    → count_removed u (es ++ fs) ≡ count_removed u es + count_removed u fs
removed-append u [] fs = omega arith
removed-append u (query_removed v ∷ es) fs = ground (arith, removed-append u es fs)
removed-append u (query_added v flag hash ∷ es) fs = removed-append u es fs
removed-append u (forward_registered i ∷ es) fs = removed-append u es fs
removed-append u (forward_unregistered i ∷ es) fs = removed-append u es fs

handlers-append :
    (u : ℕ) (qs rs : List QueryFile)
    → count_handlers u (qs ++ rs) ≡ count_handlers u qs + count_handlers u rs
handlers-append u [] rs = omega arith
handlers-append u (q ∷ qs) rs = ground (arith, handlers-append u qs rs)

-- The requests that are open before, and those that are added, are those that are removed and those
-- that are open after.
abbrev Balanced : ℕ → List QueryFile → List QueryFile → List Event → Type 0
Balanced u qs qs' es =
    count_handlers u qs + count_added u es ≡ count_removed u es + count_handlers u qs'

destroy-counts :
    (u : ℕ) (q : QueryFile)
    → (count_added u (destroy q) ≡ 0)
      × (count_removed u (destroy q) ≡ (if q.unique_id == u then 1 else 0))
unfolding destroy
destroy-counts u q = ground arith

remove-Balanced :
    (u : ℕ) (index : ℤ) (qs : List QueryFile)
    → let (found, qs', es) = remove index qs in Balanced u qs qs' es
unfolding remove
remove-Balanced u index [] = refl
remove-Balanced u index (q ∷ qs) = ground (arith, destroy-counts u q, remove-Balanced u index qs)

clear-empty : (qs : List QueryFile) → (clear qs).0 ≡ []
unfolding clear
clear-empty [] = refl
clear-empty (q ∷ qs) = refl

clear-Balanced : (u : ℕ) (qs : List QueryFile) → let (qs', es) = clear qs in Balanced u qs qs' es
unfolding clear
clear-Balanced u [] = refl
clear-Balanced u (q ∷ qs) =
    let es = (clear qs).1 in
    ground (
      arith,
      destroy-counts u q,
      clear-Balanced u qs,
      clear-empty qs,
      added-append u (destroy q) es,
      removed-append u (destroy q) es,
    )

register-Balanced :
    (u : ℕ) (name : List ℕ) (has_public : Bool) (forward : ℤ) (unique : ℕ) (flag : ResourceType)
    (hash : ℤ) (qs : List QueryFile)
    → let (handle, qs', es) = register_query_file name has_public forward unique flag hash qs in
      Balanced u qs qs' es
unfolding register_query_file add
register-Balanced u [] has_public forward unique flag hash qs = ground arith
register-Balanced u (c ∷ name) has_public forward unique flag hash qs =
    let q : QueryFile = record { amx_id = forward; unique_id = unique } in
    ground (arith, handlers-append u qs (q ∷ []))

apply-Balanced :
    (u : ℕ) (op : Op) (qs : List QueryFile) → let (qs', es) = apply op qs in Balanced u qs qs' es
unfolding apply
apply-Balanced u (registers name has_public forward unique flag hash) qs =
    register-Balanced u name has_public forward unique flag hash qs
apply-Balanced u (unregisters index) qs = remove-Balanced u index qs
apply-Balanced u clears qs = clear-Balanced u qs

-- After whatever registrations, removals and clearings, from any list of handlers on: for each number
-- of a request, the handlers with it at the start and the times that ReChecker was told to add it are
-- together as many as the times that it was told to remove it and the handlers that there are now.
pub apply_all-count :
    (u : ℕ) (ops : List Op) (qs : List QueryFile)
    → let (qs', es) = apply_all ops qs in
      count_handlers u qs + count_added u es ≡ count_removed u es + count_handlers u qs'
unfolding apply_all
apply_all-count u [] qs = omega arith
apply_all-count u (op ∷ ops) qs =
    let (qs', es) = apply op qs in
    let (qs'', es') = apply_all ops qs' in
    ground (
      arith,
      apply-Balanced u op qs,
      apply_all-count u ops qs',
      added-append u es es',
      removed-append u es es',
    )
