-- ===== src/Flows/Lru.antt =====
-- `container/list` as the two tables use it: the front is the flow that was used last. The maps from a
-- key or an identifier to an element of the list are look-ups in the list.
use nexus_proxy_server.Common.{ℕ, if◌then◌else◌, ◌==◌, nat_eq, List, [], ◌∷◌, Option, none, some}

module _ {F : Type 0} (key : F → ℕ) where
  -- The flow with a key.
  unfoldable pub find : ℕ → List F → Option F
  find k [] = none
  find k (f ∷ fs) = if key f == k then some f else find k fs

  -- `list.Remove` of the element with a key.
  unfoldable pub drop_flow : ℕ → List F → List F
  drop_flow k [] = []
  drop_flow k (f ∷ fs) = if key f == k then fs else f ∷ drop_flow k fs

-- `list.Back`, and the list without it.
unfoldable pub unsnoc : {F : Type 0} → List F → Option (List F × F)
unsnoc [] = none
unsnoc (f ∷ fs) = elim (unsnoc fs) [
  | none ↦ some ([], f)
  | some (init, back) ↦ some (f ∷ init, back)
]
