-- ===== src/Runtime/Node/Sharing.antt =====
-- `reconcile_shared` of crates/canopee-runtime/src/sharing.rs.
use canopee.Prelude.{sym, ◌∙◌, ◌≡◌, Option, List, [], ◌∷◌, ◌++◌}
use mathlib.Core.List.{append_assoc, append-nil}
use canopee.Prelude.{map}
use canopee.Platform.{Platform}
use canopee.Storage.Types.{ObjectId, HomeIndex}
use canopee.Runtime.SharedSet.{difference}
use canopee.Runtime.Node.{
  Node, announces, withdraws, announce, withdraw, announce_all, withdraw_all, reconcile_shared,
  shared_ids,
}

module _ (p : Platform) where
  announce_all-calls :
      (n : Node p) (l : List ObjectId) → (announce_all p n l).calls ≡ n.calls ++ map announces l
  unfolding announce_all announce
  announce_all-calls n [] = sym (append-nil n.calls)
  announce_all-calls n (id ∷ l) =
      announce_all-calls (announce p n id) l
      ∙ append_assoc n.calls (announces id ∷ []) (map announces l)

  withdraw_all-calls :
      (n : Node p) (l : List ObjectId) → (withdraw_all p n l).calls ≡ n.calls ++ map withdraws l
  unfolding withdraw_all withdraw
  withdraw_all-calls n [] = sym (append-nil n.calls)
  withdraw_all-calls n (id ∷ l) =
      withdraw_all-calls (withdraw p n id) l
      ∙ append_assoc n.calls (withdraws id ∷ []) (map withdraws l)

  -- The network is asked to announce what became shared and then to withdraw what is no more, and
  -- nothing else.
  calls-reconcile_shared :
      (n : Node p) (previous current : Option HomeIndex)
      → (reconcile_shared p n previous current).calls
        ≡ (n.calls ++ map announces (difference (shared_ids p current) (shared_ids p previous)))
          ++ map withdraws (difference (shared_ids p previous) (shared_ids p current))
  unfolding reconcile_shared
  calls-reconcile_shared n previous current = rw (withdraw_all-calls, announce_all-calls)
