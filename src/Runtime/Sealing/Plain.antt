-- ===== src/Runtime/Sealing/Plain.antt =====
-- `concat_objects` of crates/canopee-runtime/src/lib.rs.
use canopee.Prelude.{◌≡◌, Bytes, List, ok}
use canopee.Platform.{Platform}
use canopee.Identity.Crypto.{Crypto}
use canopee.Storage.Types.{Object}
use canopee.Storage.Store.{get_verified}
use canopee.Runtime.Node.{Node}
use canopee.Runtime.Network.{Network}

module _ (p : Platform) (c : Crypto) where
  -- What an object that is put in plain leaves.
  abbrev Put : Node p → Node p → Bytes → Object → Type 0
  Put n m bytes o =
      (o.payload.contents ≡ bytes) × (get_verified p m.files o.id ≡ ok o) × (m.calls ≡ n.calls)
