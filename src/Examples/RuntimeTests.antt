-- ===== src/Examples/RuntimeTests.antt =====
-- The theorems on a node at concrete inputs: it holds its own note and a cached copy of a letter.
use canopee.Prelude.{Bool, ◌≡◌, ◌↔◌, ◌≤◌, ok, true, some, none, [], ◌∷◌, codes, arith}
use canopee.Storage.Types.{HomeIndex, blob}
use canopee.Storage.Store.{get_verified, put_ops}
use canopee.Storage.Store.Files.{run_ops}
use canopee.Storage.Cache.{total_cached_bytes}
use canopee.Runtime.Node.{Node, get_object, is_shared, evict_if_over_cap}
use canopee.Runtime.Node.Serving.{bundle_of, get_object_iff}
use canopee.Runtime.Node.Eviction.{evict_if_over_cap-le}
use canopee.Examples.Toy.{toy}
use canopee.Examples.Data.{alice, note, letter, home, indexes}

get_object_iff_example :
    ((get_object toy home letter.id 12).0 ≡ some (bundle_of letter))
    ↔ ((get_verified toy home.files letter.id ≡ ok letter) × (is_shared toy home letter.id ≡ true))
get_object_iff_example = get_object_iff toy home letter.id 12 letter

abbrev bare : Node toy
bare = record {
  identity = alice;
  files = [];
  cache = record { entries = [] };
  sidecar = none;
  shared = [];
  calls = [];
}

abbrev holding : Node toy
holding = record bare {
  files = run_ops (put_ops toy letter) [];
  cache = record { entries = (letter.id, 4) ∷ [] };
  sidecar = some (indexes.serialize (record { entries = (letter.id, 4) ∷ [] }));
}

evict_if_over_cap-le_example :
    total_cached_bytes toy
      (evict_if_over_cap toy indexes 2 1 home).cache
      (evict_if_over_cap toy indexes 2 1 home).files
    ≤ 1
evict_if_over_cap-le_example = evict_if_over_cap-le toy indexes 2 1 home (omega arith)

-- A home index that lists the note, shared or not.
abbrev home_index : Bool → HomeIndex
home_index shared = record {
  profile = none;
  contacts = none;
  entries =
      record {
        name = codes "note";
        object = note.id;
        object_type = blob;
        shared = shared;
        app = none;
      }
      ∷ [];
  version = 1;
}
