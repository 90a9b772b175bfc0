-- ===== src/Runtime/SharedSet.antt =====
-- `SharedSet` of crates/canopee-runtime/src/lib.rs, a set of ids.
use canopee.Prelude.{Bool, false, ◌||◌, ◌≡◌, List, [], ◌∷◌, arith, same, same_iff, if◌then◌else◌}
use canopee.Storage.Types.{ObjectId}

unfoldable pub has_id : ObjectId → List ObjectId → Bool
has_id id [] = false
has_id id (j ∷ l) = same j id || has_id id l

unfoldable pub insert_id : ObjectId → List ObjectId → List ObjectId
insert_id id l = if has_id id l then l else id ∷ l

unfoldable pub remove_id : ObjectId → List ObjectId → List ObjectId
remove_id id [] = []
remove_id id (j ∷ l) = let rest = remove_id id l in if same j id then rest else j ∷ rest

-- The members of the first set that the second lacks.
unfoldable pub difference : List ObjectId → List ObjectId → List ObjectId
difference [] m = []
difference (j ∷ l) m = let rest = difference l m in if has_id j m then rest else j ∷ rest

pub has_id-insert_id :
    (id j : ObjectId) (l : List ObjectId) → has_id j (insert_id id l) ≡ (same id j || has_id j l)
unfolding insert_id has_id
has_id-insert_id id j l = ground (arith, same_iff id j)

pub has_id-remove_id :
    (id j : ObjectId) (l : List ObjectId)
    → has_id j (remove_id id l) ≡ (if same id j then false else has_id j l)
unfolding remove_id has_id
has_id-remove_id id j [] = ground arith
has_id-remove_id id j (i ∷ l) =
    ground (arith, same_iff i id, same_iff id j, same_iff i j, has_id-remove_id id j l)

pub has_id-difference :
    (j : ObjectId) (l m : List ObjectId)
    → has_id j (difference l m) ≡ (if has_id j m then false else has_id j l)
unfolding difference has_id
has_id-difference j [] m = ground arith
has_id-difference j (i ∷ l) m = ground (arith, same_iff i j, has_id-difference j l m)
