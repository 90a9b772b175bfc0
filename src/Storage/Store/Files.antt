-- ===== src/Storage/Store/Files.antt =====
-- The operations on files that crates/canopee-storage/src/storage.rs is made of (tokio::fs).
use canopee.Prelude.{ℕ, zero, suc, Text, Bytes, Option, none, some, List, [], ◌∷◌, take}
use canopee.Prelude.Assoc.{Assoc, lookup, insert, remove}

abbrev pub Dir : Type 0
Dir = Assoc Bytes

pub data FileOp : Type 0 where
  write : Text → Bytes → FileOp
  rename : Text → Text → FileOp
  unlink : Text → FileOp

-- An operation that ends.
unfoldable pub run_op : FileOp → Dir → Dir
run_op (write name b) d = insert name b d
run_op (rename from to) d = elim (lookup from d) [ none ↦ d | some b ↦ insert to b (remove from d) ]
run_op (unlink name) d = remove name d

unfoldable pub run_ops : List FileOp → Dir → Dir
unfolding run_op
run_ops [] d = d
run_ops (op ∷ ops) d = run_ops ops (run_op op d)

-- An operation that is under way when the program stops. A write creates or empties its file before
-- it writes the bytes, so it leaves some number of them there if it has begun (`some n`); a rename
-- and a removal happen at once.
unfoldable pub torn_op : Option ℕ → FileOp → Dir → Dir
torn_op none op d = d
torn_op (some n) (write name b) d = insert name (take n b) d
torn_op (some n) (rename from to) d = d
torn_op (some n) (unlink name) d = d

-- The files where the program stops after `k` operations, in the middle of the next one.
unfoldable pub stopped : ℕ → Option ℕ → List FileOp → Dir → Dir
unfolding run_op torn_op
stopped k begun [] d = d
stopped zero begun (op ∷ ops) d = torn_op begun op d
stopped (suc k) begun (op ∷ ops) d = stopped k begun ops (run_op op d)
