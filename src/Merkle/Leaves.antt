-- ===== src/Merkle/Leaves.antt =====
-- How many leaves LastLeaves returns.
use go_sdk_test.Common.{ℕ, zero, suc, ◌+◌, ◌≤◌, length, nat_eq, arith}
use go_sdk_test.Merkle.{MerkleTree, last_leaves, last_leaves_from}

leaves_from-length-le :
    (rounds i : ℕ) (m : MerkleTree) → length (last_leaves_from rounds i m) ≤ rounds
unfolding last_leaves_from
leaves_from-length-le zero i m = omega arith
leaves_from-length-le (suc rounds) i m = ground (arith, leaves_from-length-le rounds (i + 1) m)

-- At most as many as are asked for.
pub length-last_leaves-le : (limit : ℕ) (m : MerkleTree) → length (last_leaves limit m) ≤ limit
unfolding last_leaves
length-last_leaves-le limit m = ground (arith, leaves_from-length-le limit 0 m)
