-- ===== src/Merkle.antt =====
-- data-structures/merkletree/impl.go: the commitment tree, stored sparsely by node index.
-- Node 1 is the root's place, node i has the children 2i and 2i + 1, and the leaves stand from
-- `start_idx levels` on. Node indices are naturals: the callers of Insert pass an absolute value.
pub mod Levels
pub mod Consistent
pub mod Membership
pub mod Append
pub mod Grown
pub mod Root
pub mod Json
pub mod Leaves
mod Tests
use go_sdk_test.Common.{
  ℕ, zero, suc, ◌+◌, ◌-◌, ◌*◌, ◌/◌, ◌%◌, ◌^◌, true, false, Option, none, some, List, [], ◌∷◌, ℤ,
  is_zero, ltb, Map, ◌==◌, nat_eq, int_eq, lookup, insert, contains, Result, ok, ◌>>◌, fail_if,
  take, replicate, leb, length, if◌then◌else◌,
}
use go_sdk_test.Common.Bits.{bit_len}

pub data MerkleError : Type 0 where
  incomplete : MerkleError

-- type merkleTreeImpl
pub record MerkleTree : Type 0 where
  pub hash_fn : ℤ → ℤ → ℤ
  pub levels : ℕ
  pub default_value : ℤ
  pub tree : Map ℕ ℤ
  pub reverse_tree : Map ℤ ℕ
  pub count : ℕ
  pub index : ℕ

abbrev pub merkle_levels : ℕ
merkle_levels = 200

abbrev pub circom_merkle_length : ℕ
circom_merkle_length = 25

-- Lsh(1, levels - 1)
unfoldable pub start_idx : ℕ → ℕ
start_idx levels = 2 ^ (levels - 1)

unfoldable pub logarithm2 : ℕ → ℕ
logarithm2 zero = 0
logarithm2 (suc n) = bit_len n

unfoldable pub new : (ℤ → ℤ → ℤ) → ℤ → ℕ → MerkleTree
unfolding start_idx
new hash default_value levels =
    let l = if levels == 0 then merkle_levels else levels in
    record {
      hash_fn = hash;
      levels = l;
      default_value = default_value;
      tree = [];
      reverse_tree = [];
      count = 0;
      index = start_idx l;
    }

abbrev pub start : MerkleTree → ℕ
start m = start_idx m.levels

abbrev pub or_default : ℤ → Option ℤ → ℤ
or_default d none = d
or_default d (some v) = v

-- The value at a node, or the default where nothing is stored.
abbrev pub node_value : ℤ → Map ℕ ℤ → ℕ → ℤ
node_value d t i = or_default d (lookup i t)

-- The loop of forceInsert: climb from `cur`, and store at each parent the hash of its children.
unfoldable pub rehash : (ℤ → ℤ → ℤ) → ℤ → ℕ → ℕ → Map ℕ ℤ → Map ℕ ℤ
rehash hash d zero cur t = t
rehash hash d (suc rounds) cur t =
    let parent = cur / 2 in
    let left = parent * 2 in
    rehash hash d rounds parent
      (insert parent (hash (node_value d t left) (node_value d t (left + 1))) t)

-- `none` is the panic on an index below the leaves.
unfoldable pub force_insert : ℤ → ℕ → MerkleTree → Option MerkleTree
unfolding rehash start_idx logarithm2
force_insert value node_index m =
    if ltb node_index (start m)
    then none
    else some (record m {
      tree =
          rehash m.hash_fn m.default_value (logarithm2 (m.index - start m)) node_index
            (insert node_index value m.tree);
      reverse_tree = insert value node_index m.reverse_tree;
    })

unfoldable pub insert_leaf : ℤ → ℕ → MerkleTree → Option MerkleTree
unfolding force_insert contains
insert_leaf value node_index m = force_insert value node_index (record m {
  count = if contains node_index m.tree then m.count else m.count + 1;
  index = if ltb m.index (node_index + 1) then node_index + 1 else m.index;
})

unfoldable pub remove : ℕ → MerkleTree → Option MerkleTree
unfolding force_insert
remove node_index m = force_insert m.default_value node_index m

unfoldable pub get_value : ℕ → MerkleTree → Option ℤ
get_value i m = lookup i m.tree

last_leaves_from : ℕ → ℕ → MerkleTree → List ℤ
unfolding get_value start_idx
last_leaves_from zero i m = []
last_leaves_from (suc rounds) i m =
    let rest = last_leaves_from rounds (i + 1) m in
    let more : List ℤ = elim (get_value (start m + m.count - (1 + i)) m) [
      | none ↦ rest
      | some v ↦ if is_zero v then rest else v ∷ rest
    ] in
    if ltb i m.count then more else []

unfoldable pub last_leaves : ℕ → MerkleTree → List ℤ
unfolding last_leaves_from
last_leaves limit m = if m.count == 0 then [] else last_leaves_from limit 0 m

unfoldable pub completeness_check : MerkleTree → Result MerkleError (Unit {0})
unfolding start_idx
completeness_check m = fail_if (if m.count + start m == m.index then false else true) incomplete

-- The loop over i = 1, 2, 4, … below 2 ^ levels.
unfoldable pub root_scan : ℕ → ℕ → MerkleTree → ℤ
root_scan zero i m = m.default_value
root_scan (suc rounds) i m =
    let rest = root_scan rounds (i * 2) m in
    elim (lookup i m.tree) [ none ↦ rest | some v ↦ if is_zero v then rest else v ]

unfoldable pub get_root_hash : MerkleTree → Result MerkleError ℤ
unfolding completeness_check root_scan
get_root_hash m = completeness_check m >> ok (root_scan m.levels 1 m)

unfoldable pub get_sibling_index : ℕ → ℕ
get_sibling_index index = if index == 1 then 1 else if index % 2 == 1 then index - 1 else index + 1

unfoldable pub zero_slice : ℕ → List ℤ
zero_slice n = replicate n (ℤ.pos 0)

unfoldable pub slice_first : List ℤ → ℕ → List ℤ
slice_first values n = if leb (length values) n then values else take n values

-- The climb to index 0; an index takes fewer halvings than its value.
unfoldable pub sibling_hashes : ℕ → ℕ → MerkleTree → List ℤ
unfolding get_sibling_index
sibling_hashes zero index m = []
sibling_hashes (suc fuel) index m = elim (index == 0) [
  | true ↦ []
  | false ↦
      node_value m.default_value m.tree (get_sibling_index index)
      ∷ sibling_hashes fuel (index / 2) m
]

unfoldable pub get_sibling_hashes_for_verification : ℤ → MerkleTree → Result MerkleError (List ℤ)
unfolding completeness_check sibling_hashes zero_slice slice_first
get_sibling_hashes_for_verification item m =
    completeness_check m
    >> ok (elim (lookup item m.reverse_tree) [
      | none ↦ zero_slice circom_merkle_length
      | some idx ↦ slice_first (sibling_hashes idx idx m) circom_merkle_length
    ])

-- left = 0, right = 1
unfoldable pub sibling_sides : ℕ → ℕ → List ℤ
sibling_sides zero index = []
sibling_sides (suc fuel) index = elim (index == 0) [
  | true ↦ []
  | false ↦ ℤ.pos (index % 2) ∷ sibling_sides fuel (index / 2)
]

unfoldable pub get_sibling_sides : ℤ → MerkleTree → Result MerkleError (List ℤ)
unfolding completeness_check sibling_sides zero_slice slice_first
get_sibling_sides item m =
    completeness_check m
    >> ok (elim (lookup item m.reverse_tree) [
      | none ↦ zero_slice circom_merkle_length
      | some idx ↦ slice_first (sibling_sides idx idx) circom_merkle_length
    ])

unfoldable pub build_reverse_tree : ℕ → ℕ → Map ℕ ℤ → Map ℤ ℕ → Map ℤ ℕ
build_reverse_tree zero i t rt = rt
build_reverse_tree (suc rounds) i t rt =
    build_reverse_tree rounds (i + 1) t (elim (lookup i t) [ none ↦ rt | some v ↦ insert v i rt ])
