-- ===== src/Merkle/Tests.antt =====
-- Runs of the tree, and the theorems at concrete trees.
use go_sdk_test.Common.{
  ◌≡◌, refl, some, [], ◌∷◌, ℤ, pos, ◌+ℤ◌, arith, ok, lookup, insert, nat_eq, int_eq, contains, ◌+◌,
}
use go_sdk_test.Common.Bits.{bit_len}
use go_sdk_test.Merkle.{
  MerkleTree, new, insert_leaf, get_root_hash, start_idx, logarithm2, rehash, last_leaves,
  get_sibling_sides,
}
use go_sdk_test.Merkle.Consistent.{IsConsistent, new-IsConsistent, insert_leaf-IsConsistent}
use go_sdk_test.Merkle.Grown.{IsGrown, append_all, appended_all, append_all-IsGrown, new-IsGrown}
use go_sdk_test.Merkle.Root.{LeadsToRoot, membership}

-- A hash that shows where its arguments stood.
abbrev sum_hash : ℤ → ℤ → ℤ
sum_hash a b = a +ℤ a +ℤ b +ℤ pos 1

abbrev empty_tree : MerkleTree
empty_tree = new sum_hash (pos 0) 4

abbrev three : MerkleTree
three = appended_all (pos 5 ∷ pos 7 ∷ pos 9 ∷ []) empty_tree

three-IsGrown : IsGrown three
unfolding new start_idx
three-IsGrown =
    (append_all-IsGrown (pos 5 ∷ pos 7 ∷ pos 9 ∷ []) empty_tree (omega arith)
      (new-IsGrown sum_hash (pos 0) 4)).1

root_of_three : get_root_hash three ≡ ok (pos 56)
unfolding get_root_hash new rehash start_idx logarithm2 insert lookup ◌+ℤ◌ contains bit_len
root_of_three = refl

siblings_of_seven : get_sibling_sides (pos 7) three ≡ ok (pos 1 ∷ pos 0 ∷ pos 0 ∷ pos 1 ∷ [])
unfolding get_sibling_sides new rehash start_idx logarithm2 insert lookup ◌+ℤ◌ contains bit_len
siblings_of_seven = refl

last_two : last_leaves 2 three ≡ pos 9 ∷ pos 7 ∷ []
unfolding last_leaves new rehash start_idx logarithm2 insert lookup ◌+ℤ◌ contains bit_len
last_two = refl

membership_example : LeadsToRoot three (pos 7)
unfolding new rehash start_idx logarithm2 insert lookup ◌+ℤ◌ contains bit_len
membership_example = membership three (pos 7) 9 three-IsGrown refl (omega arith) refl

insert_leaf-IsConsistent_example :
    (m' : MerkleTree) × (insert_leaf (pos 3) 13 empty_tree ≡ some m') × IsConsistent m'
unfolding new start_idx
insert_leaf-IsConsistent_example =
    insert_leaf-IsConsistent (pos 3) 13 empty_tree (omega arith) (omega arith)
      (new-IsConsistent sum_hash (pos 0) 4)

append_all-IsGrown_example :
    (append_all (pos 5 ∷ []) empty_tree ≡ some (appended_all (pos 5 ∷ []) empty_tree))
    × IsGrown (appended_all (pos 5 ∷ []) empty_tree)
    × ((appended_all (pos 5 ∷ []) empty_tree).index ≡ empty_tree.index + 1)
unfolding new start_idx
append_all-IsGrown_example =
    append_all-IsGrown (pos 5 ∷ []) empty_tree (omega arith) (new-IsGrown sum_hash (pos 0) 4)
