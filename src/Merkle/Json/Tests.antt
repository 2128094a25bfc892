-- ===== src/Merkle/Json/Tests.antt =====
-- Trees that are stored and read back, and texts that are refused.
use go_sdk_test.Common.{◌≡◌, refl, none, [], ◌∷◌, ℤ, pos, ◌+ℤ◌, arith, ok, err, nat_eq, int_eq}
use go_sdk_test.Decimal.{set_string, read_number, read_digits}
use go_sdk_test.Merkle.{MerkleTree, new, start, start_idx}
use go_sdk_test.Merkle.Grown.{IsGrown, appended_all, append_all-IsGrown, new-IsGrown}
use go_sdk_test.Merkle.Json.{MerkleTreeJson, from_json, to_json_lite, parse_tree, parse_string_map}
use go_sdk_test.Merkle.Json.Reverse.{HasPlaces}
use go_sdk_test.Merkle.Json.RoundTrip.{from-to_json_lite-IsGrown}

abbrev sum_hash : ℤ → ℤ → ℤ
sum_hash a b = a +ℤ a +ℤ b +ℤ pos 1

abbrev empty_tree : MerkleTree
empty_tree = new sum_hash (pos 0) 0

abbrev two : MerkleTree
two = appended_all (pos 5 ∷ pos 7 ∷ []) empty_tree

two-IsGrown : IsGrown two
unfolding new start_idx
two-IsGrown =
    (append_all-IsGrown (pos 5 ∷ pos 7 ∷ []) empty_tree (omega arith)
      (new-IsGrown sum_hash (pos 0) 0)).1

abbrev spoiled : MerkleTreeJson
spoiled = record {
  tree = (1, b'x' ∷ []) ∷ [];
  reverse_tree = none;
  count = b'0' ∷ [];
  index = b'1' ∷ [];
}

spoiled_tree : from_json sum_hash (pos 0) spoiled ≡ err parse_tree
unfolding from_json parse_string_map set_string read_number read_digits
spoiled_tree = refl

from-to_json_lite-IsGrown_example :
    (t : MerkleTree) × (from_json two.hash_fn two.default_value (to_json_lite two) ≡ ok t)
    × IsGrown t
    × (t.tree ≡ two.tree)
    × (t.count ≡ two.count)
    × (t.index ≡ two.index)
    × HasPlaces (start two) two.index two.tree t.reverse_tree
unfolding new
from-to_json_lite-IsGrown_example = from-to_json_lite-IsGrown two two-IsGrown refl
