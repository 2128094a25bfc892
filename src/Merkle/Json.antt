-- ===== src/Merkle/Json.antt =====
-- data-structures/merkletree/impl.go, the stored form of the tree: its numbers as decimal text. A
-- key that the source keeps as text is the number here, as in the tree itself. A negative count,
-- index or leaf place, which no tree has, is refused here.
pub mod RoundTrip
pub mod Reverse
mod Tests
use go_sdk_test.Common.{
  ℕ, zero, suc, Option, none, some, List, [], ◌∷◌, ℤ, pos, negsuc, Map, nat_eq, int_eq, Result, ok,
  ◌>>=◌, require,
}
use mathlib.Core.Option
use go_sdk_test.Decimal.{Text, big_string, set_string}
use go_sdk_test.Merkle.{MerkleTree, merkle_levels, start_idx, build_reverse_tree}

-- type MerkleTreeJSON; `none` is the nil map.
pub record MerkleTreeJson : Type 0 where
  pub tree : Map ℕ Text
  pub reverse_tree : Option (Map ℤ Text)
  pub count : Text
  pub index : Text

pub data JsonError : Type 0 where
  parse_tree : JsonError
  parse_reverse_tree : JsonError
  invalid_count : JsonError
  invalid_index : JsonError

-- The loops of ToJSON over a map.
unfoldable pub print_map {ℓ κ} : {K : Type ℓ} {V : Type κ} → (V → Text) → Map K V → Map K Text
print_map print [] = []
print_map print ((k, v) ∷ rest) = (k, print v) ∷ print_map print rest

abbrev pub nat_string : ℕ → Text
nat_string n = big_string (pos n)

unfoldable pub to_json : MerkleTree → MerkleTreeJson
unfolding print_map
to_json m = record {
  tree = print_map big_string m.tree;
  reverse_tree = some (print_map nat_string m.reverse_tree);
  count = nat_string m.count;
  index = nat_string m.index;
}

unfoldable pub to_json_lite : MerkleTree → MerkleTreeJson
unfolding print_map
to_json_lite m = record {
  tree = print_map big_string m.tree;
  reverse_tree = none;
  count = nat_string m.count;
  index = nat_string m.index;
}

-- parseStringMap, with the reading of a value.
unfoldable pub parse_string_map {ℓ κ} :
    {K : Type ℓ} {V : Type κ} → (Text → Option V) → Map K Text → Option (Map K V)
parse_string_map parse [] = some []
parse_string_map parse ((k, text) ∷ rest) =
    let parsed = parse_string_map parse rest in
    elim (parse text) [ none ↦ none | some v ↦ Option.map (λ m. (k, v) ∷ m) parsed ]

abbrev pub not_negative : ℤ → Option ℕ
not_negative (pos n) = some n
not_negative (negsuc k) = none

unfoldable pub set_nat : Text → Option ℕ
set_nat text = elim (set_string text) [ none ↦ none | some v ↦ not_negative v ]

-- The reverse tree of FromJSON; `none` is a nil map, for which it is built.
unfoldable pub parse_reverse_tree_of : Option (Map ℤ Text) → Result JsonError (Option (Map ℤ ℕ))
unfolding parse_string_map
parse_reverse_tree_of none = ok none
parse_reverse_tree_of (some texts) =
    require (parse_string_map set_nat texts) parse_reverse_tree >>= λ m. ok (some m)

unfoldable pub or_built : Option (Map ℤ ℕ) → ℕ → Map ℕ ℤ → Map ℤ ℕ
unfolding build_reverse_tree start_idx
or_built none count tree = build_reverse_tree count (start_idx merkle_levels) tree []
or_built (some m) count tree = m

unfoldable pub from_json : (ℤ → ℤ → ℤ) → ℤ → MerkleTreeJson → Result JsonError MerkleTree
unfolding parse_reverse_tree_of or_built set_nat
from_json hash default_value j = require (parse_string_map set_string j.tree) parse_tree >>= λ tree.
    parse_reverse_tree_of j.reverse_tree >>= λ reverse.
    require (set_nat j.count) invalid_count >>= λ count.
    require (set_nat j.index) invalid_index >>= λ index. ok (record {
      hash_fn = hash;
      levels = merkle_levels;
      default_value = default_value;
      tree = tree;
      reverse_tree = or_built reverse count tree;
      count = count;
      index = index;
    })
