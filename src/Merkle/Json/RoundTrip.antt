-- ===== src/Merkle/Json/RoundTrip.antt =====
-- What FromJSON reads of a tree that ToJSON or ToJSONLite wrote.
use go_sdk_test.Common.{
  ℕ, ◌+◌, ◌≡◌, refl, ap, sym, Option, some, [], ◌∷◌, ℤ, pos, Map, lookup, nat_eq, int_eq, Result,
  ok, arith,
}
use mathlib.Core.Option
use go_sdk_test.Decimal.{Text, big_string, set_string}
use go_sdk_test.Decimal.Digits.{set_string-big_string}
use go_sdk_test.Merkle.{MerkleTree, merkle_levels, start, start_idx, build_reverse_tree}
use go_sdk_test.Merkle.Grown.{IsGrown}
use go_sdk_test.Merkle.Json.{
  JsonError, print_map, nat_string, to_json, to_json_lite, parse_string_map, set_nat,
  parse_reverse_tree_of, or_built, from_json,
}
use go_sdk_test.Merkle.Json.Reverse.{IsReverse, HasPlaces, build_reverse_tree_lem}

pub parse-print_map {ℓ κ} :
    {K : Type ℓ} {V : Type κ} (print : V → Text) (parse : Text → Option V)
    → ((v : V) → parse (print v) ≡ some v)
    → (m : Map K V) → parse_string_map parse (print_map print m) ≡ some m
unfolding parse_string_map print_map
parse-print_map print parse back [] = refl
parse-print_map print parse back ((k, v) ∷ rest) =
    rw (back v, parse-print_map print parse back rest) refl

set_nat-nat_string : (n : ℕ) → set_nat (nat_string n) ≡ some n
unfolding set_nat
set_nat-nat_string n = rw (set_nat, set_string-big_string (pos n)) refl

-- FromJSON returns the very tree that ToJSON wrote, given its hash and its default value, if it has
-- the levels that FromJSON sets.
pub from-to_json :
    (m : MerkleTree)
    → m.levels ≡ merkle_levels
    → from_json m.hash_fn m.default_value (to_json m) ≡ ok m
unfolding from_json to_json parse_reverse_tree_of or_built
from-to_json m levels =
    rw
      (
        parse-print_map big_string set_string set_string-big_string m.tree,
        parse-print_map nat_string set_nat set_nat-nat_string m.reverse_tree,
        set_nat-nat_string m.count,
        set_nat-nat_string m.index,
      )
      (rebuilt m levels)
  where
    rebuilt :
        (m : MerkleTree)
        → m.levels ≡ merkle_levels
        → Path (Result JsonError MerkleTree) (ok (record m { levels = merkle_levels })) (ok m)
    rebuilt m e = ap (λ l. ok (record m { levels = l })) (sym e)

-- The tree with another reverse tree.
abbrev with_reverse : MerkleTree → Map ℤ ℕ → MerkleTree
with_reverse m rt = record m { reverse_tree = rt }

from-to_json_lite :
    (m : MerkleTree)
    → m.levels ≡ merkle_levels
    → from_json m.hash_fn m.default_value (to_json_lite m)
      ≡ ok (with_reverse m (build_reverse_tree m.count (start m) m.tree []))
unfolding from_json to_json_lite parse_reverse_tree_of or_built start_idx
from-to_json_lite m levels =
    rw
      (
        parse-print_map big_string set_string set_string-big_string m.tree,
        set_nat-nat_string m.count,
        set_nat-nat_string m.index,
      )
      (rebuilt m levels)
  where
    rebuilt :
        (m : MerkleTree)
        → m.levels ≡ merkle_levels
        → Path
            (Result JsonError MerkleTree)
            (ok (record m {
              levels = merkle_levels;
              reverse_tree = build_reverse_tree m.count (start_idx merkle_levels) m.tree [];
            }))
            (ok (record m {
              reverse_tree = build_reverse_tree m.count (start_idx m.levels) m.tree [];
            }))
    rebuilt m e =
        ap
          (λ l. ok (record m {
            levels = l;
            reverse_tree = build_reverse_tree m.count (start_idx l) m.tree [];
          }))
          (sym e)

with_reverse-IsGrown :
    (m : MerkleTree) (rt : Map ℤ ℕ)
    → IsGrown m
    → IsReverse (start m) m.index m.tree rt
    → IsGrown (with_reverse m rt)
with_reverse-IsGrown m rt g sound = record {
  consistent = record {
    levels_positive = g.consistent.levels_positive;
    lower = g.consistent.lower;
    upper = g.consistent.upper;
    hashed = g.consistent.hashed;
    height = g.consistent.height;
  };
  filled = g.filled;
  complete = g.complete;
  bounded = g.bounded;
  reverse = sound;
}

-- FromJSON accepts what ToJSONLite wrote of a tree that deposits have grown, if the tree has the
-- levels that FromJSON sets, and returns such a tree again: it holds the same nodes, count and
-- index, and its reverse tree, which was not written, has a place for the value of each leaf.
pub from-to_json_lite-IsGrown :
    (m : MerkleTree)
    → IsGrown m
    → m.levels ≡ merkle_levels
    → (t : MerkleTree) × (from_json m.hash_fn m.default_value (to_json_lite m) ≡ ok t)
      × IsGrown t
      × (t.tree ≡ m.tree)
      × (t.count ≡ m.count)
      × (t.index ≡ m.index)
      × HasPlaces (start m) m.index m.tree t.reverse_tree
unfolding lookup
from-to_json_lite-IsGrown m g levels =
    let rt = build_reverse_tree m.count (start m) m.tree [] in
    let nothing : (v : ℤ) (i : ℕ) → lookup v [] ≡ some i → ⊥ =
      λ v i found. Option.none-ne-some i found in
    let (sound, places) =
      build_reverse_tree_lem m.count (start m) (start m) m.tree [] (omega arith)
        (λ v i found. absurd (nothing v i found)) (λ i v lo hi found. absurd (omega arith)) in
    let e : start m + m.count ≡ m.index = omega (arith, g.complete) in
    (
      with_reverse m rt,
      from-to_json_lite m levels,
      with_reverse-IsGrown m rt g (rw (e) at sound),
      refl,
      refl,
      refl,
      rw (e) at places,
    )
