-- ===== src/Snapshot/Commitments/Serialize.antt =====
-- snapshot/commitments.go and snapshot/solana_commitments.go, SerializeSnapshot and
-- DeserializeSnapshot, the same in both. The hash of the service is a parameter.
pub mod RoundTrip
mod Tests
use go_sdk_test.Common.{
  ℕ, zero, suc, Bool, true, false, ◌||◌, ◌&&◌, ltb, Option, none, some, List, [], ◌∷◌, map, String,
  ℤ, pos, ◌==◌, string_eq, int_eq, Map, insert, Result, ok, err, ◌>>=◌, if◌then◌else◌,
}
use go_sdk_test.Merkle.{MerkleTree, new}
use go_sdk_test.Merkle.Json.{JsonError, MerkleTreeJson, to_json, from_json}
use go_sdk_test.Snapshot.Commitments.{Commitments, EncryptedOutputWithSign}

pub record SerializedEncryptedOutputWithSign : Type 0 where
  pub value : String
  pub is_positive : String
  pub is_blocked : Bool

pub record EncryptedOutputWithCommitment : Type 0 where
  pub commitment : ℤ
  pub encrypted_output : String

-- A nil pointer is `none`.
pub record CommitmentsSerializedSnapshot : Type 0 where
  pub latest_block_number : Option ℕ
  pub merkle_tree : Option MerkleTreeJson
  pub encrypted_outputs : List SerializedEncryptedOutputWithSign
  pub encrypted_outputs_by_commitment : List EncryptedOutputWithCommitment

pub data DeserializeError : Type 0 where
  merkle_error : JsonError → DeserializeError
  parse_is_positive : String → DeserializeError

-- strconv.FormatBool
abbrev pub format_bool : Bool → String
format_bool true = "true"
format_bool false = "false"

-- strconv.ParseBool
unfoldable pub parse_bool : String → Option Bool
parse_bool s =
    if s == "1" || s == "t" || s == "T" || s == "TRUE" || s == "true" || s == "True"
    then some true
    else if s == "0" || s == "f" || s == "F" || s == "FALSE" || s == "false" || s == "False"
    then some false
    else none

abbrev pub serialize_output : EncryptedOutputWithSign → SerializedEncryptedOutputWithSign
serialize_output o = record {
  value = o.value;
  is_positive = format_bool o.is_positive;
  is_blocked = o.is_blocked;
}

-- The loop over the map, in the order of its iteration.
unfoldable pub entries : Map ℤ String → List EncryptedOutputWithCommitment
entries [] = []
entries ((c, output) ∷ rest) = record { commitment = c; encrypted_output = output } ∷ entries rest

unfoldable pub serialize_outputs :
    List EncryptedOutputWithSign → List SerializedEncryptedOutputWithSign
serialize_outputs [] = []
serialize_outputs (o ∷ os) = serialize_output o ∷ serialize_outputs os

unfoldable pub serialize_commitments : ℕ → Commitments → CommitmentsSerializedSnapshot
unfolding entries serialize_outputs
serialize_commitments block s = record {
  latest_block_number = some block;
  merkle_tree = some (to_json s.merkle_tree);
  encrypted_outputs = serialize_outputs s.enc_outputs;
  encrypted_outputs_by_commitment = entries s.by_commitment;
}

abbrev pub cons_output :
    EncryptedOutputWithSign
    → Result DeserializeError (List EncryptedOutputWithSign)
    → Result DeserializeError (List EncryptedOutputWithSign)
cons_output o (ok os) = ok (o ∷ os)
cons_output o (err e) = err e

-- The loop over the outputs, which ends at the first sign that is no Boolean.
unfoldable pub deserialize_outputs :
    List SerializedEncryptedOutputWithSign → Result DeserializeError (List EncryptedOutputWithSign)
unfolding parse_bool
deserialize_outputs [] = ok []
deserialize_outputs (out ∷ outs) =
    let rest = deserialize_outputs outs in
    elim (parse_bool out.is_positive) [
      | none ↦ err (parse_is_positive out.is_positive)
      | some sign ↦
          cons_output
            (record { value = out.value; is_positive = sign; is_blocked = out.is_blocked }) rest
    ]

unfoldable pub to_map : List EncryptedOutputWithCommitment → Map ℤ String → Map ℤ String
to_map [] m = m
to_map (entry ∷ es) m = to_map es (insert entry.commitment entry.encrypted_output m)

abbrev pub or_block_zero : Option ℕ → ℕ
or_block_zero none = 0
or_block_zero (some b) = b

-- `wrap` of the error of FromJSON
abbrev pub wrap_merkle : Result JsonError MerkleTree → Result DeserializeError MerkleTree
wrap_merkle (ok t) = ok t
wrap_merkle (err e) = err (merkle_error e)

-- The tree of a snapshot: a new one, unless a block number above 0 and a tree are stored.
unfoldable pub deserialize_tree :
    (ℤ → ℤ → ℤ) → Option ℕ → Option MerkleTreeJson → Result DeserializeError MerkleTree
unfolding from_json new
deserialize_tree hash block none = ok (new hash (pos 0) 0)
deserialize_tree hash block (some j) =
    if ltb 0 (or_block_zero block)
    then wrap_merkle (from_json hash (pos 0) j)
    else ok (new hash (pos 0) 0)

unfoldable pub deserialize_commitments :
    (ℤ → ℤ → ℤ) → CommitmentsSerializedSnapshot → Result DeserializeError (ℕ × Commitments)
unfolding deserialize_tree deserialize_outputs to_map
deserialize_commitments hash z =
    deserialize_tree hash z.latest_block_number z.merkle_tree >>= λ tree.
    deserialize_outputs z.encrypted_outputs >>= λ outputs. ok (
      or_block_zero z.latest_block_number,
      record {
        merkle_tree = tree;
        enc_outputs = outputs;
        by_commitment = to_map z.encrypted_outputs_by_commitment [];
      },
    )
