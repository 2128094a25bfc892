-- ===== src/Snapshot/Commitments.antt =====
-- snapshot/commitments.go and snapshot/solana_commitments.go: the commitment tree, the encrypted
-- outputs and the output of each commitment. The two services differ in MapEvent, which is a
-- parameter, and in the sign that AcceptEvent gives a new output.
pub mod Accept
pub mod Serialize
use go_sdk_test.Common.{
  ℕ, Bool, true, false, not, Option, none, some, List, [], ◌∷◌, ◌++◌, String, ℤ, abs, is_neg,
  int_beq, ◌==◌, string_eq, int_eq, Map, lookup, insert, delete, if◌then◌else◌,
}
use text.Mathlib.Text.{starts_with}
use go_sdk_test.Emitter.{BlockchainEvent}
use go_sdk_test.Merkle.{MerkleTree, get_value, insert_leaf}
use go_sdk_test.Snapshot.Service.{Delegate}

pub record EncryptedOutputWithSign : Type 0 where
  pub value : String
  pub is_positive : Bool
  pub is_blocked : Bool

pub record CommitmentEvent : Type 0 where
  pub commitment : ℤ
  pub index : ℤ
  pub encrypted_output : String

-- The keys of `by_commitment` are the numbers whose decimal text the source uses.
pub record Commitments : Type 0 where
  pub merkle_tree : MerkleTree
  pub enc_outputs : List EncryptedOutputWithSign
  pub by_commitment : Map ℤ String

-- The loop that removes the first output of a value.
unfoldable pub remove_output : String → List EncryptedOutputWithSign → List EncryptedOutputWithSign
remove_output v [] = []
remove_output v (o ∷ os) = if o.value == v then os else o ∷ remove_output v os

unfoldable pub has_output : String → List EncryptedOutputWithSign → Bool
has_output v [] = false
has_output v (o ∷ os) = if o.value == v then true else has_output v os

-- What a replaced leaf leaves behind is dropped.
unfoldable pub forget : ℤ → Commitments → Commitments
unfolding remove_output
forget old s = elim (lookup old s.by_commitment) [
  | none ↦ s
  | some old_output ↦ record s {
    enc_outputs = remove_output old_output s.enc_outputs;
    by_commitment = delete old s.by_commitment;
  }
]

unfoldable pub forget_existing : Option ℤ → Commitments → Commitments
unfolding forget
forget_existing none s = s
forget_existing (some old) s = forget old s

-- The end of AcceptEvent: note the output of the commitment, and add it if it is new.
unfoldable pub record_output : Bool → Bool → CommitmentEvent → Commitments → Commitments
unfolding has_output
record_output positive blocked e s = record s {
  by_commitment = insert e.commitment e.encrypted_output s.by_commitment;
  enc_outputs =
      if has_output e.encrypted_output s.enc_outputs
      then s.enc_outputs
      else s.enc_outputs
        ++ record { value = e.encrypted_output; is_positive = positive; is_blocked = blocked } ∷ [];
}

-- `exists && existing.Cmp(event.Commitment) == 0`
unfoldable pub already_known : ℤ → Option ℤ → Bool
already_known c none = false
already_known c (some v) = int_beq v c

-- AcceptEvent; `is_positive` is the sign that the chain gives the output, `none` is the panic of a
-- leaf index below the leaves.
module _ (is_positive : CommitmentEvent → Bool) where
  unfoldable pub accept_commitment :
      CommitmentEvent → ℕ → String → Bool → Commitments → Option (Bool × Commitments)
  unfolding already_known forget_existing record_output get_value
  accept_commitment e block tx blocked s =
      let node_index = abs e.index in
      let existing = get_value node_index s.merkle_tree in
      if already_known e.commitment existing
      then some (false, s)
      else elim (insert_leaf e.commitment node_index s.merkle_tree) [
        | none ↦ none
        | some t ↦ some (
          true,
          record_output (is_positive e) blocked e
              (forget_existing existing (record s { merkle_tree = t })),
        )
      ]

-- commitments.go: an output is positive if its index is not negative.
unfoldable pub evm_is_positive : CommitmentEvent → Bool
evm_is_positive e = not (is_neg e.index)

-- solana_commitments.go: an output is positive unless it is an on-chain UTXO.
unfoldable pub solana_is_positive : CommitmentEvent → Bool
solana_is_positive e = not (starts_with e.encrypted_output "solana-on-chain-utxo:")

unfoldable pub commitments_delegate :
    (CommitmentEvent → Bool)
    → (BlockchainEvent → Option CommitmentEvent)
    → Delegate CommitmentEvent Commitments
unfolding accept_commitment
commitments_delegate is_positive map_event = record {
  map_event = map_event;
  accept_event = accept_commitment is_positive;
}
