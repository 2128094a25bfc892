-- ===== src/Proof.antt =====
-- internal/functions/snarkjs/common.go, and EnsureAmountChanges of construct_solana_zk_proof.go: the
-- public values of a proof. The field of the circuits is a parameter, as is what is hashed. The
-- values that a UTXO keeps as it is asked for them are left out: asking again gives the same.
pub mod Amounts
pub mod Balanced
mod Tests
use go_sdk_test.Common.{
  ℕ, ◌+◌, Bool, true, false, not, ◌&&◌, Option, none, some, List, [], ◌∷◌, String, ℤ, pos, ◌+ℤ◌,
  ◌-ℤ◌, is_neg, is_zero, int_beq, ◌==◌, string_eq, length, Result, ok, err, fail_if, if◌then◌else◌,
}
use mathlib.Core.Option
use go_sdk_test.Utxo.{Primitives, Utxo, get_nullifier, get_commitment}
use go_sdk_test.Funds.{count_total_amount_in_utxos}

pub data ProofError : Type 0 where
  amount_changes_differ : ProofError

abbrev pub zero_sender : String
zero_sender = "0x0000000000000000000000000000000000000000"

-- GetOriginalSender
unfoldable pub get_original_sender : String → String → String
get_original_sender external_address relay =
    if relay == zero_sender
    then (if external_address == "" then zero_sender else external_address)
    else zero_sender

-- A row of BuildInNullifiers; an error of GetNullifier ends the loops.
unfoldable pub row_nullifiers : Primitives → Bool → List Utxo → Option (List String)
row_nullifiers p created [] = some []
row_nullifiers p created (u ∷ us) =
    let rest = row_nullifiers p created us in
    let nullifier = if created then some "0" else (get_nullifier p u).0 in
    elim nullifier [ none ↦ none | some n ↦ Option.map (λ ns. n ∷ ns) rest ]

-- The outer `none` is the panic on a row without a flag, unless an error came before it.
unfoldable pub build_in_nullifiers :
    Primitives → List (List Utxo) → List Bool → Option (Option (List (List String)))
unfolding row_nullifiers
build_in_nullifiers p [] flags = some (some [])
build_in_nullifiers p ([] ∷ rows) [] =
    let rest = build_in_nullifiers p rows [] in
    elim rest [ none ↦ none | some others ↦ some (Option.map (λ ns. [] ∷ ns) others) ]
build_in_nullifiers p ((u ∷ us) ∷ rows) [] = none
build_in_nullifiers p (row ∷ rows) (created ∷ flags) =
    let rest = build_in_nullifiers p rows flags in
    elim (row_nullifiers p created row) [
      | none ↦ some none
      | some ns ↦ elim rest [
        | none ↦ none
        | some others ↦ some (Option.map (λ nss. ns ∷ nss) others)
      ]
    ]

unfoldable pub row_has_only_zero : List Utxo → Bool
row_has_only_zero [] = true
row_has_only_zero (u ∷ us) =
    let rest = row_has_only_zero us in if is_zero u.amount then rest else false

unfoldable pub rows_have_only_zero : List (List Utxo) → Bool
unfolding row_has_only_zero
rows_have_only_zero [] = true
rows_have_only_zero (row ∷ rows) =
    let rest = rows_have_only_zero rows in if row_has_only_zero row then rest else false

-- hasOnlyZeroAmounts: no rows at all do not count.
unfoldable pub has_only_zero_amounts : List (List Utxo) → Bool
unfolding rows_have_only_zero
has_only_zero_amounts [] = false
has_only_zero_amounts (row ∷ rows) = rows_have_only_zero (row ∷ rows)

unfoldable pub row_commitments : Primitives → List Utxo → Option (List String)
row_commitments p [] = some []
row_commitments p (u ∷ us) =
    let rest = row_commitments p us in
    let commitment = if is_zero u.amount then some "0" else (get_commitment p u).0 in
    elim commitment [ none ↦ none | some c ↦ Option.map (λ cs. c ∷ cs) rest ]

unfoldable pub build_out_commitments : Primitives → List (List Utxo) → Option (List (List String))
unfolding row_commitments
build_out_commitments p [] = some []
build_out_commitments p (row ∷ rows) =
    let rest = build_out_commitments p rows in
    elim (row_commitments p row) [ none ↦ none | some cs ↦ Option.map (λ css. cs ∷ css) rest ]

-- What the outputs of a token are more than its inputs, as an element of the field of size
-- `field_p` unless it is for the circom data.
unfoldable pub amount_change : ℕ → Bool → List Utxo → List Utxo → ℤ
unfolding ◌+ℤ◌ ◌-ℤ◌
amount_change field_p for_circom ins outs =
    let diff = count_total_amount_in_utxos outs -ℤ count_total_amount_in_utxos ins in
    if is_neg diff && not for_circom then pos field_p +ℤ diff else diff

-- CalcAmountChanges: a token without outputs has none.
unfoldable pub calc_amount_changes : ℕ → Bool → List (List Utxo) → List (List Utxo) → List ℤ
unfolding amount_change
calc_amount_changes field_p for_circom [] outs = []
calc_amount_changes field_p for_circom (row ∷ rows) [] =
    amount_change field_p for_circom row [] ∷ calc_amount_changes field_p for_circom rows []
calc_amount_changes field_p for_circom (row ∷ rows) (out ∷ outs) =
    amount_change field_p for_circom row out ∷ calc_amount_changes field_p for_circom rows outs

unfoldable pub get_slippage_values : List ℤ → List ℤ
get_slippage_values [] = []
get_slippage_values (am ∷ ams) = (if is_neg am then am else pos 0) ∷ get_slippage_values ams

abbrev pub normalized : ℕ → ℤ → ℤ
normalized field_p amount = if is_neg amount then pos field_p +ℤ amount else amount

-- The lengths are compared before the amounts.
unfoldable pub amounts_agree : ℕ → List ℤ → List ℤ → Bool
amounts_agree field_p [] [] = true
amounts_agree field_p [] (a ∷ rest_changes) = false
amounts_agree field_p (d ∷ ds) [] = false
amounts_agree field_p (d ∷ ds) (a ∷ rest_changes) =
    let rest = amounts_agree field_p ds rest_changes in
    if int_beq d (normalized field_p a) then rest else false

unfoldable pub ensure_amount_changes :
    ℕ → List (List Utxo) → List (List Utxo) → List ℤ → Result ProofError (Unit {0})
unfolding calc_amount_changes amounts_agree
ensure_amount_changes field_p ins outs changes =
    fail_if (not (amounts_agree field_p (calc_amount_changes field_p false ins outs) changes))
      amount_changes_differ

-- The names that GetZkProofVerifierName forms: mainEVMCircuitMin0, and mainEVMCircuit with the
-- numbers of tokens, inputs and outputs.
pub data VerifierName : Type 0 where
  min0 : VerifierName
  circuit : ℕ → ℕ → ℕ → VerifierName

-- `none` is the panic on no inputs.
unfoldable pub get_zk_proof_verifier_name :
    List (List Utxo) → List (List Utxo) → Option VerifierName
get_zk_proof_verifier_name ins [] = some min0
get_zk_proof_verifier_name [] (out ∷ outs) = none
get_zk_proof_verifier_name (row ∷ rows) (out ∷ outs) =
    some (circuit (length (row ∷ rows)) (length row) (length out))

unfoldable pub flat_len {ℓ} : {A : Type ℓ} → List (List A) → ℕ
flat_len [] = 0
flat_len (inner ∷ rest) = length inner + flat_len rest

-- The root, the message hash, the time stamp, the calldata hash, the message, the two coordinates,
-- the signs and the stealth address are one signal each.
unfoldable pub calc_public_signal_count :
    VerifierName → List String → List ℤ → List (List String) → List (List String) → ℕ
unfolding flat_len
calc_public_signal_count min0 tokens changes nullifiers commitments = 3
calc_public_signal_count (circuit t i o) tokens changes nullifiers commitments =
    1
    + 1
    + length tokens
    + length changes
    + 1
    + flat_len nullifiers
    + flat_len commitments
    + 1
    + 1
    + 1
    + 1
    + 1
    + 1
