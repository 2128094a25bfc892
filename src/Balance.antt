-- ===== src/Balance.antt =====
-- internal/functions/balance/input_utxos.go and balance.go: the outputs of the user, decoded and
-- less the spent ones. Decryption and the cache device are parameters; the keys and the chain are
-- fixed, so they are not arguments.
pub mod Incremental
pub mod Sorted
pub mod Unspent
mod Tests
use go_sdk_test.Common.{
  ℕ, suc, zero, ◌+◌, ◌*◌, ◌-◌, ◌/◌, Bool, true, false, not, ◌&&◌, ◌||◌, Option, none, some, List,
  [], ◌∷◌, ◌++◌, String, ℤ, pos, ◌==◌, string_eq, if◌then◌else◌, Map, lookup, insert, contains,
  length, take, drop, ltb, min, ◌+ℤ◌, map,
}
use mathlib.Core.Option
use go_sdk_test.Utxo.{Primitives, Utxo, get_nullifier}
use go_sdk_test.Snapshot.Commitments.{EncryptedOutputWithSign}
use go_sdk_test.Snapshot.Nullifiers.{Nullifiers}

-- `is_owned` is whether decodeOutput succeeds. `workers` is the number of processors.
pub record Wallet : Type 0 where
  pub primitives : Primitives
  pub decrypt_utxo_hex : String → Option Utxo
  pub decode_utxo : String → Option Utxo
  pub workers : ℕ

unfoldable pub decode_output : Wallet → EncryptedOutputWithSign → Option Utxo
decode_output w out =
    if out.is_positive then w.decrypt_utxo_hex out.value else w.decode_utxo out.value

unfoldable pub decode_outputs : Wallet → List EncryptedOutputWithSign → List Utxo
decode_outputs w [] = []
decode_outputs w (out ∷ outs) =
    let rest = decode_outputs w outs in
    elim (decode_output w out) [
      | none ↦ rest
      | some u ↦ record u { is_blocked = out.is_blocked } ∷ rest
    ]

unfoldable pub owned_flag : Wallet → EncryptedOutputWithSign → Bool
owned_flag w out = elim (decode_output w out) [ none ↦ false | some u ↦ true ]

abbrev pub parallel_decrypt_threshold : ℕ
parallel_decrypt_threshold = 256

-- What one worker writes: the flags of its part of the outputs, from `start` on.
unfoldable pub worker_flags : Wallet → ℕ → ℕ → List EncryptedOutputWithSign → List Bool
worker_flags w start chunk outs = map (owned_flag w) (take chunk (drop start outs))

-- The parts of the workers from `index` on; no two write the same flag, so their order is free. A
-- start behind the outputs ends the loop.
unfoldable pub parallel_flags : Wallet → ℕ → ℕ → ℕ → List EncryptedOutputWithSign → List Bool
unfolding worker_flags
parallel_flags w zero index chunk outs = []
parallel_flags w (suc rounds) index chunk outs =
    let rest = parallel_flags w rounds (index + 1) chunk outs in
    if ltb (index * chunk) (length outs)
    then worker_flags w (index * chunk) chunk outs ++ rest
    else []

unfoldable pub owned_flags : Wallet → List EncryptedOutputWithSign → List Bool
unfolding parallel_flags
owned_flags w outs =
    let workers = min w.workers (length outs) in
    if ltb (length outs) parallel_decrypt_threshold
    then map (owned_flag w) outs
    else parallel_flags w workers 0 ((length outs + workers - 1) / workers) outs

unfoldable pub select_owned :
    List Bool → List EncryptedOutputWithSign → List EncryptedOutputWithSign
select_owned [] outs = []
select_owned (b ∷ bs) [] = []
select_owned (b ∷ bs) (out ∷ outs) =
    let rest = select_owned bs outs in if b then out ∷ rest else rest

unfoldable pub filter_owned_outputs :
    Wallet → List EncryptedOutputWithSign → List EncryptedOutputWithSign
unfolding owned_flags select_owned
filter_owned_outputs w outs = select_owned (owned_flags w outs) outs

-- The UTXOs are kept with the nullifier that GetNullifier noted in them.
unfoldable pub filter_spent_utxos : Wallet → Nullifiers → List Utxo → List Utxo
filter_spent_utxos w nullifiers [] = []
filter_spent_utxos w nullifiers (u ∷ us) =
    let rest = filter_spent_utxos w nullifiers us in
    let (nul, u') = get_nullifier w.primitives u in
    elim nul [ none ↦ rest | some n ↦ if contains n nullifiers then rest else u' ∷ rest ]

-- `none` is -1.
unfoldable pub index_of_output : List EncryptedOutputWithSign → String → Option ℕ
index_of_output [] value = none
index_of_output (out ∷ outs) value =
    let rest = index_of_output outs value in
    if out.value == value then some 0 else Option.map (λ i. i + 1) rest

pub record HinkalCacheInterface : Type 0 where
  pub encrypted_outputs : List EncryptedOutputWithSign
  pub last_output : String

abbrev pub empty_hinkal_cache : HinkalCacheInterface
empty_hinkal_cache = record { encrypted_outputs = []; last_output = "" }

-- lastOutputIndex + 1.
abbrev pub next_index : Option ℕ → ℕ
next_index none = 0
next_index (some i) = i + 1

unfoldable pub last_value : String → List EncryptedOutputWithSign → String
last_value old [] = old
last_value old (out ∷ outs) = last_value out.value outs

-- getInputUtxosLocally: the UTXOs, and the cache that is set.
unfoldable pub get_input_utxos_locally :
    Wallet
    → List EncryptedOutputWithSign
    → HinkalCacheInterface
    → Option ℕ
    → List Utxo × HinkalCacheInterface
unfolding filter_owned_outputs last_value decode_outputs
get_input_utxos_locally w outputs cached last_index =
    let additional = filter_owned_outputs w (drop (next_index last_index) outputs) in
    let new_outputs = cached.encrypted_outputs ++ additional in
    (
      decode_outputs w new_outputs,
      record {
        encrypted_outputs = new_outputs;
        last_output = last_value cached.last_output outputs;
      },
    )

-- What the enclave answers.
pub record RemoteUtxos : Type 0 where
  pub utxos : List Utxo
  pub cache : HinkalCacheInterface

unfoldable pub attempt_get_input_utxos_remotely :
    Wallet
    → Option RemoteUtxos
    → List EncryptedOutputWithSign
    → HinkalCacheInterface
    → Option ℕ
    → List Utxo × HinkalCacheInterface
unfolding get_input_utxos_locally
attempt_get_input_utxos_remotely w none outputs cached last_index =
    get_input_utxos_locally w outputs cached last_index
attempt_get_input_utxos_remotely w (some r) outputs cached last_index = (r.utxos, r.cache)

pub record InputUtxoParams : Type 0 where
  pub reset_cache_before : Bool
  pub allow_remote_decryption : Bool
  pub use_blocked_utxos : Bool
  pub force_read_from_cache : Bool

pub data Source : Type 0 where
  locally remotely from_cache : Source

-- The three cases of GetInputUtxoAndBalance.
unfoldable pub input_source : InputUtxoParams → HinkalCacheInterface → Option ℕ → Source
input_source q cached last_index =
    let case1 : Bool = elim last_index [ none ↦ false | some i ↦ true ] in
    let case2 = (cached.last_output == "") && not case1 in
    if not q.force_read_from_cache && (case1 || (not q.allow_remote_decryption && case2))
    then locally
    else if not q.force_read_from_cache && q.allow_remote_decryption && case2
    then remotely
    else from_cache

unfoldable pub all_utxos :
    Wallet
    → InputUtxoParams
    → Option RemoteUtxos
    → List EncryptedOutputWithSign
    → HinkalCacheInterface
    → List Utxo × HinkalCacheInterface
unfolding input_source index_of_output get_input_utxos_locally attempt_get_input_utxos_remotely
    decode_outputs
all_utxos w q remote outputs cached =
    let last_index = index_of_output outputs cached.last_output in
    elim (input_source q cached last_index) [
      | locally ↦ get_input_utxos_locally w outputs cached last_index
      | remotely ↦ attempt_get_input_utxos_remotely w remote outputs cached last_index
      | from_cache ↦ (decode_outputs w cached.encrypted_outputs, cached)
    ]

unfoldable pub keep_blocked : Bool → List Utxo → List Utxo
keep_blocked wanted [] = []
keep_blocked wanted (u ∷ us) =
    let rest = keep_blocked wanted us in
    if u.is_blocked
    then (if wanted then u ∷ rest else rest)
    else (if wanted then rest else u ∷ rest)

-- GetInputUtxoAndBalance, where the cache can be read and written: the UTXOs and the cache after it.
unfoldable pub get_input_utxo_and_balance :
    Wallet
    → InputUtxoParams
    → Option RemoteUtxos
    → List EncryptedOutputWithSign
    → Nullifiers
    → HinkalCacheInterface
    → List Utxo × HinkalCacheInterface
unfolding all_utxos filter_spent_utxos keep_blocked
get_input_utxo_and_balance w q remote outputs nullifiers held =
    let cached = if q.reset_cache_before then empty_hinkal_cache else held in
    let (utxos, cache') = all_utxos w q remote outputs cached in
    (keep_blocked q.use_blocked_utxos (filter_spent_utxos w nullifiers utxos), cache')

-- balance.go: Compute, with `token_key` for balanceTokenKey.
pub record Balances : Type 0 where
  pub balances : Map String ℤ
  pub utxos : List Utxo

unfoldable pub add_balance : String → ℤ → Map String ℤ → Map String ℤ
add_balance token amount m =
    insert token (elim (lookup token m) [ none ↦ pos 0 +ℤ amount | some b ↦ b +ℤ amount ]) m

unfoldable pub count_utxo : (Utxo → Option String) → Utxo → Balances → Balances
unfolding add_balance
count_utxo token_key u res = if u.is_blocked then res else elim (token_key u) [
  | none ↦ res
  | some token ↦ record {
    balances = add_balance token u.amount res.balances;
    utxos = res.utxos ++ u ∷ [];
  }
]

unfoldable pub compute :
    Wallet
    → (Utxo → Option String)
    → Nullifiers
    → List EncryptedOutputWithSign
    → Balances
    → Balances
unfolding count_utxo decode_output
compute w token_key nullifiers [] res = res
compute w token_key nullifiers (out ∷ outs) res =
    let counted : Balances = elim (decode_output w out) [
      | none ↦ res
      | some u ↦
          let (nul, u') = get_nullifier w.primitives (record u { is_blocked = out.is_blocked }) in
          elim nul [
            | none ↦ res
            | some n ↦ if contains n nullifiers then res else count_utxo token_key u' res
          ]
    ] in
    compute w token_key nullifiers outs counted

-- input_utxos_per_token.go: sort.SliceStable by descending amount.
