-- ===== src/Hinkal.antt =====
-- data-structures/hinkal/hinkal_providers.go, and GetSupportedChains of hinkal.go: the adapters that a
-- Hinkal object holds for each kind of chain. An adapter is behind an interface: its calls are
-- parameters, and `id` tells one object from another. A lock is held around each access.
pub mod Adapters
pub mod Supported
mod Tests
use go_sdk_test.Common.{
  ℕ, Bool, true, false, not, ◌&&◌, Option, none, some, List, [], ◌∷◌, ◌++◌, String, nat_beq, Result,
  ok, err, ◌>>=◌, ◌>>◌, require, if◌then◌else◌,
}
use go_sdk_test.Chains.{
  chain_ids, current_solana_chain_id, is_solana_like, is_tron_like, is_evm_only,
  hinkal_supported_chains, wallet_supported_chains, select_chains,
}

-- What the type switches of the source tell apart.
pub data AdapterKind : Type 0 where
  ethers : AdapterKind
  solana_kind : AdapterKind
  tron_kind : AdapterKind

pub record ProviderAdapter : Type 0 where
  pub id : ℕ
  pub kind : AdapterKind

pub data ProviderError : Type 0 where
  adapter_not_initialized : ProviderError
  not_solana_adapter : ProviderError
  not_tron_adapter : ProviderError
  adapter_failed : String → ProviderError

-- The fields of the object that concern adapters. `released` is not one of them: it lists the
-- adapters whose Release was called, the last call first.
pub record Hinkal : Type 0 where
  pub ethereum_provider_adapter : Option ProviderAdapter
  pub solana_provider_adapter : Option ProviderAdapter
  pub tron_provider_adapter : Option ProviderAdapter
  pub tron_chain_id : ℕ
  pub released : List ℕ

abbrev pub no_adapters : ℕ → Hinkal
no_adapters tron_chain_id = record {
  ethereum_provider_adapter = none;
  solana_provider_adapter = none;
  tron_provider_adapter = none;
  tron_chain_id = tron_chain_id;
  released = [];
}

abbrev pub is_some {ℓ} : {A : Type ℓ} → Option A → Bool
is_some none = false
is_some (some a) = true

abbrev pub or_zero_chain : Option ℕ → ℕ
or_zero_chain none = 0
or_zero_chain (some id) = id

abbrev pub final_chain_id : Option ℕ → Hinkal → ℕ
final_chain_id chain h =
    if nat_beq (or_zero_chain chain) 0
    then (if is_some h.ethereum_provider_adapter
        then chain_ids.eth_mainnet
        else if is_some h.solana_provider_adapter
        then current_solana_chain_id
        else h.tron_chain_id)
    else or_zero_chain chain

abbrev pub adapter_of_chain : ℕ → Hinkal → Option ProviderAdapter
adapter_of_chain id h =
    if is_solana_like id
    then h.solana_provider_adapter
    else if is_tron_like id
    then h.tron_provider_adapter
    else h.ethereum_provider_adapter

unfoldable pub get_provider_adapter : Option ℕ → Hinkal → Result ProviderError ProviderAdapter
unfolding is_solana_like is_tron_like
get_provider_adapter chain h =
    require (adapter_of_chain (final_chain_id chain h) h) adapter_not_initialized

-- The adapter that a new one replaces is released.
abbrev pub release : Option ProviderAdapter → List ℕ → List ℕ
release none log = log
release (some a) log = a.id ∷ log

unfoldable pub update_provider_adapter : ℕ → ProviderAdapter → Hinkal → Hinkal
unfolding is_solana_like is_tron_like
update_provider_adapter id a h =
    if is_solana_like id
    then record h {
      solana_provider_adapter = some a;
      released = release h.solana_provider_adapter h.released;
    }
    else if is_tron_like id
    then record h {
      tron_provider_adapter = some a;
      released = release h.tron_provider_adapter h.released;
    }
    else record h {
      ethereum_provider_adapter = some a;
      released = release h.ethereum_provider_adapter h.released;
    }

abbrev pub default_chain_id : AdapterKind → Hinkal → ℕ
default_chain_id ethers h = chain_ids.eth_mainnet
default_chain_id solana_kind h = current_solana_chain_id
default_chain_id tron_kind h = h.tron_chain_id

-- `connect` is ConnectAndPatchProvider, `init` is Init of the adapter. `none` is the nil adapter.
unfoldable pub init_provider_adapter :
    (ProviderAdapter → Result ProviderError ℕ)
    → (ProviderAdapter → ℕ → Result ProviderError (Unit {0}))
    → Option ProviderAdapter
    → Hinkal
    → Result ProviderError (Unit {0}) × Hinkal
unfolding update_provider_adapter
init_provider_adapter connect init none h = (err adapter_not_initialized, h)
init_provider_adapter connect init (some a) h =
    (connect a >>= λ chain. init a chain, update_provider_adapter (default_chain_id a.kind h) a h)

unfoldable pub reset_provider_adapters : Hinkal → Hinkal
reset_provider_adapters h = record h {
  ethereum_provider_adapter = none;
  solana_provider_adapter = none;
  tron_provider_adapter = none;
  released =
      release h.tron_provider_adapter
        (release h.solana_provider_adapter (release h.ethereum_provider_adapter h.released));
}

unfoldable pub destroy : Hinkal → Result ProviderError (Unit {0}) × Hinkal
unfolding reset_provider_adapters
destroy h = (ok tt, reset_provider_adapters h)

-- The loop of DisconnectFromConnector over the three adapters; it returns the errors to join.
abbrev pub join_error :
    (ProviderAdapter → Option String) → Option ProviderAdapter → List String → List String
join_error disconnect none errs = errs
join_error disconnect (some a) errs = elim (disconnect a) [ none ↦ errs | some e ↦ e ∷ errs ]

unfoldable pub disconnect_from_connector : (ProviderAdapter → Option String) → Hinkal → List String
disconnect_from_connector disconnect h = join_error disconnect h.ethereum_provider_adapter (
    join_error disconnect h.solana_provider_adapter
      (join_error disconnect h.tron_provider_adapter []))

-- A call that the adapter of a chain answers.
module _ {ℓ} {A : Type ℓ} (call : ProviderAdapter → Result ProviderError A) where
  unfoldable pub wait_for_transaction : ℕ → Hinkal → Result ProviderError A
  unfolding get_provider_adapter
  wait_for_transaction chain h = get_provider_adapter (some chain) h >>= call

  unfoldable pub get_ethereum_address_by_chain : ℕ → Hinkal → Result ProviderError A
  unfolding get_provider_adapter
  get_ethereum_address_by_chain chain h = get_provider_adapter (some chain) h >>= call

  unfoldable pub get_gas_price : ℕ → Hinkal → Result ProviderError A
  unfolding get_provider_adapter
  get_gas_price chain h = get_provider_adapter (some chain) h >>= call

  unfoldable pub send_transaction : ℕ → Hinkal → Result ProviderError A
  unfolding get_provider_adapter
  send_transaction chain h = get_provider_adapter (some chain) h >>= call

  unfoldable pub get_fetch_client : ℕ → Hinkal → Result ProviderError A
  unfolding get_provider_adapter
  get_fetch_client chain h = get_provider_adapter (some chain) h >>= call

  unfoldable pub get_transact_opts : ℕ → Hinkal → Result ProviderError A
  unfolding get_provider_adapter
  get_transact_opts chain h = get_provider_adapter (some chain) h >>= call

  -- Without a chain: SignMessage and SignTypedData, of the message as it is.
  unfoldable pub sign_message : Hinkal → Result ProviderError A
  unfolding get_provider_adapter
  sign_message h = get_provider_adapter none h >>= call

  unfoldable pub sign_typed_data : Hinkal → Result ProviderError A
  unfolding get_provider_adapter
  sign_typed_data h = get_provider_adapter none h >>= call

  -- GetEthereumAddress asks the first adapter that there is.
  abbrev pub first_adapter : Hinkal → Option ProviderAdapter
  first_adapter h =
      if is_some h.ethereum_provider_adapter
      then h.ethereum_provider_adapter
      else if is_some h.solana_provider_adapter
      then h.solana_provider_adapter
      else h.tron_provider_adapter

  unfoldable pub get_ethereum_address : Hinkal → Result ProviderError A
  get_ethereum_address h = require (first_adapter h) adapter_not_initialized >>= call

-- `chain_of` is GetChainID of the adapter, `switch` its SwitchNetwork.
unfoldable pub switch_network :
    (ProviderAdapter → Option ℕ)
    → (ProviderAdapter → ℕ → Result ProviderError (Unit {0}))
    → ℕ
    → Hinkal
    → Result ProviderError (Unit {0})
unfolding get_provider_adapter
switch_network chain_of switch target h = get_provider_adapter none h >>= λ a. elim (chain_of a) [
  | none ↦ switch a target
  | some current ↦ if nat_beq target current then ok tt else switch a target
]

abbrev pub is_permitter_available : (ProviderAdapter → Bool) → ℕ → Hinkal → Bool
is_permitter_available available chain h = elim (get_provider_adapter (some chain) h) [
  | ok a ↦ available a
  | err e ↦ false
]

unfoldable pub solana_adapter : Hinkal → Result ProviderError ProviderAdapter
solana_adapter h = require h.solana_provider_adapter adapter_not_initialized >>= λ a. elim a.kind [
  | solana_kind ↦ ok a
  | ethers ↦ err not_solana_adapter
  | tron_kind ↦ err not_solana_adapter
]

unfoldable pub get_supported_chains : Hinkal → List ℕ
unfolding wallet_supported_chains select_chains is_solana_like is_tron_like
get_supported_chains h =
    if is_some h.ethereum_provider_adapter && is_some h.solana_provider_adapter
    then wallet_supported_chains
    else if is_some h.ethereum_provider_adapter
    then select_chains is_evm_only hinkal_supported_chains
    else if is_some h.solana_provider_adapter
    then select_chains is_solana_like hinkal_supported_chains
    else if is_some h.tron_provider_adapter
    then h.tron_chain_id ∷ []
    else []
