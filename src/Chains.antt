-- ===== src/Chains.antt =====
-- constants/chains.go: the chains, their kinds, the lists of them and the depths of their reorgs.
pub mod Lists
use go_sdk_test.Common.{
  ℕ, Bool, true, false, not, ◌&&◌, ◌||◌, Option, none, some, List, [], ◌∷◌, ◌++◌, nat_beq, Map,
  nat_eq, lookup, if◌then◌else◌,
}

-- type chainIDs
pub record ChainIds : Type 0 where
  pub polygon : ℕ
  pub arb_mainnet : ℕ
  pub eth_mainnet : ℕ
  pub optimism : ℕ
  pub base : ℕ
  pub localhost : ℕ
  pub arc_testnet : ℕ
  pub sepolia_testnet : ℕ
  pub solana_mainnet : ℕ
  pub solana_localnet : ℕ
  pub tron_nile : ℕ
  pub tron_localnet : ℕ
  pub tron_mainnet : ℕ
  pub tempo : ℕ
  pub bnb_mainnet : ℕ
  pub avalanche : ℕ
  pub cronos : ℕ
  pub monad : ℕ
  pub plasma : ℕ
  pub ink : ℕ
  pub hyper_evm : ℕ

abbrev pub chain_ids : ChainIds
chain_ids = record {
  polygon = 137;
  arb_mainnet = 42161;
  eth_mainnet = 1;
  optimism = 10;
  base = 8453;
  localhost = 31337;
  arc_testnet = 5042002;
  sepolia_testnet = 11155111;
  solana_mainnet = 501;
  solana_localnet = 102;
  tron_nile = 3448148188;
  tron_localnet = 103;
  tron_mainnet = 728126428;
  tempo = 4217;
  bnb_mainnet = 56;
  avalanche = 43114;
  cronos = 25;
  monad = 143;
  plasma = 9745;
  ink = 57073;
  hyper_evm = 999;
}

-- `contains` of the source
unfoldable pub contains_id : List ℕ → ℕ → Bool
contains_id [] val = false
contains_id (v ∷ vs) val = let rest = contains_id vs val in if nat_beq v val then true else rest

-- The loops that select chains from a list.
unfoldable pub select_chains : (ℕ → Bool) → List ℕ → List ℕ
select_chains keep [] = []
select_chains keep (id ∷ ids) =
    let rest = select_chains keep ids in if keep id then id ∷ rest else rest

abbrev pub tron_chain_ids : List ℕ
tron_chain_ids = chain_ids.tron_nile ∷ chain_ids.tron_mainnet ∷ chain_ids.tron_localnet ∷ []

abbrev pub solana_chain_ids : List ℕ
solana_chain_ids = chain_ids.solana_mainnet ∷ chain_ids.solana_localnet ∷ []

abbrev pub hinkal_supported_chains : List ℕ
hinkal_supported_chains =
    chain_ids.eth_mainnet ∷ chain_ids.optimism ∷ chain_ids.base ∷ chain_ids.polygon
    ∷ chain_ids.arb_mainnet ∷ chain_ids.arc_testnet ∷ chain_ids.solana_mainnet
    ∷ chain_ids.sepolia_testnet ∷ chain_ids.tron_mainnet ∷ chain_ids.tron_nile ∷ chain_ids.tempo
    ∷ []

unfoldable pub is_optimism_like : ℕ → Bool
is_optimism_like id = nat_beq id chain_ids.optimism || nat_beq id chain_ids.base

unfoldable pub is_solana_like : ℕ → Bool
unfolding contains_id
is_solana_like id = contains_id solana_chain_ids id

unfoldable pub is_tron_like : ℕ → Bool
unfolding contains_id
is_tron_like id = contains_id tron_chain_ids id

unfoldable pub is_sepolia_testnet : ℕ → Bool
is_sepolia_testnet id = nat_beq id chain_ids.sepolia_testnet

unfoldable pub is_tempo : ℕ → Bool
is_tempo id = nat_beq id chain_ids.tempo

abbrev pub is_evm_only : ℕ → Bool
is_evm_only id = not (is_solana_like id) && not (is_tron_like id)

unfoldable pub evm_chain_ids : List ℕ
unfolding select_chains is_solana_like is_tron_like
evm_chain_ids = select_chains is_evm_only hinkal_supported_chains

unfoldable pub is_evm_chain : ℕ → Bool
unfolding evm_chain_ids contains_id
is_evm_chain id = contains_id evm_chain_ids id

abbrev pub current_solana_chain_id : ℕ
current_solana_chain_id = chain_ids.solana_mainnet

-- `production` is `Mode == DeploymentModeProduction`.
abbrev pub current_tron_chain_id : Bool → ℕ
current_tron_chain_id production =
    if not production then chain_ids.tron_nile else chain_ids.tron_mainnet

abbrev pub is_wallet_chain : ℕ → Bool
is_wallet_chain id = not (is_tron_like id) && not (is_sepolia_testnet id) && not (is_tempo id)

unfoldable pub wallet_supported_chains : List ℕ
unfolding select_chains is_tron_like is_sepolia_testnet is_tempo
wallet_supported_chains = select_chains is_wallet_chain hinkal_supported_chains

abbrev pub is_bridge_source : ℕ → Bool
is_bridge_source id =
    not (nat_beq id chain_ids.arc_testnet)
    && not (is_sepolia_testnet id)
    && not (is_tron_like id && not (nat_beq id chain_ids.tron_mainnet))

unfoldable pub bridge_supported_chains : List ℕ
unfolding select_chains is_tron_like is_sepolia_testnet
bridge_supported_chains = select_chains is_bridge_source hinkal_supported_chains

abbrev pub bridge_destination_only_chains : List ℕ
bridge_destination_only_chains =
    chain_ids.bnb_mainnet ∷ chain_ids.avalanche ∷ chain_ids.cronos ∷ chain_ids.monad
    ∷ chain_ids.plasma ∷ chain_ids.ink ∷ chain_ids.hyper_evm ∷ []

unfoldable pub bridge_destination_chains : List ℕ
unfolding bridge_supported_chains
bridge_destination_chains = bridge_supported_chains ++ bridge_destination_only_chains

unfoldable pub is_hinkal_supported_chain : ℕ → Bool
unfolding contains_id
is_hinkal_supported_chain id = contains_id hinkal_supported_chains id

unfoldable pub is_bridge_supported_chain : ℕ → Bool
unfolding contains_id bridge_supported_chains
is_bridge_supported_chain id = contains_id bridge_supported_chains id

unfoldable pub is_bridge_destination_only_chain : ℕ → Bool
unfolding contains_id
is_bridge_destination_only_chain id = contains_id bridge_destination_only_chains id

unfoldable pub is_bridge_destination_chain : ℕ → Bool
unfolding contains_id bridge_destination_chains
is_bridge_destination_chain id = contains_id bridge_destination_chains id

unfoldable pub uses_near_intents_bridge : ℕ → Bool
unfolding is_solana_like is_tron_like
uses_near_intents_bridge id = is_solana_like id || is_tron_like id

-- Source chains; `is_near_supported` is IsNearBridgeSupportedChain.
unfoldable pub get_bridge_destination_chains : (ℕ → Bool) → Option ℕ → List ℕ
unfolding uses_near_intents_bridge select_chains bridge_destination_chains
get_bridge_destination_chains is_near_supported none = bridge_destination_chains
get_bridge_destination_chains is_near_supported (some source) =
    if uses_near_intents_bridge source
    then select_chains is_near_supported bridge_destination_chains
    else bridge_destination_chains
