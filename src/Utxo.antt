-- ===== src/Utxo.antt =====
-- internal/utxo/utxo.go: unspent outputs, whose commitment, nullifier and stealth address are
-- computed on first use and kept. An error is `none`. Every caller gives an amount, so it is a
-- number; `none` in a patch is nil, and "" is the empty text, as in the source.
pub mod Caching
pub mod Tests
use go_sdk_test.Common.{
  Bool, true, false, ◌&&◌, not, Option, none, some, List, [], ◌∷◌, String, ℤ, ◌==◌, string_eq,
  if◌then◌else◌,
}
use mathlib.Core.Option

-- What the code takes from hashing, elliptic curves, the clock and the random source.
pub record Primitives : Type 0 where
  pub now : String
  pub parse_big_int : String → Option ℤ
  pub to_be_hex : ℤ → String
  pub poseidon : List ℤ → Option ℤ
  pub random_randomization : String → Option ℤ
  pub find_h0 : ℤ → String → Option (ℤ × ℤ)
  pub get_stealth_address_new_style : ℤ × ℤ → String → List ℤ → Option String
  pub get_stealth_address_old_style : ℤ → String → Option String
  pub encryption_public_key : String → Option String

-- types.UtxoParams, and the struct Utxo with the same fields.
pub record Utxo : Type 0 where
  pub amount : ℤ
  pub erc20_token_address : String
  pub mint_address : String
  pub time_stamp : String
  pub nullifying_key : String
  pub spending_public_key : List ℤ
  pub randomization : Option ℤ
  pub h0 : Option (ℤ × ℤ)
  pub stealth_address : String
  pub encryption_key : String
  pub commitment : String
  pub nullifier : String
  pub is_blocked : Bool
  pub is_new_style : Bool

-- types.UtxoParams as a patch.
pub record UtxoPatch : Type 0 where
  pub amount : Option ℤ
  pub erc20_token_address : String
  pub mint_address : String
  pub time_stamp : String
  pub nullifying_key : String
  pub spending_public_key : Option (List ℤ)
  pub randomization : Option ℤ
  pub h0 : Option (ℤ × ℤ)
  pub stealth_address : String
  pub encryption_key : String
  pub commitment : String
  pub nullifier : String
  pub is_blocked : Bool
  pub is_new_style : Bool

-- `if patch.F != "" { dst.F = patch.F }`, and the same for pointers.
abbrev pub patch_text : String → String → String
patch_text patch old = if patch == "" then old else patch

abbrev pub patch_value : {A : Type 0} → Option A → A → A
patch_value none old = old
patch_value (some v) old = v

abbrev pub patch_pointer : {A : Type 0} → Option A → Option A → Option A
patch_pointer none old = old
patch_pointer (some v) old = some v

-- applyPatch has no line for the two flags.
unfoldable pub apply_patch : Utxo → UtxoPatch → Utxo
apply_patch dst patch = record dst {
  amount = patch_value patch.amount dst.amount;
  erc20_token_address = patch_text patch.erc20_token_address dst.erc20_token_address;
  mint_address = patch_text patch.mint_address dst.mint_address;
  time_stamp = patch_text patch.time_stamp dst.time_stamp;
  nullifying_key = patch_text patch.nullifying_key dst.nullifying_key;
  spending_public_key = patch_value patch.spending_public_key dst.spending_public_key;
  randomization = patch_pointer patch.randomization dst.randomization;
  h0 = patch_pointer patch.h0 dst.h0;
  stealth_address = patch_text patch.stealth_address dst.stealth_address;
  encryption_key = patch_text patch.encryption_key dst.encryption_key;
  commitment = patch_text patch.commitment dst.commitment;
  nullifier = patch_text patch.nullifier dst.nullifier;
}

unfoldable pub get_constructable_params : Utxo → Utxo
get_constructable_params u = u

-- GetBasicUtxoParams leaves out the keys.
unfoldable pub get_basic_utxo_params : Utxo → Utxo
get_basic_utxo_params u = record u {
  nullifying_key = "";
  spending_public_key = [];
  encryption_key = "";
}

unfoldable pub get_token_address : Bool → Utxo → Option String
get_token_address is_solana u =
    let token_address = if is_solana then u.mint_address else u.erc20_token_address in
    if token_address == "" then none else some token_address

module _ (p : Primitives) where
  -- The randomization of NewUtxo: drawn if it is missing and there is a key to draw it for.
  unfoldable pub drawn_randomization : Utxo → Option (Option ℤ)
  drawn_randomization params = elim params.randomization [
    | some r ↦ some (some r)
    | none ↦
        if params.nullifying_key == ""
        then some none
        else Option.map some (p.random_randomization params.nullifying_key)
  ]

  unfoldable pub derived_h0 : Utxo → Option ℤ → Option (Option (ℤ × ℤ))
  derived_h0 params randomization = elim params.h0 [
    | some h ↦ some (some h)
    | none ↦
        if params.is_new_style
        then elim randomization [
          | none ↦ some none
          | some r ↦ Option.map some (p.find_h0 r params.nullifying_key)
        ]
        else some none
  ]

  unfoldable pub new_utxo : Utxo → Option Utxo
  unfolding drawn_randomization derived_h0 Option.bind
  new_utxo params = Option.bind (drawn_randomization params) (λ r.
      Option.map
        (λ h. record params {
          time_stamp = if params.time_stamp == "" then p.now else params.time_stamp;
          randomization = r;
          h0 = h;
        })
        (derived_h0 params r))

  unfoldable pub create_from : Utxo → UtxoPatch → Option Utxo
  unfolding apply_patch get_constructable_params new_utxo
  create_from src patch = new_utxo (
      apply_patch (record (get_constructable_params src) { commitment = ""; nullifier = "" }) patch)

  -- The address that GetStealthAddress computes where none is kept.
  unfoldable pub computed_stealth_address : Utxo → Option String
  unfolding Option.bind
  computed_stealth_address u =
      if u.nullifying_key == ""
      then none
      else if u.is_new_style
      then Option.bind u.h0
          (λ h. p.get_stealth_address_new_style h u.nullifying_key u.spending_public_key)
      else Option.bind u.randomization (λ r. p.get_stealth_address_old_style r u.nullifying_key)

  -- The getters return the UTXO with what they kept.
  unfoldable pub get_stealth_address : Utxo → Option String × Utxo
  get_stealth_address u =
      if u.stealth_address == ""
      then elim (computed_stealth_address u) [
        | none ↦ (none, u)
        | some a ↦ (some a, record u { stealth_address = a })
      ]
      else (some u.stealth_address, u)

  -- The hash of GetCommitment, on a stealth address.
  unfoldable pub computed_commitment : Utxo → String → Option String
  unfolding Option.bind
  computed_commitment u stealth = Option.bind (p.parse_big_int u.erc20_token_address) (λ token.
      Option.bind (p.parse_big_int stealth) (λ s.
        Option.bind (p.parse_big_int u.time_stamp)
          (λ ts. Option.map p.to_be_hex (p.poseidon (u.amount ∷ token ∷ s ∷ ts ∷ [])))))

  unfoldable pub keep_commitment : Utxo → Option String → Option String × Utxo
  keep_commitment u none = (none, u)
  keep_commitment u (some c) = (some c, record u { commitment = c })

  unfoldable pub get_commitment : Utxo → Option String × Utxo
  get_commitment u =
      let (stealth, u') = get_stealth_address u in
      if u.commitment == ""
      then elim stealth [
        | none ↦ (none, u')
        | some s ↦ keep_commitment u' (computed_commitment u' s)
      ]
      else (some u.commitment, u)

  -- The hashes of GetNullifier, on a commitment.
  unfoldable pub computed_nullifier : Utxo → String → Option String
  unfolding Option.bind
  computed_nullifier u commitment = Option.bind (p.parse_big_int commitment) (λ c.
      Option.bind (p.parse_big_int u.nullifying_key) (λ nk.
        Option.bind (p.poseidon (nk ∷ c ∷ []))
          (λ signature. Option.map p.to_be_hex (p.poseidon (c ∷ signature ∷ [])))))

  unfoldable pub keep_nullifier : Utxo → Option String → Option String × Utxo
  keep_nullifier u none = (none, u)
  keep_nullifier u (some n) = (some n, record u { nullifier = n })

  unfoldable pub get_nullifier : Utxo → Option String × Utxo
  get_nullifier u =
      let (commitment, u') = get_commitment u in
      if u.nullifier == ""
      then if u.nullifying_key == "" then (none, u) else elim commitment [
        | none ↦ (none, u')
        | some c ↦ keep_nullifier u' (computed_nullifier u' c)
      ]
      else (some u.nullifier, u)

  unfoldable pub get_encryption_key : Utxo → Option String
  get_encryption_key u =
      if u.nullifying_key == ""
      then if u.encryption_key == "" then none else some u.encryption_key
      else p.encryption_public_key u.nullifying_key
