-- ===== src/Emporium.antt =====
-- internal/functions/private-wallet/emporium_ops.go: the operations that the Emporium contract runs,
-- packed as bytes. A text is the list of its bytes. The hex and address codecs and the call data of
-- go-ethereum are parameters, and so is the deploy data behind GetContractData.
pub mod Bytes
pub mod Convert
pub mod Plan
pub mod Bridge
mod Tests
use go_sdk_test.Common.{
  ℕ, zero, suc, ◌+◌, ◌*◌, ◌-◌, ◌/◌, ◌%◌, ◌^◌, Bool, true, false, ◌||◌, ◌&&◌, not, Option, none,
  some, List, [], ◌∷◌, ◌++◌, ℤ, pos, abs, ◌+ℤ◌, is_neg, is_zero, leb, ltb, nat_beq, length,
  replicate, take, drop, Result, ok, err, ◌>>=◌, ◌>>◌, fail_if, require, if◌then◌else◌,
}
use go_sdk_test.Decimal.{Text}

-- The calls of go-ethereum and of the standard library. Pack of the ERC-20 call data may fail.
pub record Codec : Type 0 where
  pub from_hex : Text → List ℕ
  pub to_hex : List ℕ → Text
  pub address_hex : List ℕ → Text
  pub pack_transfer : Text → Option ℤ → Option (List ℕ)
  pub pack_approve : Text → Option ℤ → Option (List ℕ)
  pub equal_fold : Text → Text → Bool

pub data EmporiumError : Type 0 where
  invalid_endpoint : Text → EmporiumError
  value_too_large : EmporiumError
  pack_failed : EmporiumError
  fund_mismatch : EmporiumError
  approve_mismatch : EmporiumError
  invalid_op : EmporiumError
  unknown_chain : EmporiumError

-- constants.ZeroAddress: "0x" and forty zeros.
abbrev pub zero_address : Text
zero_address = b'0' ∷ b'x' ∷ replicate 40 b'0'

-- type CallInfo
pub record CallInfo : Type 0 where
  pub from : Text
  pub to : Text
  pub calldata : Text
  pub value : ℤ

-- type BridgeQuote, as far as it is read
pub record BridgeQuote : Type 0 where
  pub calldata : Text
  pub native_fee : Option ℤ

-- FillBytes: the last `width` bytes, the most significant first.
unfoldable pub fill_bytes : ℕ → ℕ → List ℕ
fill_bytes zero n = []
fill_bytes (suc width) n = fill_bytes width (n / 256) ++ (n % 256) ∷ []

-- SetBytes
unfoldable pub set_bytes : ℕ → List ℕ → ℕ
set_bytes acc [] = acc
set_bytes acc (b ∷ bs) = set_bytes (acc * 256 + b) bs

-- `bytes[i]`, which is read only where the length is known to be enough.
unfoldable pub byte_at : ℕ → List ℕ → ℕ
byte_at i [] = 0
byte_at zero (b ∷ bs) = b
byte_at (suc i) (b ∷ bs) = byte_at i bs

abbrev pub or_nil_zero : Option ℤ → ℤ
or_nil_zero none = pos 0
or_nil_zero (some v) = v

abbrev pub invoke_byte : Bool → ℕ
invoke_byte true = 1
invoke_byte false = 0

abbrev pub nil_if_zero : ℤ → Option ℤ
nil_if_zero v = if is_zero v then none else some v

module _ (c : Codec) where
  -- `BitLen() > 128` holds from 2 ^ 128 on.
  unfoldable pub emporium_op : Text → Text → Bool → Option ℤ → Result EmporiumError Text
  unfolding fill_bytes
  emporium_op contract call_data_string invoke_wallet value =
      let endpoint = c.from_hex contract in
      let v = or_nil_zero value in
      fail_if (not (nat_beq (length endpoint) 20)) (invalid_endpoint contract)
      >> fail_if (is_neg v || leb (2 ^ 128) (abs v)) value_too_large
      >> ok (
          c.to_hex (
            endpoint
            ++ (invoke_byte invoke_wallet ∷ fill_bytes 16 (abs v) ++ c.from_hex call_data_string)))

  unfoldable pub create_transfer_to_emporium_op :
      Text → Text → Option ℤ → Bool → Result EmporiumError Text
  unfolding emporium_op
  create_transfer_to_emporium_op token to amount invoke_wallet =
      if c.equal_fold token zero_address
      then emporium_op to [] invoke_wallet amount
      else require (c.pack_transfer to amount) pack_failed >>= λ payload.
          emporium_op token (c.to_hex payload) invoke_wallet none

  unfoldable pub create_approve_emporium_op :
      Text → Text → Option ℤ → Bool → Result EmporiumError Text
  unfolding emporium_op
  create_approve_emporium_op token to amount invoke_wallet =
      require (c.pack_approve to amount) pack_failed >>= λ payload.
      emporium_op token (c.to_hex payload) invoke_wallet none

  -- The loop over the tokens to fund; the lengths of the two lists are compared before.
  unfoldable pub fund_ops : Text → List Text → List (Option ℤ) → Result EmporiumError (List Text)
  unfolding create_transfer_to_emporium_op
  fund_ops wallet [] amounts = ok []
  fund_ops wallet (token ∷ tokens) [] = ok []
  fund_ops wallet (token ∷ tokens) (amount ∷ amounts) =
      let rest = fund_ops wallet tokens amounts in
      create_transfer_to_emporium_op token wallet amount false >>= λ op.
      rest >>= λ ops. ok (op ∷ ops)

  -- The loop over the tokens to approve, which passes over the native one.
  unfoldable pub approve_ops : Text → List Text → List (Option ℤ) → Result EmporiumError (List Text)
  unfolding create_approve_emporium_op
  approve_ops spender [] amounts = ok []
  approve_ops spender (token ∷ tokens) [] = ok []
  approve_ops spender (token ∷ tokens) (amount ∷ amounts) =
      let rest = approve_ops spender tokens amounts in
      if c.equal_fold token zero_address
      then rest
      else create_approve_emporium_op token spender amount true >>= λ op.
          rest >>= λ ops. ok (op ∷ ops)

  -- `spenderAddress != ""`
  abbrev pub approve_ops_if : Text → List Text → List (Option ℤ) → Result EmporiumError (List Text)
  approve_ops_if [] tokens amounts = ok []
  approve_ops_if (s ∷ pender) tokens amounts = approve_ops (s ∷ pender) tokens amounts

  unfoldable pub generate_fund_and_approve_ops :
      List Text
      → List (Option ℤ)
      → List Text
      → List (Option ℤ)
      → Text
      → Text
      → Result EmporiumError (List Text)
  unfolding fund_ops approve_ops
  generate_fund_and_approve_ops fund_tokens fund_amounts approve_tokens approve_amounts wallet
        spender =
      fail_if (not (nat_beq (length fund_tokens) (length fund_amounts))) fund_mismatch
      >> fail_if (not (nat_beq (length approve_tokens) (length approve_amounts))) approve_mismatch
      >> fund_ops wallet fund_tokens fund_amounts
      >>= λ funds. approve_ops_if spender approve_tokens approve_amounts >>= λ approvals.
          ok (funds ++ approvals)

  -- `nativeFee.Sign() > 0`, and the token is not the native one.
  abbrev pub needs_native : Text → ℤ → Bool
  needs_native token fee =
      not (is_neg fee) && not (is_zero fee) && not (c.equal_fold token zero_address)

  unfoldable pub create_lifi_bridge_ops :
      Text → Text → Text → Option ℤ → ℤ → BridgeQuote → Result EmporiumError (List Text)
  unfolding generate_fund_and_approve_ops emporium_op ◌+ℤ◌
  create_lifi_bridge_ops from router token fund_amount bridge_amount quote =
      let fee = or_nil_zero quote.native_fee in
      let more = needs_native token fee in
      let native_value = if c.equal_fold token zero_address then fee +ℤ bridge_amount else fee in
      generate_fund_and_approve_ops (token ∷ (if more then zero_address ∷ [] else []))
        (fund_amount ∷ (if more then some fee ∷ [] else [])) (token ∷ []) (some bridge_amount ∷ [])
        from router
      >>= λ ops. emporium_op router quote.calldata true (nil_if_zero native_value) >>= λ bridge_op.
          ok (ops ++ bridge_op ∷ [])

  -- `hinkal_address` is that of GetContractData on the chain, `none` its error.
  unfoldable pub convert_emporium_op_to_call_info :
      Option Text → Text → Text → Result EmporiumError CallInfo
  unfolding set_bytes byte_at
  convert_emporium_op_to_call_info hinkal_address op wallet =
      let bytes = c.from_hex op in
      fail_if (ltb (length bytes) 37) invalid_op
      >> require hinkal_address unknown_chain
      >>= λ hinkal. ok (record {
        from = if ltb 0 (byte_at 20 bytes) then wallet else hinkal;
        to = c.address_hex (take 20 bytes);
        calldata = c.to_hex (drop 37 bytes);
        value = pos (set_bytes 0 (take 16 (drop 21 bytes)));
      })
