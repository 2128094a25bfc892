-- ===== src/Emporium/Bridge.antt =====
-- The plans of operations: what funds a wallet, what it approves, and the call of the bridge.
use go_sdk_test.Common.{
  ℕ, zero, suc, ◌≡◌, refl, true, false, Bool-cases, inl, inr, Option, some, List, [], ◌∷◌, ◌++◌, ℤ,
  pos, negsuc, ◌+ℤ◌, nat_beq, length, Result-cases, ok, arith, if◌then◌else◌,
}
use go_sdk_test.Decimal.{Text}
use go_sdk_test.Emporium.{
  Codec, CallInfo, BridgeQuote, zero_address, or_nil_zero, needs_native, nil_if_zero, emporium_op,
  fund_ops, approve_ops_if, generate_fund_and_approve_ops, create_lifi_bridge_ops,
}
use go_sdk_test.Emporium.Convert.{IsHexCodec, op_call, emporium_op-IsPackable}
use go_sdk_test.Emporium.Plan.{
  AreConverted, AreConverted-append, convert_accepted, AreFunds, AreApprovals, to_approve_if,
  fund_ops-AreFunds, approve_ops_if-AreApprovals,
}

-- The operations that GenerateFundAndApproveOps returns stand, one by one, for these calls: for each
-- token to fund the Hinkal contract pays the native amount to the wallet or calls the token, and
-- then, if there is a spender, the wallet calls each token but the native one to approve it. Reading
-- hex text gives bytes and undoes writing them.
pub generate_fund_and_approve_ops-AreConverted :
    (c : Codec) (hinkal wallet spender : Text) (fund_tokens approve_tokens : List Text)
    (fund_amounts approve_amounts : List (Option ℤ)) (ops : List Text)
    → IsHexCodec c
    → generate_fund_and_approve_ops c fund_tokens fund_amounts approve_tokens approve_amounts wallet
        spender
      ≡ ok ops
    → (funds : List CallInfo) × (approvals : List CallInfo) × AreConverted c hinkal wallet ops
        (funds ++ approvals)
      × AreFunds c hinkal wallet fund_tokens fund_amounts funds
      × AreApprovals c hinkal wallet spender
          (to_approve_if c hinkal wallet spender approve_tokens approve_amounts)
          approvals
unfolding generate_fund_and_approve_ops
generate_fund_and_approve_ops-AreConverted c hinkal wallet spender fund_tokens approve_tokens
      fund_amounts approve_amounts ops hex accepted =
    elim (Bool-cases (nat_beq (length fund_tokens) (length fund_amounts))) [
      | inr other ↦ absurd (cc (rw (other) at accepted))
      | inl same ↦ elim (Bool-cases (nat_beq (length approve_tokens) (length approve_amounts))) [
        | inr other ↦ absurd (cc (rw (same, other) at accepted))
        | inl same' ↦ elim (Result-cases (fund_ops c wallet fund_tokens fund_amounts)) [
          | inr (x, failed) ↦ absurd (cc (rw (same, same', failed) at accepted))
          | inl (first, funded) ↦
              elim (Result-cases (approve_ops_if c spender approve_tokens approve_amounts)) [
                | inr (x, failed) ↦ absurd (cc (rw (same, same', funded, failed) at accepted))
                | inl (second, approved) ↦
                    let e : ops ≡ first ++ second =
                      cc (rw (same, same', funded, approved) at accepted) in
                    let (funds, converted, are_funds) =
                      fund_ops-AreFunds c hinkal wallet fund_tokens fund_amounts first hex
                        (ground arith) funded in
                    let (approvals, converted', are_approvals) =
                      approve_ops_if-AreApprovals c hinkal wallet spender approve_tokens
                        approve_amounts second hex (ground arith) approved in
                    rw (e) (
                      funds,
                      approvals,
                      AreConverted-append c hinkal wallet first second funds approvals converted
                          converted',
                      are_funds,
                      are_approvals,
                    )
              ]
        ]
      ]
    ]

-- What calls bring of the native token.
abbrev pub total_value : List CallInfo → ℤ
total_value [] = pos 0
total_value (call ∷ calls) = call.value +ℤ total_value calls

module _ (c : Codec) (hinkal wallet token : Text) (amount : Option ℤ)
    (foreign : c.equal_fold token zero_address ≡ false) where
  one_fund :
      (funds : List CallInfo)
      → AreFunds c hinkal wallet (token ∷ []) (amount ∷ []) funds
      → total_value funds ≡ pos 0
  unfolding ◌+ℤ◌
  one_fund [] h = absurd h
  one_fund (call ∷ []) ((from, sent, value, to), h) =
      let v : call.value ≡ pos 0 = rw (foreign) at value in rw (v) refl
  one_fund (call ∷ other ∷ calls) (fund, h) = absurd h

  two_funds :
      (n : ℕ) (funds : List CallInfo)
      → c.equal_fold zero_address zero_address ≡ true
      → AreFunds c hinkal wallet (token ∷ zero_address ∷ []) (amount ∷ some (pos n) ∷ []) funds
      → total_value funds ≡ pos n
  unfolding ◌+ℤ◌
  two_funds n [] same h = absurd h
  two_funds n (call ∷ []) same (fund, h) = absurd h
  two_funds n (call ∷ native ∷ []) same
        ((from, sent, value, to), ((from', sent', value', to'), h)) =
      let v : call.value ≡ pos 0 = rw (foreign) at value in
      let v' : native.value ≡ pos n = rw (same) at value' in rw (v, v') (ground arith)
  two_funds n (call ∷ native ∷ other ∷ calls) same (fund, (fund', h)) = absurd h

  -- The fee that a quote asks for in the native token is what the funds bring.
  funds-eq-fee :
      (n : ℕ) (funds : List CallInfo)
      → c.equal_fold zero_address zero_address ≡ true
      → AreFunds c hinkal wallet
          (token ∷ (if needs_native c token (pos n) then zero_address ∷ [] else []))
          (amount ∷ (if needs_native c token (pos n) then some (pos n) ∷ [] else []))
          funds
      → total_value funds ≡ or_nil_zero (nil_if_zero (pos n))
  funds-eq-fee zero funds same h = one_fund funds h
  funds-eq-fee (suc n) funds same h = two_funds (suc n) funds same (rw (foreign) at h)

  funds-eq-accepted :
      (router call_data : Text) (fee : ℤ) (op : Text) (funds : List CallInfo)
      → c.equal_fold zero_address zero_address ≡ true
      → emporium_op c router call_data true (nil_if_zero fee) ≡ ok op
      → AreFunds c hinkal wallet
          (token ∷ (if needs_native c token fee then zero_address ∷ [] else []))
          (amount ∷ (if needs_native c token fee then some fee ∷ [] else []))
          funds
      → total_value funds ≡ or_nil_zero (nil_if_zero fee)
  funds-eq-accepted router call_data (pos n) op funds same accepted h = funds-eq-fee n funds same h
  funds-eq-accepted router call_data (negsuc k) op funds same accepted h =
      let (n, e, room, whole) = emporium_op-IsPackable c router call_data true _ op accepted in
      absurd (cc e)

-- The operations that CreateLifiBridgeOps returns for a token that is not the native one stand, one
-- by one, for these calls: the Hinkal contract calls the token to transfer the funded amount to the
-- wallet and, where the quote has a native fee, pays that fee to it; then the wallet calls the token to
-- approve the router for the bridged amount, if there is a router; then the wallet calls the router with the quote's call data. The
-- native amount that the funds bring is what that call spends. Reading hex text gives bytes and undoes
-- writing them, and the zero address is equal to itself.
pub create_lifi_bridge_ops_funded :
    (c : Codec) (hinkal wallet router token : Text) (fund_amount : Option ℤ) (bridge_amount : ℤ)
    (quote : BridgeQuote) (ops : List Text)
    → IsHexCodec c
    → c.equal_fold token zero_address ≡ false
    → c.equal_fold zero_address zero_address ≡ true
    → create_lifi_bridge_ops c wallet router token fund_amount bridge_amount quote ≡ ok ops
    → (funds : List CallInfo) × (approvals : List CallInfo) × (bridge : CallInfo) × AreConverted c
        hinkal wallet ops
        (funds ++ approvals ++ bridge ∷ [])
      × AreFunds c hinkal wallet
          (token
            ∷ (if needs_native c token (or_nil_zero quote.native_fee)
                then zero_address ∷ []
                else []))
          (fund_amount
            ∷ (if needs_native c token (or_nil_zero quote.native_fee)
                then some (or_nil_zero quote.native_fee) ∷ []
                else []))
          funds
      × AreApprovals c hinkal wallet router
          (to_approve_if c hinkal wallet router (token ∷ []) (some bridge_amount ∷ []))
          approvals
      × (bridge ≡ op_call c hinkal wallet router quote.calldata true (some (total_value funds)))
unfolding create_lifi_bridge_ops
create_lifi_bridge_ops_funded c hinkal wallet router token fund_amount bridge_amount quote ops hex
      foreign same accepted =
    let fee = or_nil_zero quote.native_fee in
    let plan =
      generate_fund_and_approve_ops c
        (token ∷ (if needs_native c token fee then zero_address ∷ [] else []))
        (fund_amount ∷ (if needs_native c token fee then some fee ∷ [] else [])) (token ∷ [])
        (some bridge_amount ∷ []) wallet router in
    elim (Result-cases plan) [
      | inr (x, failed) ↦ absurd (cc (rw (failed) at accepted))
      | inl (first, planned) ↦
          elim (Result-cases (emporium_op c router quote.calldata true (nil_if_zero fee))) [
            | inr (x, failed) ↦ absurd (cc (rw (planned, foreign, failed) at accepted))
            | inl (op, done) ↦
                let e : ops ≡ first ++ op ∷ [] = cc (rw (planned, foreign, done) at accepted) in
                let (funds, approvals, converted, are_funds, are_approvals) =
                  generate_fund_and_approve_ops-AreConverted c hinkal wallet router
                    (token ∷ (if needs_native c token fee then zero_address ∷ [] else []))
                    (token ∷ [])
                    (fund_amount ∷ (if needs_native c token fee then some fee ∷ [] else []))
                    (some bridge_amount ∷ []) first hex planned in
                let total =
                  funds-eq-accepted c hinkal wallet token fund_amount foreign router quote.calldata
                    fee op funds same done are_funds in
                let last =
                  convert_accepted c hinkal wallet router quote.calldata true (nil_if_zero fee) op
                    hex done in
                rw (e) (
                  funds,
                  approvals,
                  op_call c hinkal wallet router quote.calldata true (nil_if_zero fee),
                  AreConverted-append c hinkal wallet first (op ∷ []) (funds ++ approvals) _
                      converted (last, tt),
                  are_funds,
                  are_approvals,
                  rw (total) refl,
                )
          ]
    ]
