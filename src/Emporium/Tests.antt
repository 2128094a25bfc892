-- ===== src/Emporium/Tests.antt =====
-- Operations packed and converted with a small hex codec.
use go_sdk_test.Common.{
  ℕ, ◌+◌, ◌*◌, ◌-◌, ◌/◌, ◌%◌, ◌<◌, ◌≡◌, refl, ap, Bool, true, false, ltb, some, List, [], ◌∷◌, ◌++◌,
  pos, Result, ok, err, replicate, if◌then◌else◌, arith,
}
use go_sdk_test.Decimal.{Text}
use go_sdk_test.Emporium.{
  Codec, CallInfo, BridgeQuote, EmporiumError, zero_address, emporium_op,
  convert_emporium_op_to_call_info, generate_fund_and_approve_ops, create_lifi_bridge_ops, fund_ops,
  approve_ops, create_transfer_to_emporium_op, create_approve_emporium_op, value_too_large,
}
use go_sdk_test.Emporium.Bytes.{AreBytes}
use go_sdk_test.Emporium.Convert.{IsHexCodec, op_call, convert-emporium_op}
use go_sdk_test.Emporium.Plan.{AreConverted, AreFunds, AreApprovals, to_approve_if}
use go_sdk_test.Emporium.Bridge.{create_lifi_bridge_ops_funded, total_value}

abbrev hex_digit : ℕ → ℕ
hex_digit d = if ltb d 10 then b'0' + d else b'a' + (d - 10)

abbrev digit_value : ℕ → ℕ
digit_value c = if ltb c b'a' then (c - b'0') % 16 else (c - b'a' + 10) % 16

abbrev pairs : Text → List ℕ
pairs [] = []
pairs (c ∷ []) = []
pairs (c ∷ d ∷ rest) = (digit_value c * 16 + digit_value d) ∷ pairs rest

abbrev without_prefix : Text → List ℕ
without_prefix (z ∷ x ∷ rest) = pairs rest
without_prefix [] = []
without_prefix (z ∷ []) = []

abbrev digits_of : List ℕ → Text
digits_of [] = []
digits_of (b ∷ bs) = hex_digit (b / 16) ∷ hex_digit (b % 16) ∷ digits_of bs

abbrev prefixed : List ℕ → Text
prefixed bs = b'0' ∷ b'x' ∷ digits_of bs

abbrev same_text : Text → Text → Bool
same_text [] [] = true
same_text [] (d ∷ ds) = false
same_text (c ∷ cs) [] = false
same_text (c ∷ cs) (d ∷ ds) =
    let rest = same_text cs ds in if ltb c d then false else if ltb d c then false else rest

abbrev codec : Codec
codec = record {
  from_hex = without_prefix;
  to_hex = prefixed;
  address_hex = prefixed;
  pack_transfer = λ to amount. some (9 ∷ 5 ∷ []);
  pack_approve = λ to amount. some (1 ∷ 2 ∷ []);
  equal_fold = same_text;
}

pairs-AreBytes : (s : Text) → AreBytes (pairs s)
pairs-AreBytes [] = tt
pairs-AreBytes (c ∷ []) = tt
pairs-AreBytes (c ∷ d ∷ rest) = (ground arith, pairs-AreBytes rest)

without_prefix-AreBytes : (s : Text) → AreBytes (without_prefix s)
without_prefix-AreBytes [] = tt
without_prefix-AreBytes (z ∷ []) = tt
without_prefix-AreBytes (z ∷ x ∷ rest) = pairs-AreBytes rest

digit_value-hex_digit : (d : ℕ) → d < 16 → digit_value (hex_digit d) ≡ d
digit_value-hex_digit d lt = ground arith

pairs-digits_of : (bs : List ℕ) → AreBytes bs → pairs (digits_of bs) ≡ bs
pairs-digits_of [] h = refl
pairs-digits_of (b ∷ bs) (lt, h) =
    let whole : b / 16 * 16 + b % 16 ≡ b = omega arith in
    rw
      (
        digit_value-hex_digit (b / 16) (omega arith),
        digit_value-hex_digit (b % 16) (omega arith),
        whole,
      )
      (ap (λ t. b ∷ t) (pairs-digits_of bs h))

codec-IsHexCodec : IsHexCodec codec
codec-IsHexCodec = record {
  from_hex-AreBytes = without_prefix-AreBytes;
  from-to_hex = pairs-digits_of;
}

abbrev endpoint : Text
endpoint = prefixed (replicate 20 7)

convert-emporium_op_example :
    (op : Text) × (emporium_op codec endpoint (prefixed (1 ∷ 2 ∷ [])) true (some (pos 1000))
      ≡ ok op)
    × (convert_emporium_op_to_call_info codec (some (b'h' ∷ [])) op (b'w' ∷ [])
        ≡ ok (
            op_call codec
              (b'h' ∷ [])
              (b'w' ∷ [])
              endpoint
              (prefixed (1 ∷ 2 ∷ []))
              true
              (some (pos 1000))))
convert-emporium_op_example =
    convert-emporium_op codec (b'h' ∷ []) (b'w' ∷ []) endpoint (prefixed (1 ∷ 2 ∷ [])) true
      (some (pos 1000)) codec-IsHexCodec (1000, refl, omega arith, refl)

-- A bridge of a token with a native fee of 3: the wallet is paid, approves, and calls the router.
abbrev token : Text
token = prefixed (replicate 20 9)

abbrev wallet : Text
wallet = prefixed (replicate 20 5)

abbrev quote : BridgeQuote
quote = record { calldata = prefixed (4 ∷ []); native_fee = some (pos 3) }

abbrev ops_of : Result EmporiumError (List Text) → List Text
ops_of (ok ops) = ops
ops_of (err e) = []

abbrev bridge_result : Result EmporiumError (List Text)
bridge_result = create_lifi_bridge_ops codec wallet endpoint token (some (pos 50)) (pos 40) quote

abbrev plan_result : Result EmporiumError (List Text)
plan_result =
    generate_fund_and_approve_ops codec (token ∷ zero_address ∷ [])
      (some (pos 50) ∷ some (pos 3) ∷ []) (token ∷ []) (some (pos 40) ∷ []) wallet endpoint

create_lifi_bridge_ops_funded_example :
    (funds : List CallInfo) × (approvals : List CallInfo) × (bridge : CallInfo) × AreConverted codec
      (b'h' ∷ [])
      wallet
      (ops_of bridge_result)
      (funds ++ approvals ++ bridge ∷ [])
    × AreFunds codec
        (b'h' ∷ [])
        wallet
        (token ∷ zero_address ∷ [])
        (some (pos 50) ∷ some (pos 3) ∷ [])
        funds
    × AreApprovals codec
        (b'h' ∷ [])
        wallet
        endpoint
        (to_approve_if codec (b'h' ∷ []) wallet endpoint (token ∷ []) (some (pos 40) ∷ []))
        approvals
    × (bridge
        ≡ op_call codec (b'h' ∷ []) wallet endpoint quote.calldata true (some (total_value funds)))
unfolding create_lifi_bridge_ops generate_fund_and_approve_ops fund_ops approve_ops
    create_transfer_to_emporium_op create_approve_emporium_op emporium_op
create_lifi_bridge_ops_funded_example =
    create_lifi_bridge_ops_funded codec (b'h' ∷ []) wallet endpoint token (some (pos 50)) (pos 40)
      quote (ops_of bridge_result) codec-IsHexCodec refl refl refl

too_large :
    emporium_op codec endpoint [] true (some (pos 340282366920938463463374607431768211456))
    ≡ err value_too_large
unfolding emporium_op
too_large = refl
