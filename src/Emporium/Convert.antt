-- ===== src/Emporium/Convert.antt =====
-- An operation that was packed is converted to the call that it stands for.
use go_sdk_test.Common.{
  ℕ, ◌+◌, ◌^◌, ◌<◌, ◌≡◌, refl, sym, ap, ◌∙◌, Bool, true, false, Bool-cases, inl, inr, Option, some,
  List, [], ◌∷◌, ◌++◌, ℤ, pos, abs, is_neg, leb, ltb, nat_beq, length, length-append, take, drop,
  append_assoc, ok, arith, if◌then◌else◌,
}
use go_sdk_test.Decimal.{Text}
use go_sdk_test.Emporium.{
  Codec, CallInfo, fill_bytes, byte_at, or_nil_zero, invoke_byte, emporium_op,
  convert_emporium_op_to_call_info,
}
use go_sdk_test.Emporium.Bytes.{
  AreBytes, AreBytes-append, fill_bytes-AreBytes, length-fill_bytes, set-fill_bytes, take-prefix,
  drop-prefix, byte_at-prefix,
}

-- FromHex returns bytes, and undoes the writing of bytes in hex.
pub record IsHexCodec (c : Codec) : Type 0 where
  pub from_hex-AreBytes : (s : Text) → AreBytes (c.from_hex s)
  pub from-to_hex : (bs : List ℕ) → AreBytes bs → c.from_hex (c.to_hex bs) ≡ bs

module _ (c : Codec) (hinkal wallet : Text) where
  -- The call of an operation: the wallet or the Hinkal contract calls the endpoint.
  abbrev pub op_call : Text → Text → Bool → Option ℤ → CallInfo
  op_call contract call_data invoke value = record {
    from = if invoke then wallet else hinkal;
    to = c.address_hex (c.from_hex contract);
    calldata = c.to_hex (c.from_hex call_data);
    value = or_nil_zero value;
  }

drop_of_length : (k : ℕ) (xs ys : List ℕ) → length xs ≡ k → drop k (xs ++ ys) ≡ ys
drop_of_length k xs ys e = rw (e) at (drop-prefix xs ys)

abbrev pub packed : List ℕ → Bool → ℕ → List ℕ → List ℕ
packed endpoint invoke n payload = endpoint ++ (invoke_byte invoke ∷ fill_bytes 16 n ++ payload)

module _ (endpoint : List ℕ) (invoke : Bool) (n : ℕ) (payload : List ℕ)
    (whole : length endpoint ≡ 20) where
  length-packed : length (packed endpoint invoke n payload) ≡ 37 + length payload
  length-packed =
      length-append endpoint _
      ∙ omega (arith, length-append (fill_bytes 16 n) payload, length-fill_bytes 16 n, whole)

  take-packed : take 20 (packed endpoint invoke n payload) ≡ endpoint
  take-packed =
      rw (whole) at (take-prefix endpoint (invoke_byte invoke ∷ fill_bytes 16 n ++ payload))

  byte_at-packed : byte_at 20 (packed endpoint invoke n payload) ≡ invoke_byte invoke
  byte_at-packed =
      rw (whole) at (byte_at-prefix endpoint (invoke_byte invoke) (fill_bytes 16 n ++ payload))

  -- The value and what follows it.
  drop-packed : drop 21 (packed endpoint invoke n payload) ≡ fill_bytes 16 n ++ payload
  drop-packed =
      ap (drop 21) (sym (append_assoc endpoint (invoke_byte invoke ∷ []) _))
      ∙ drop_of_length 21 (endpoint ++ invoke_byte invoke ∷ []) _
          (length-append endpoint _ ∙ omega (arith, whole))

  drop_value-packed : drop 37 (packed endpoint invoke n payload) ≡ payload
  drop_value-packed =
      ap (drop 37) (sym (append_assoc endpoint (invoke_byte invoke ∷ fill_bytes 16 n) payload))
      ∙ drop_of_length 37 (endpoint ++ (invoke_byte invoke ∷ fill_bytes 16 n)) payload
          (length-append endpoint _ ∙ omega (arith, whole, length-fill_bytes 16 n))

  take_value-packed : take 16 (drop 21 (packed endpoint invoke n payload)) ≡ fill_bytes 16 n
  take_value-packed =
      ap (take 16) drop-packed
      ∙ (rw (length-fill_bytes 16 n) at (take-prefix (fill_bytes 16 n) payload))

packed-AreBytes :
    (endpoint : List ℕ) (invoke : Bool) (n : ℕ) (payload : List ℕ)
    → AreBytes endpoint
    → AreBytes payload
    → AreBytes (packed endpoint invoke n payload)
packed-AreBytes endpoint invoke n payload he hp =
    AreBytes-append endpoint _ he
      (invoke_small invoke, AreBytes-append (fill_bytes 16 n) payload (fill_bytes-AreBytes 16 n) hp)
  where
    invoke_small : (b : Bool) → invoke_byte b < 256
    invoke_small true = omega arith
    invoke_small false = omega arith

from_invoke_byte : (b : Bool) → ltb 0 (invoke_byte b) ≡ b
from_invoke_byte true = refl
from_invoke_byte false = refl

module _ (c : Codec) (hex : IsHexCodec c) (hinkal wallet contract call_data : Text)
    (invoke : Bool) where
  convert-packed :
      (n : ℕ)
      → length (c.from_hex contract) ≡ 20
      → n < 2 ^ 128
      → convert_emporium_op_to_call_info c
          (some hinkal)
          (c.to_hex (packed (c.from_hex contract) invoke n (c.from_hex call_data)))
          wallet
        ≡ ok (op_call c hinkal wallet contract call_data invoke (some (pos n)))
  unfolding convert_emporium_op_to_call_info
  convert-packed n whole room =
      let endpoint = c.from_hex contract in
      let payload = c.from_hex call_data in
      let bytes = packed endpoint invoke n payload in
      let read : c.from_hex (c.to_hex bytes) ≡ bytes = hex.from-to_hex bytes (
        packed-AreBytes endpoint invoke n payload (hex.from_hex-AreBytes contract)
          (hex.from_hex-AreBytes call_data)) in
      let long : ltb (length bytes) 37 ≡ false =
        ground (arith, length-packed endpoint invoke n payload whole) in
      rw
        (
          read,
          long,
          byte_at-packed endpoint invoke n payload whole,
          from_invoke_byte invoke,
          take-packed endpoint invoke n payload whole,
          drop_value-packed endpoint invoke n payload whole,
          take_value-packed endpoint invoke n payload whole,
          set-fill_bytes 16 n (omega arith),
        )
        refl

-- The endpoint has 20 bytes, and the value fits 128 bits.
abbrev pub IsPackable : Codec → Text → Option ℤ → Type 0
IsPackable c contract value =
    (n : ℕ) × (or_nil_zero value ≡ pos n) × (n < 2 ^ 128) × (length (c.from_hex contract) ≡ 20)

packable :
    (c : Codec) (contract : Text) (value : Option ℤ)
    → is_neg (or_nil_zero value) ≡ false
    → leb (2 ^ 128) (abs (or_nil_zero value)) ≡ false
    → length (c.from_hex contract) ≡ 20
    → IsPackable c contract value
packable c contract value sign small whole =
    (abs (or_nil_zero value), ground arith, ground arith, whole)

module _ (c : Codec) (contract call_data : Text) (invoke : Bool) (value : Option ℤ) where
  emporium_op-packed :
      (n : ℕ)
      → or_nil_zero value ≡ pos n
      → n < 2 ^ 128
      → length (c.from_hex contract) ≡ 20
      → emporium_op c contract call_data invoke value
        ≡ ok (c.to_hex (packed (c.from_hex contract) invoke n (c.from_hex call_data)))
  unfolding emporium_op
  emporium_op-packed n e room whole =
      let small : leb (2 ^ 128) (n + 0) ≡ false = ground arith in
      let same : n + 0 ≡ n = omega arith in
      let here : nat_beq (length (c.from_hex contract)) 20 ≡ true = ground arith in
      rw (e, here, small, same) refl

  -- What EmporiumOp accepts has an endpoint of 20 bytes and a value of 128 bits.
  pub emporium_op-IsPackable :
      (op : Text)
      → emporium_op c contract call_data invoke value ≡ ok op
      → IsPackable c contract value
  unfolding emporium_op
  emporium_op-IsPackable op accepted =
      elim (Bool-cases (nat_beq (length (c.from_hex contract)) 20)) [
        | inr other ↦ absurd (cc (rw (other) at accepted))
        | inl whole ↦ elim (Bool-cases (is_neg (or_nil_zero value))) [
          | inl negative ↦ absurd (cc (rw (whole, negative) at accepted))
          | inr sign ↦ elim (Bool-cases (leb (2 ^ 128) (abs (or_nil_zero value)))) [
            | inl large ↦ absurd (cc (rw (whole, sign, large) at accepted))
            | inr small ↦ packable c contract value sign small (ground arith)
          ]
        ]
      ]

-- EmporiumOp accepts every endpoint of 20 bytes with a value, nil counting as 0, that fits 128 bits,
-- and ConvertEmporiumOpToCallInfo then gives the call it stands for: of that endpoint with that
-- value and call data, from the wallet if it is to be invoked and from the chain's Hinkal contract
-- otherwise. Reading hex text gives bytes and undoes writing them.
pub convert-emporium_op :
    (c : Codec) (hinkal wallet contract call_data : Text) (invoke : Bool) (value : Option ℤ)
    → IsHexCodec c
    → IsPackable c contract value
    → (op : Text) × (emporium_op c contract call_data invoke value ≡ ok op)
      × (convert_emporium_op_to_call_info c (some hinkal) op wallet
          ≡ ok (op_call c hinkal wallet contract call_data invoke value))
convert-emporium_op c hinkal wallet contract call_data invoke value hex (n, e, room, whole) = (
  _,
  emporium_op-packed c contract call_data invoke value n e room whole,
  convert-packed c hex hinkal wallet contract call_data invoke n whole room ∙ rw (e) refl,
)
