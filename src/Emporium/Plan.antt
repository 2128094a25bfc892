-- ===== src/Emporium/Plan.antt =====
-- What the packed operations of a plan do, as calls: what funds the wallet, and what the wallet then
-- calls.
use go_sdk_test.Common.{
  ℕ, ◌≡◌, refl, Bool, true, false, Bool-cases, inl, inr, Option, Option-cases, none, some, List, [],
  ◌∷◌, ◌++◌, ℤ, pos, length, Result-cases, ok, arith, if◌then◌else◌,
}
use go_sdk_test.Decimal.{Text}
use go_sdk_test.Emporium.{
  Codec, CallInfo, zero_address, or_nil_zero, emporium_op, create_transfer_to_emporium_op,
  create_approve_emporium_op, fund_ops, approve_ops, approve_ops_if,
  convert_emporium_op_to_call_info,
}
use go_sdk_test.Emporium.Convert.{IsHexCodec, op_call, emporium_op-IsPackable, convert-emporium_op}

module _ (c : Codec) (hinkal wallet : Text) where
  -- The operations stand for the calls, one by one.
  abbrev pub AreConverted : List Text → List CallInfo → Type 0
  AreConverted [] [] = Unit {0}
  AreConverted [] (call ∷ calls) = ⊥
  AreConverted (op ∷ ops) [] = ⊥
  AreConverted (op ∷ ops) (call ∷ calls) =
      (convert_emporium_op_to_call_info c (some hinkal) op wallet ≡ ok call)
      × AreConverted ops calls

  pub AreConverted-append :
      (ops ops' : List Text) (calls calls' : List CallInfo)
      → AreConverted ops calls
      → AreConverted ops' calls'
      → AreConverted (ops ++ ops') (calls ++ calls')
  AreConverted-append [] ops' [] calls' h h' = h'
  AreConverted-append [] ops' (call ∷ calls) calls' h h' = absurd h
  AreConverted-append (op ∷ ops) ops' [] calls' h h' = absurd h
  AreConverted-append (op ∷ ops) ops' (call ∷ calls) calls' (e, h) h' =
      (e, AreConverted-append ops ops' calls calls' h h')

  -- An accepted operation converts to its call.
  pub convert_accepted :
      (contract call_data : Text) (invoke : Bool) (value : Option ℤ) (op : Text)
      → IsHexCodec c
      → emporium_op c contract call_data invoke value ≡ ok op
      → convert_emporium_op_to_call_info c (some hinkal) op wallet
        ≡ ok (op_call c hinkal wallet contract call_data invoke value)
  convert_accepted contract call_data invoke value op hex accepted =
      let fits = emporium_op-IsPackable c contract call_data invoke value op accepted in
      let (op', packed, converted) =
        convert-emporium_op c hinkal wallet contract call_data invoke value hex fits in
      let same : op' ≡ op = cc (packed, accepted) in rw (same) at converted

  -- What a transfer of `amount` brings of the native token.
  abbrev pub native_part : Text → Option ℤ → ℤ
  native_part token amount = if c.equal_fold token zero_address then or_nil_zero amount else pos 0

  -- The call data of a transfer: none for the native token, else that of the token's transfer of the
  -- amount to the wallet.
  abbrev pub IsTransferData : Text → Option ℤ → Text → Type 0
  IsTransferData token amount calldata =
      if c.equal_fold token zero_address
      then calldata ≡ c.to_hex (c.from_hex [])
      else (payload : List ℕ) × (c.pack_transfer wallet amount ≡ some payload)
        × (calldata ≡ c.to_hex (c.from_hex (c.to_hex payload)))

  -- The Hinkal contract pays the native token to the wallet, or calls the token to transfer to it.
  abbrev pub IsFund : Text → Option ℤ → CallInfo → Type 0
  IsFund token amount call =
      (call.from ≡ hinkal)
      × IsTransferData token amount call.calldata
      × (call.value ≡ native_part token amount)
      × (call.to
          ≡ c.address_hex (c.from_hex (if c.equal_fold token zero_address then wallet else token)))

  abbrev pub AreFunds : List Text → List (Option ℤ) → List CallInfo → Type 0
  AreFunds [] amounts [] = Unit {0}
  AreFunds (token ∷ tokens) (amount ∷ amounts) (call ∷ calls) =
      IsFund token amount call × AreFunds tokens amounts calls
  AreFunds [] amounts (call ∷ calls) = ⊥
  AreFunds (token ∷ tokens) amounts [] = ⊥
  AreFunds (token ∷ tokens) [] (call ∷ calls) = ⊥

  transfer-IsFund :
      (token : Text) (amount : Option ℤ) (op : Text)
      → IsHexCodec c
      → create_transfer_to_emporium_op c token wallet amount false ≡ ok op
      → (call : CallInfo) × (convert_emporium_op_to_call_info c (some hinkal) op wallet ≡ ok call)
        × IsFund token amount call
  unfolding create_transfer_to_emporium_op
  transfer-IsFund token amount op hex accepted =
      elim (Bool-cases (c.equal_fold token zero_address)) [
        | inl native ↦
            let done = convert_accepted wallet [] false amount op hex (rw (native) at accepted) in
            rw (native) (_, done, (refl, refl, refl, refl))
        | inr other ↦ elim (Option-cases (c.pack_transfer wallet amount)) [
          | inl failed ↦ absurd (cc (rw (other, failed) at accepted))
          | inr (payload, packed) ↦
              let done =
                convert_accepted token (c.to_hex payload) false none op hex
                  (rw (other, packed) at accepted) in
              rw (other) (_, done, (refl, (payload, packed, refl), refl, refl))
        ]
      ]

  pub fund_ops-AreFunds :
      (tokens : List Text) (amounts : List (Option ℤ)) (ops : List Text)
      → IsHexCodec c
      → length tokens ≡ length amounts
      → fund_ops c wallet tokens amounts ≡ ok ops
      → (calls : List CallInfo) × AreConverted ops calls × AreFunds tokens amounts calls
  unfolding fund_ops
  fund_ops-AreFunds [] amounts ops hex same accepted =
      let e : ops ≡ [] = cc accepted in rw (e) ([], tt, tt)
  fund_ops-AreFunds (token ∷ tokens) [] ops hex same accepted = absurd (omega (arith, same))
  fund_ops-AreFunds (token ∷ tokens) (amount ∷ amounts) ops hex same accepted =
      elim (Result-cases (create_transfer_to_emporium_op c token wallet amount false)) [
        | inr (x, failed) ↦ absurd (cc (rw (failed) at accepted))
        | inl (op, done) ↦ elim (Result-cases (fund_ops c wallet tokens amounts)) [
          | inr (x, failed) ↦ absurd (cc (rw (done, failed) at accepted))
          | inl (rest, more) ↦
              let e : ops ≡ op ∷ rest = cc (rw (done, more) at accepted) in
              let (call, converted, fund) = transfer-IsFund token amount op hex done in
              let (calls, all, funds) =
                fund_ops-AreFunds tokens amounts rest hex (omega (arith, same)) more in
              rw (e) (call ∷ calls, (converted, all), (fund, funds))
        ]
      ]

  -- The tokens to approve, with their amounts: all but the native one.
  abbrev pub to_approve : List Text → List (Option ℤ) → List (Text × Option ℤ)
  to_approve [] amounts = []
  to_approve (token ∷ tokens) [] = []
  to_approve (token ∷ tokens) (amount ∷ amounts) =
      let rest = to_approve tokens amounts in
      if c.equal_fold token zero_address then rest else (token, amount) ∷ rest

  -- The wallet calls each token to approve the spender for the amount, and spends nothing of the native
  -- one.
  abbrev pub AreApprovals : Text → List (Text × Option ℤ) → List CallInfo → Type 0
  AreApprovals spender [] [] = Unit {0}
  AreApprovals spender [] (call ∷ calls) = ⊥
  AreApprovals spender (approved ∷ more) [] = ⊥
  AreApprovals spender (approved ∷ more) (call ∷ calls) =
      (call.from ≡ wallet)
      × (call.value ≡ pos 0)
      × (call.to ≡ c.address_hex (c.from_hex approved.0))
      × ((payload : List ℕ) × (c.pack_approve spender approved.1 ≡ some payload)
          × (call.calldata ≡ c.to_hex (c.from_hex (c.to_hex payload))))
      × AreApprovals spender more calls

  approve_ops-AreApprovals :
      (spender : Text) (tokens : List Text) (amounts : List (Option ℤ)) (ops : List Text)
      → IsHexCodec c
      → length tokens ≡ length amounts
      → approve_ops c spender tokens amounts ≡ ok ops
      → (calls : List CallInfo) × AreConverted ops calls
        × AreApprovals spender (to_approve tokens amounts) calls
  unfolding approve_ops create_approve_emporium_op
  approve_ops-AreApprovals spender [] amounts ops hex same accepted =
      let e : ops ≡ [] = cc accepted in rw (e) ([], tt, tt)
  approve_ops-AreApprovals spender (token ∷ tokens) [] ops hex same accepted =
      absurd (omega (arith, same))
  approve_ops-AreApprovals spender (token ∷ tokens) (amount ∷ amounts) ops hex same accepted =
      elim (Bool-cases (c.equal_fold token zero_address)) [
        | inl native ↦ rw (native) (
            approve_ops-AreApprovals spender tokens amounts ops hex (omega (arith, same))
              (rw (native) at accepted))
        | inr other ↦ elim (Option-cases (c.pack_approve spender amount)) [
          | inl failed ↦ absurd (cc (rw (other, failed) at accepted))
          | inr (payload, packed) ↦
              elim (Result-cases (emporium_op c token (c.to_hex payload) true none)) [
                | inr (x, failed) ↦ absurd (cc (rw (other, packed, failed) at accepted))
                | inl (op, done) ↦ elim (Result-cases (approve_ops c spender tokens amounts)) [
                  | inr (x, failed) ↦ absurd (cc (rw (other, packed, done, failed) at accepted))
                  | inl (rest, more) ↦
                      let e : ops ≡ op ∷ rest = cc (rw (other, packed, done, more) at accepted) in
                      let converted =
                        convert_accepted token (c.to_hex payload) true none op hex done in
                      let (calls, all, approvals) =
                        approve_ops-AreApprovals spender tokens amounts rest hex
                          (omega (arith, same)) more in
                      rw (e, other)
                        (
                          _ ∷ calls,
                          (converted, all),
                          (refl, refl, refl, (payload, packed, refl), approvals),
                        )
                ]
              ]
        ]
      ]

  abbrev pub to_approve_if : Text → List Text → List (Option ℤ) → List (Text × Option ℤ)
  to_approve_if [] tokens amounts = []
  to_approve_if (s ∷ pender) tokens amounts = to_approve tokens amounts

  pub approve_ops_if-AreApprovals :
      (spender : Text) (tokens : List Text) (amounts : List (Option ℤ)) (ops : List Text)
      → IsHexCodec c
      → length tokens ≡ length amounts
      → approve_ops_if c spender tokens amounts ≡ ok ops
      → (calls : List CallInfo) × AreConverted ops calls
        × AreApprovals spender (to_approve_if spender tokens amounts) calls
  approve_ops_if-AreApprovals [] tokens amounts ops hex same accepted =
      let e : ops ≡ [] = cc accepted in rw (e) ([], tt, tt)
  approve_ops_if-AreApprovals (s ∷ pender) tokens amounts ops hex same accepted =
      approve_ops-AreApprovals (s ∷ pender) tokens amounts ops hex same accepted
