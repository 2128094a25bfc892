-- ===== src/Keys/Steady.antt =====
-- Keeping the shielded private key changes no answer: a method leaves the keys as they are or with
-- that key kept, and answers the same on both.
use Prim.Native.String.{count}
use text.Mathlib.TextLemmas.{append-eq-nil_iff}
use go_sdk_test.Common.{
  ◌≡◌, refl, ap, sym, ◌∙◌, ◌⊎◌, inl, inr, Bool, true, false, not, ◌&&◌, Option, none, some, String,
  ◌==◌, string_eq, if◌then◌else◌, Result, ok, err, arith, Bool-cases,
}
use go_sdk_test.Common.Stateful.{continue_with, ◌>>=◌, or_fail, return, guard}
use go_sdk_test.Keys.{Crypto, UserKeys, Keyed, KeysError, shielded_key_of}

module _ (c : Crypto) where
  -- The keys with the shielded private key kept, where there is one.
  unfoldable pub settle : UserKeys → UserKeys
  settle u =
      if u.nullifying_key == "" && not (u.signature == "")
      then record u { nullifying_key = shielded_key_of c u.signature }
      else u

  pub record IsSteady {A : Type 0} (m : Keyed A) : Type 0 where
    pub leaves : (u : UserKeys) → ((m u).1 ≡ u) ⊎ ((m u).1 ≡ settle u)
    pub answers : (u : UserKeys) → m (settle u) ≡ ((m u).0, settle u)

  pub settled_key_not_empty : (s : String) → (shielded_key_of c s == "") ≡ false
  unfolding shielded_key_of
  settled_key_not_empty s = elim (Bool-cases (shielded_key_of c s == "")) [
    | inr other ↦ other
    | inl empty ↦
        let nil : shielded_key_of c s ≡ "" = (string_eq.same_key_iff _ _).0 empty in
        let none_left : count "0x" ≡ count "" = ap count (append-eq-nil_iff.0 nil).0 in
        absurd (omega (arith, none_left))
  ]

  pub settle_again : (u : UserKeys) → settle (settle u) ≡ settle u
  unfolding settle
  settle_again u = ground (arith, settled_key_not_empty u.signature)

  -- Settling leaves the signature alone.
  pub settle_signature : (u : UserKeys) → (settle u).signature ≡ u.signature
  unfolding settle
  settle_signature u = ground arith

  pub or_fail-IsSteady : {A : Type 0} (o : Option A) (e : KeysError) → IsSteady (or_fail o e)
  unfolding or_fail
  or_fail-IsSteady none e = record { leaves = λ u. inl refl; answers = λ u. refl }
  or_fail-IsSteady (some a) e = record { leaves = λ u. inl refl; answers = λ u. refl }

  pub return-IsSteady : {A : Type 0} (a : A) → IsSteady (return a)
  unfolding return
  return-IsSteady a = record { leaves = λ u. inl refl; answers = λ u. refl }

  pub guard-IsSteady : (b : Bool) (e : KeysError) → IsSteady (guard b e)
  unfolding guard
  guard-IsSteady true e = record { leaves = λ u. inl refl; answers = λ u. refl }
  guard-IsSteady false e = record { leaves = λ u. inl refl; answers = λ u. refl }

  -- What follows an answer leaves the keys settled or as they are, and sees no difference.
  continue-IsSteady :
      {A B : Type 0} (r : Result KeysError A) (f : A → Keyed B) (u v : UserKeys)
      → ((a : A) → IsSteady (f a))
      → (v ≡ u) ⊎ (v ≡ settle u)
      → (((continue_with r f v).1 ≡ u) ⊎ ((continue_with r f v).1 ≡ settle u))
        × (continue_with r f (settle u) ≡ ((continue_with r f v).0, settle u))
  continue-IsSteady (err e) f u v g left = (left, refl)
  continue-IsSteady (ok a) f u v g (inl same) = rw same ((g a).leaves u, (g a).answers u)
  continue-IsSteady (ok a) f u v g (inr settled) =
      rw settled (after ((g a).leaves (settle u)), again)
    where
      after :
          (((f a (settle u)).1 ≡ settle u) ⊎ ((f a (settle u)).1 ≡ settle (settle u)))
          → ((f a (settle u)).1 ≡ u) ⊎ ((f a (settle u)).1 ≡ settle u)
      after (inl e) = inr e
      after (inr e) = inr (e ∙ settle_again u)

      again : f a (settle u) ≡ ((f a (settle u)).0, settle u)
      again =
          ap (f a) (sym (settle_again u))
          ∙ (g a).answers (settle u)
          ∙ ap (λ w. ((f a (settle u)).0, w)) (settle_again u)

  pub bind-IsSteady :
      {A B : Type 0} (m : Keyed A) (f : A → Keyed B)
      → IsSteady m
      → ((a : A) → IsSteady (f a))
      → IsSteady (m >>= f)
  unfolding ◌>>=◌
  bind-IsSteady m f sm sf = record { leaves = λ u. (both u).0; answers = λ u. (both u).1 }
    where
      both :
          (u : UserKeys)
          → ((((m >>= f) u).1 ≡ u) ⊎ (((m >>= f) u).1 ≡ settle u))
            × ((m >>= f) (settle u) ≡ (((m >>= f) u).0, settle u))
      both u = rw (sm.answers u) (continue-IsSteady (m u).0 f u (m u).1 sf (sm.leaves u))

pub ruleset answering = (bind-IsSteady, or_fail-IsSteady, return-IsSteady, guard-IsSteady)
