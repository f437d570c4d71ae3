-- ===== src/Ipc.antt =====
-- boxer/ipc.py: the error codes of the protocol, and Python exceptions as values.
-- An `IPCError` is kept with its code; the text of its message is not modelled. Any other exception
-- is `exception`, with the name of its class.
pub mod Yields
use boxer.Base.{String, Bool, true, false, ◌≡◌, ◌⊎◌, inl, inr, refl}

pub data ErrorCode : Type 0 where
  parse_error invalid_request method_not_found invalid_params internal : ErrorCode
  permission_denied not_found resource_exhausted policy_violation : ErrorCode

pub data Error : Type 0 where
  ipc_error : ErrorCode → Error
  exception : String → Error

pub data Result {ℓ} (A : Type ℓ) : Type ℓ where
  err : Error → Result A
  ok : A → Result A

-- `if not b: raise e`
abbrev pub require : Bool → Error → Result (Unit {0})
require false e = err e
require true e = ok tt

-- `if b: raise e`
abbrev pub refuse : Bool → Error → Result (Unit {0})
refuse true e = err e
refuse false e = ok tt

abbrev pub invalid {ℓ} : {A : Type ℓ} → Result A
invalid = err (ipc_error invalid_params)

-- The rest runs on what came out, unless an exception did.
module _ {ℓ κ} {A : Type ℓ} {B : Type κ} where
  infixl 5 ◌>>=◌
  abbrev pub ◌>>=◌ : Result A → (A → Result B) → Result B
  err raised >>= rest = err raised
  ok value >>= rest = rest value

infixl 5 ◌>>◌
abbrev pub ◌>>◌ {κ} : {B : Type κ} → Result (Unit {0}) → Result B → Result B
step >> rest = step >>= λ _. rest

pub Result-cases : (r : Result (Unit {0})) → (r ≡ ok tt) ⊎ ((e : Error) × (r ≡ err e))
Result-cases (ok a) = inl refl
Result-cases (err e) = inr (e, refl)

pub ok_injective {ℓ} : {A : Type ℓ} (a b : A) → ok a ≡ ok b → a ≡ b
ok_injective a b h = cc
