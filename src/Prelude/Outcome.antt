-- ===== src/Prelude/Outcome.antt =====
-- `anyhow::Result`: a value or the kind of error that the source reports. `panic` stands for an
-- `unwrap` or `expect` that fails.
use mathlib.Core.Path.{◌≡◌, refl}
use mathlib.Core.Bool.{Bool, true, false}
use mathlib.Core.Option.{Option, none, some}
use mathlib.Core.Logic.{◌⊎◌, inl, inr}

pub data Error : Type 0 where
  panic not_found corrupt invalid_signature id_mismatch already_exists : Error
  malformed unknown_kind sign_failed no_index no_entry not_owner system_record : Error
  current_device not_encrypted unsupported_version no_recipient decrypt_failed no_provider stale
        protocol_error :
      Error

pub data Result {ℓ} (A : Type ℓ) : Type ℓ where
  ok : A → Result A
  err : Error → Result A

-- `ok_or_else`
abbrev pub or_err {ℓ} : {A : Type ℓ} → Option A → Error → Result A
or_err none e = err e
or_err (some a) e = ok a

-- `.ok()`
abbrev pub ok? {ℓ} : {A : Type ℓ} → Result A → Option A
ok? (err e) = none
ok? (ok a) = some a

infixl 5 ◌>>=◌ ◌>>◌
-- The `?` of an expression, with the rest of the body behind it.
abbrev pub ◌>>=◌ {ℓ κ} : {A : Type ℓ} {B : Type κ} → Result A → (A → Result B) → Result B
err e >>= rest = err e
ok a >>= rest = rest a

-- `if !test { bail!(e) }`
abbrev pub guard : Bool → Error → Result (Unit {0})
guard false why = err why
guard true why = ok tt

abbrev pub ◌>>◌ {ℓ} : {B : Type ℓ} → Result (Unit {0}) → Result B → Result B
first >> second = first >>= λ done. second

pub Result-cases {ℓ} :
    {A : Type ℓ} (r : Result A) → ((a : A) × (r ≡ ok a)) ⊎ ((e : Error) × (r ≡ err e))
Result-cases (ok a) = inl (a, refl)
Result-cases (err e) = inr (e, refl)
