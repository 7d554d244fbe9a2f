-- ===== src/StorageService/Keys.antt =====
-- The composite keys of tenants.
use pair_db.Prelude.{◌≢◌, none, true, false, [], ◌∷◌, ◌++◌, ◌≡◌, refl, arith}
use pair_db.Bytes.{Bytes}
use pair_db.Validator.{Validator, Unicode, validate_tenant_id, contains}
use pair_db.StorageService.{build_key}

split_first :
    (t t' k k' : Bytes)
    → contains b':' t ≡ false
    → contains b':' t' ≡ false
    → t ++ b':' ∷ k ≡ t' ++ b':' ∷ k'
    → (t ≡ t') × (k ≡ k')
split_first [] [] k k' p q e = (refl, cc)
split_first [] (y ∷ t') k k' p q e = let y_is : b':' ≡ y = cc in ground arith
split_first (x ∷ t) [] k k' p q e = let x_is : x ≡ b':' = cc in ground arith
split_first (x ∷ t) (y ∷ t') k k' p q e =
    let rest = split_first t t' k k' (ground arith) (ground arith) (cc) in
    let same : x ≡ y = cc in (cc (rest.0), rest.1)

pub tenant_no_colon :
    (U : Unicode) (v : Validator) (t : Bytes)
    → validate_tenant_id U v t ≡ none
    → contains b':' t ≡ false
unfolding validate_tenant_id
tenant_no_colon U v t e = ground arith

-- Different keys of validated tenants have different composite keys.
pub build_key-injective :
    (U : Unicode) (v : Validator) (t t' k k' : Bytes)
    → validate_tenant_id U v t ≡ none
    → validate_tenant_id U v t' ≡ none
    → build_key t k ≡ build_key t' k'
    → (t ≡ t') × (k ≡ k')
unfolding build_key
build_key-injective U v t t' k k' p q e =
    split_first t t' k k' (tenant_no_colon U v t p) (tenant_no_colon U v t' q) e

contains-append : (t part : Bytes) → contains b':' (t ++ b':' ∷ part) ≡ true
contains-append [] part = refl
contains-append (x ∷ t) part = ground (arith, contains-append t part)

-- A name with a colon is no valid tenant.
pub colon-invalid :
    (U : Unicode) (v : Validator) (t part : Bytes)
    → validate_tenant_id U v (t ++ b':' ∷ part) ≢ none
colon-invalid U v t part e =
    let no_colon = tenant_no_colon U v (t ++ b':' ∷ part) e in
    ground (arith, contains-append t part, no_colon)
