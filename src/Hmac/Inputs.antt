-- ===== src/Hmac/Inputs.antt =====
-- What the middleware of apps/api/src/lib/merchant-hmac.ts reads: the request, the merchants' keys,
-- and what it calls of the runtime.
use c_zdan.Common.{ℕ, Bool, Option, none, some, List, String, str_eq, if◌then◌else◌}
use c_zdan.Common.Int.{ℤ}
use c_zdan.Schema.{MerchantScope}

-- A header that is absent is `none`. `ip` is what `clientIp` returns.
pub record Request : Type 0 where
  pub method : String
  pub merchant_key : Option String
  pub api_key : Option String
  pub timestamp : Option String
  pub signature : Option String
  pub merchant_ref : Option String
  pub legacy_secret : Option String
  pub body_text : String
  pub ip : Option String

-- The columns of `merchants` that authenticate.
pub record Credentials : Type 0 where
  pub id : ℕ
  pub is_active : Bool
  pub merchant_scope : MerchantScope
  pub parent_merchant_id : Option ℕ
  pub signing_secret : Option String
  pub signing_secret_encrypted : Option String
  pub api_secret_hash : String
  pub ip_whitelist : Option (List String)

-- `WHERE api_key = …` and `WHERE id = …`.
pub record Directory : Type 0 where
  pub by_key : String → Option Credentials
  pub by_id : ℕ → Option Credentials

-- A finite number is a fraction: its numerator, and its denominator less one. `none` is NaN or
-- infinite.
pub record Finite : Type 0 where
  pub numerator : ℤ
  pub denominator_pred : ℕ

-- `decrypt` is `none` where `decryptString` throws; `is_hex_64` is the test of `HMAC_SIG_RE`, and
-- of the length, which the expression fixes too; `is_json` is that `JSON.parse` succeeds.
pub record Runtime : Type 0 where
  pub hmac_sha256_hex : String → String → String
  pub sha256_hex : String → String
  pub decrypt : String → Option String
  pub to_lower : String → String
  pub is_hex_64 : String → Bool
  pub to_number : String → Option Finite
  pub is_json : String → Bool

-- What is left of a text that JavaScript tests: an empty one counts as absent.
unfoldable pub truthy : Option String → Option String
truthy none = none
truthy (some s) = if str_eq s "" then none else some s

abbrev pub or_else : Option String → Option String → Option String
or_else none b = b
or_else (some a) b = some a

-- `resolveMerchantSigningSecret` of apps/api/src/lib/crypto.ts.
unfoldable pub resolve_signing_secret : Runtime → Option String → Option String → Option String
resolve_signing_secret rt encrypted plaintext = elim (truthy encrypted) [
  | none ↦ plaintext
  | some e ↦ or_else (rt.decrypt e) plaintext
]
