-- ===== src/Hmac/Guard.antt =====
-- `merchantHmac` of apps/api/src/lib/merchant-hmac.ts up to the idempotency slot: each refusal in its
-- place.
use c_zdan.Common.{
  ℕ, ◌+◌, ◌*◌, ◌/◌, Bool, true, false, not, ◌&&◌, ◌||◌, Option, none, some, List, [], ◌∷◌, String,
  str_eq, leb, if◌then◌else◌,
}
use c_zdan.Common.Int.{ℤ, pos, pos_part, neg_part, ◌-ℤ◌}
use c_zdan.Schema.{MerchantScope}
use c_zdan.Hmac.Inputs.{
  Request, Credentials, Directory, Finite, Runtime, truthy, or_else, resolve_signing_secret,
}

pub data Refusal : Type 0 where
  method invalid_key merchant_inactive parent_merchant_not_found parent_merchant_inactive : Refusal
  bad_json merchant_not_provisioned bad_signature bad_timestamp stale_timestamp : Refusal
  ip_not_allowed : Refusal

-- `preflight` is the empty answer to OPTIONS.
pub data Verdict (A : Type 0) : Type 0 where
  admit : A → Verdict A
  preflight : Verdict A
  refuse : ℕ → Refusal → Verdict A

infixl 5 ◌>>=◌ ◌>>◌
unfoldable pub ◌>>=◌ : {A B : Type 0} → Verdict A → (A → Verdict B) → Verdict B
admit a >>= f = f a
preflight >>= f = preflight
refuse n e >>= f = refuse n e

abbrev pub ◌>>◌ : {A B : Type 0} → Verdict A → Verdict B → Verdict B
m >> k = m >>= λ _. k

unfoldable pub refuse_if : Bool → ℕ → Refusal → Verdict (Unit {0})
refuse_if true n e = refuse n e
refuse_if false n e = admit tt

unfoldable pub or_refuse : {A : Type 0} → Option A → ℕ → Refusal → Verdict A
or_refuse none n e = refuse n e
or_refuse (some a) n e = admit a

-- `signingSecret` and `legacySecretHash`.
pub record Keys : Type 0 where
  pub signing_secret : Option String
  pub legacy_secret_hash : String

abbrev pub keys_of : Runtime → Credentials → Keys
keys_of rt m = record {
  signing_secret = resolve_signing_secret rt m.signing_secret_encrypted m.signing_secret;
  legacy_secret_hash = m.api_secret_hash;
}

abbrev pub is_child : MerchantScope → Bool
is_child MerchantScope.child = true
is_child _ = false

unfoldable pub parent_of : Directory → Credentials → Verdict Credentials
parent_of dir m = do
  id ← or_refuse m.parent_merchant_id 500 Refusal.parent_merchant_not_found
  parent ← or_refuse (dir.by_id id) 500 Refusal.parent_merchant_not_found
  refuse_if (not parent.is_active) 403 Refusal.parent_merchant_inactive
  admit parent

abbrev parent_keys : Runtime → Directory → Credentials → Verdict Keys
parent_keys rt dir m = do parent ← parent_of dir m; admit (keys_of rt parent)

-- A child's requests are signed with its parent's keys.
unfoldable pub signing_keys : Runtime → Directory → Credentials → Verdict Keys
signing_keys rt dir m =
    if is_child m.merchant_scope then parent_keys rt dir m else admit (keys_of rt m)

abbrev pub timestamp_window_sec : ℕ
timestamp_window_sec = 300

abbrev magnitude : ℤ → ℕ
magnitude a = pos_part a + neg_part a

-- `Math.abs(nowSec - tsNum) <= TIMESTAMP_WINDOW_SEC`.
unfoldable pub is_fresh : ℕ → Finite → Bool
is_fresh now_ms ts =
    leb (magnitude (pos (now_ms / 1000 * (ts.denominator_pred + 1)) -ℤ ts.numerator))
      (timestamp_window_sec * (ts.denominator_pred + 1))

abbrev signed_text : String → String → String
signed_text ts body = Prim.Native.String.◌++◌ ts (Prim.Native.String.◌++◌ ":" body)

-- The path of a request that has a signature and a timestamp.
unfoldable pub check_signature : Runtime → ℕ → Keys → String → String → String → Verdict (Unit {0})
check_signature rt now_ms keys sig ts body = do
  secret ← or_refuse (truthy keys.signing_secret) 500 Refusal.merchant_not_provisioned
  refuse_if (not (rt.is_hex_64 (rt.to_lower sig))) 401 Refusal.bad_signature
  n ← or_refuse (rt.to_number ts) 401 Refusal.bad_timestamp
  refuse_if (not (is_fresh now_ms n)) 401 Refusal.stale_timestamp
  refuse_if (not (str_eq (rt.hmac_sha256_hex secret (signed_text ts body)) (rt.to_lower sig))) 401
      Refusal.bad_signature

abbrev pub is_legacy : Runtime → Bool → Keys → Option String → Bool
is_legacy rt allow_legacy keys none = false
is_legacy rt allow_legacy keys (some s) =
    allow_legacy && str_eq (rt.sha256_hex s) keys.legacy_secret_hash

-- Both are there, or the legacy secret decides.
unfoldable pub check_auth :
    Runtime → Bool → ℕ → Keys → Request → Option String → Option String → Verdict (Unit {0})
check_auth rt allow_legacy now_ms keys req (some sig) (some ts) =
    check_signature rt now_ms keys sig ts req.body_text
check_auth rt allow_legacy now_ms keys req _ _ =
    refuse_if (not (is_legacy rt allow_legacy keys (truthy req.legacy_secret))) 401
      Refusal.bad_signature

unfoldable pub includes : String → List String → Bool
includes s [] = false
includes s (x ∷ xs) = str_eq x s || includes s xs

-- No list, or an empty one, allows every address.
unfoldable pub ip_allowed : Option (List String) → Option String → Bool
ip_allowed none ip = true
ip_allowed (some []) ip = true
ip_allowed (some (x ∷ xs)) none = false
ip_allowed (some (x ∷ xs)) (some ip) = includes ip (x ∷ xs)

abbrev pub check_post : Runtime → Bool → ℕ → Directory → Request → Verdict Credentials
check_post rt allow_legacy now_ms dir req = do
  refuse_if (not (str_eq req.method "POST")) 405 Refusal.method
  key ← or_refuse (truthy (or_else req.merchant_key req.api_key)) 401 Refusal.invalid_key
  m ← or_refuse (dir.by_key key) 401 Refusal.invalid_key
  refuse_if (not m.is_active) 403 Refusal.merchant_inactive
  keys ← signing_keys rt dir m
  refuse_if (not (str_eq req.body_text "") && not (rt.is_json req.body_text)) 400 Refusal.bad_json
  check_auth rt allow_legacy now_ms keys req (truthy req.signature) (truthy req.timestamp)
  refuse_if (not (ip_allowed m.ip_whitelist (truthy req.ip))) 403 Refusal.ip_not_allowed
  admit m

-- The merchant of an admitted request.
unfoldable pub authenticate : Runtime → Bool → ℕ → Directory → Request → Verdict Credentials
authenticate rt allow_legacy now_ms dir req =
    if str_eq req.method "OPTIONS" then preflight else check_post rt allow_legacy now_ms dir req
