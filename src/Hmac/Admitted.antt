-- ===== src/Hmac/Admitted.antt =====
-- What holds of every request that the middleware admits.
use text.Mathlib.TextEquality.{eq_iff}
use c_zdan.Common.{
  ℕ, ◌+◌, ◌*◌, ◌/◌, ◌≤◌, ◌≡◌, refl, subst, Bool, true, false, not, ◌&&◌, Option, none, some, String,
  str_eq, arith, Bool-cases, inl, inr, ◌⊎◌,
}
use c_zdan.Common.Int.{ℤ, pos, pos_part, neg_part, ◌+ℤ◌, ◌-ℤ◌, ◌≤ℤ◌, int_laws}
use c_zdan.Hmac.{
  Request, Credentials, Directory, Finite, Runtime, truthy, or_else, Refusal, Verdict, admit,
  preflight, refuse, ◌>>=◌, refuse_if, or_refuse, Keys, keys_of, is_child, parent_of, signing_keys,
  is_fresh, check_signature, is_legacy, check_auth, ip_allowed, authenticate,
}

-- How to read a chain of refusals that ends in an admission.
module _ {A B : Type 0} where
  bind_admits :
      (m : Verdict A) (f : A → Verdict B) (b : B)
      → (m >>= f) ≡ admit b
      → (a : A) × ((m ≡ admit a) × (f a ≡ admit b))
  unfolding ◌>>=◌
  bind_admits (admit a) f b e = (a, (refl, e))
  bind_admits preflight f b e = absurd (cc)
  bind_admits (refuse n r) f b e = absurd (cc)

  or_refuse_admits :
      (o : Option A) (n : ℕ) (r : Refusal) (f : A → Verdict B) (b : B)
      → (or_refuse o n r >>= f) ≡ admit b
      → (a : A) × ((o ≡ some a) × (f a ≡ admit b))
  unfolding or_refuse ◌>>=◌
  or_refuse_admits none n r f b e = absurd (cc)
  or_refuse_admits (some a) n r f b e = (a, (refl, e))

refuse_if_admits :
    {B : Type 0} (t : Bool) (n : ℕ) (r : Refusal) (f : Unit {0} → Verdict B) (b : B)
    → (refuse_if t n r >>= f) ≡ admit b
    → (t ≡ false) × (f tt ≡ admit b)
unfolding refuse_if ◌>>=◌
refuse_if_admits true n r f b e = absurd (cc)
refuse_if_admits false n r f b e = (refl, e)

refuse_if_end : (t : Bool) (n : ℕ) (r : Refusal) → refuse_if t n r ≡ admit tt → t ≡ false
unfolding refuse_if
refuse_if_end true n r e = absurd (cc)
refuse_if_end false n r e = refl

-- At most five minutes between the clock, in whole seconds, and the timestamp, both times the
-- timestamp's denominator.
pub record IsTimely (now_ms : ℕ) (n : Finite) : Type 0 where
  pub not_late :
      pos (now_ms / 1000 * (n.denominator_pred + 1))
      ≤ℤ n.numerator +ℤ pos (300 * (n.denominator_pred + 1))
  pub not_early :
      n.numerator
      ≤ℤ pos (now_ms / 1000 * (n.denominator_pred + 1)) +ℤ pos (300 * (n.denominator_pred + 1))

-- The keys are the merchant's own, or, for a child, those of its active parent.
pub data IsKeysOf (rt : Runtime) (dir : Directory) (m : Credentials) (keys : Keys) : Type 0 where
  own : is_child m.merchant_scope ≡ false → keys ≡ keys_of rt m → IsKeysOf rt dir m keys
  inherited :
      (id : ℕ) (p : Credentials)
      → is_child m.merchant_scope ≡ true
      → m.parent_merchant_id ≡ some id
      → dir.by_id id ≡ some p
      → p.is_active ≡ true
      → keys ≡ keys_of rt p
      → IsKeysOf rt dir m keys

-- The sender knows the secret: it signed the timestamp and the body, and lately; or, where that is
-- allowed and there is no signature with a timestamp, it sent the secret itself.
pub data IsAuthentic (rt : Runtime) (allow_legacy : Bool) (now_ms : ℕ) (keys : Keys) (req : Request)
    : Type 0 where
  by_signature :
      (sig ts secret : String) (n : Finite)
      → truthy req.signature ≡ some sig
      → truthy req.timestamp ≡ some ts
      → truthy keys.signing_secret ≡ some secret
      → rt.to_number ts ≡ some n
      → IsTimely now_ms n
      → rt.hmac_sha256_hex secret
          (Prim.Native.String.◌++◌ ts (Prim.Native.String.◌++◌ ":" req.body_text))
        ≡ rt.to_lower sig
      → IsAuthentic rt allow_legacy now_ms keys req
  by_secret :
      (secret : String)
      → (truthy req.signature ≡ none) ⊎ (truthy req.timestamp ≡ none)
      → allow_legacy ≡ true
      → truthy req.legacy_secret ≡ some secret
      → rt.sha256_hex secret ≡ keys.legacy_secret_hash
      → IsAuthentic rt allow_legacy now_ms keys req

timely_parts :
    (t w : ℕ) (x : ℤ)
    → pos_part (pos t -ℤ x) + neg_part (pos t -ℤ x) ≤ w
    → (pos t ≤ℤ x +ℤ pos w) × (x ≤ℤ pos t +ℤ pos w)
timely_parts t w x h = omega int_laws

is_fresh-IsTimely : (now_ms : ℕ) (n : Finite) → is_fresh now_ms n ≡ true → IsTimely now_ms n
unfolding is_fresh
is_fresh-IsTimely now_ms n e =
    let p =
      timely_parts (now_ms / 1000 * (n.denominator_pred + 1)) (300 * (n.denominator_pred + 1))
        n.numerator (ground (arith, e)) in
    record { not_late = p.0; not_early = p.1 }

signing_keys-IsKeysOf :
    (rt : Runtime) (dir : Directory) (m : Credentials) (keys : Keys)
    → signing_keys rt dir m ≡ admit keys
    → IsKeysOf rt dir m keys
unfolding signing_keys parent_of
signing_keys-IsKeysOf rt dir m keys e = elim (Bool-cases (is_child m.merchant_scope)) [
  | inl child ↦
      let (p, (found, last)) = bind_admits (parent_of dir m) _ keys (rw child at e) in
      let (id, (named, rest)) = or_refuse_admits m.parent_merchant_id _ _ _ p found in
      let (q, (there, rest')) = or_refuse_admits (dir.by_id id) _ _ _ p rest in
      let (active, done) = refuse_if_admits (not q.is_active) _ _ _ p rest' in
      inherited id q child named there (ground arith) (ground arith)
  | inr not_child ↦ own not_child (ground arith)
]

text_of_test : (s t : String) → not (str_eq s t) ≡ false → s ≡ t
text_of_test s t e = (eq_iff s t).0 (ground arith)

check_signature-IsAuthentic :
    (rt : Runtime) (allow : Bool) (now_ms : ℕ) (keys : Keys) (req : Request) (sig ts : String)
    → truthy req.signature ≡ some sig
    → truthy req.timestamp ≡ some ts
    → check_signature rt now_ms keys sig ts req.body_text ≡ admit tt
    → IsAuthentic rt allow now_ms keys req
unfolding check_signature
check_signature-IsAuthentic rt allow now_ms keys req sig ts es et e =
    let (secret, (provisioned, e1)) = or_refuse_admits (truthy keys.signing_secret) _ _ _ tt e in
    let (hex, e2) = refuse_if_admits (not (rt.is_hex_64 (rt.to_lower sig))) _ _ _ tt e1 in
    let (n, (number, e3)) = or_refuse_admits (rt.to_number ts) _ _ _ tt e2 in
    let (fresh, e4) = refuse_if_admits (not (is_fresh now_ms n)) _ _ _ tt e3 in
    by_signature sig ts secret n es et provisioned number
      (is_fresh-IsTimely now_ms n (ground arith)) (text_of_test _ _ (refuse_if_end _ _ _ e4))

legacy_secret :
    (rt : Runtime) (allow : Bool) (now_ms : ℕ) (keys : Keys) (req : Request) (o : Option String)
    → truthy req.legacy_secret ≡ o
    → (truthy req.signature ≡ none) ⊎ (truthy req.timestamp ≡ none)
    → not (is_legacy rt allow keys o) ≡ false
    → IsAuthentic rt allow now_ms keys req
legacy_secret rt allow now_ms keys req none e absent t = absurd (cc)
legacy_secret rt true now_ms keys req (some s) e absent t =
    by_secret s absent refl e (text_of_test _ _ t)
legacy_secret rt false now_ms keys req (some s) e absent t = absurd (cc)

check_auth-IsAuthentic :
    (rt : Runtime) (allow : Bool) (now_ms : ℕ) (keys : Keys) (req : Request)
    (sig ts : Option String)
    → truthy req.signature ≡ sig
    → truthy req.timestamp ≡ ts
    → check_auth rt allow now_ms keys req sig ts ≡ admit tt
    → IsAuthentic rt allow now_ms keys req
unfolding check_auth
check_auth-IsAuthentic rt allow now_ms keys req (some sig) (some ts) es et e =
    check_signature-IsAuthentic rt allow now_ms keys req sig ts es et e
check_auth-IsAuthentic rt allow now_ms keys req (some sig) none es et e =
    legacy_secret rt allow now_ms keys req _ refl (inr et) (refuse_if_end _ _ _ e)
check_auth-IsAuthentic rt allow now_ms keys req none ts es et e =
    legacy_secret rt allow now_ms keys req _ refl (inl es) (refuse_if_end _ _ _ e)

readable_text :
    (rt : Runtime) (req : Request)
    → not (str_eq req.body_text "") && not (rt.is_json req.body_text) ≡ false
    → (req.body_text ≡ "") ⊎ (rt.is_json req.body_text ≡ true)
readable_text rt req e = elim (Bool-cases (str_eq req.body_text "")) [
  | inl empty ↦ inl ((eq_iff req.body_text "").0 empty)
  | inr full ↦ inr (ground arith)
]

-- What an admitted request has shown.
pub record IsAdmitted (rt : Runtime) (allow_legacy : Bool) (now_ms : ℕ) (dir : Directory)
    (req : Request) (m : Credentials) : Type 0 where
  pub posted : req.method ≡ "POST"
  pub key : String
  pub given : truthy (or_else req.merchant_key req.api_key) ≡ some key
  pub known : dir.by_key key ≡ some m
  pub active : m.is_active ≡ true
  pub keys : Keys
  pub keyed : IsKeysOf rt dir m keys
  pub authentic : IsAuthentic rt allow_legacy now_ms keys req
  pub readable : (req.body_text ≡ "") ⊎ (rt.is_json req.body_text ≡ true)
  pub from_allowed : ip_allowed m.ip_whitelist (truthy req.ip) ≡ true

-- The middleware lets a request through only as a POST of an active merchant, that of the key that
-- the request gives, from an address that the merchant's list allows, with a body that is empty or
-- JSON, and either signed with the
-- right secret (the merchant's, or for a child its active parent's) over a timestamp that is within
-- five minutes of the clock and the body, or, where the endpoint allows it and no signature with a
-- timestamp is given, with the legacy secret of the same keys.
pub authenticate-IsAdmitted :
    (rt : Runtime) (allow_legacy : Bool) (now_ms : ℕ) (dir : Directory) (req : Request)
    (m : Credentials)
    → authenticate rt allow_legacy now_ms dir req ≡ admit m
    → IsAdmitted rt allow_legacy now_ms dir req m
unfolding authenticate
authenticate-IsAdmitted rt allow now_ms dir req m e =
    elim (Bool-cases (str_eq req.method "OPTIONS")) [
      | inl options ↦ absurd (ground arith)
      | inr other ↦
          let (post, e1) =
            refuse_if_admits (not (str_eq req.method "POST")) _ _ _ m (rw other at e) in
          let (key, (given, e2)) = or_refuse_admits _ _ _ _ m e1 in
          let (r, (known, e3)) = or_refuse_admits (dir.by_key key) _ _ _ m e2 in
          let (active, e4) = refuse_if_admits (not r.is_active) _ _ _ m e3 in
          let (keys, (found, e5)) = bind_admits (signing_keys rt dir r) _ m e4 in
          let (json, e6) = refuse_if_admits _ _ _ _ m e5 in
          let (u, (checked, e7)) = bind_admits _ _ m e6 in
          let (allowed, e8) = refuse_if_admits _ _ _ _ m e7 in
          subst (IsAdmitted rt allow now_ms dir req) (same r m e8) (record {
            posted = text_of_test _ _ post;
            key = key;
            given = given;
            known = known;
            active = ground arith;
            keys = keys;
            keyed = signing_keys-IsKeysOf rt dir r keys found;
            authentic = check_auth-IsAuthentic rt allow now_ms keys req _ _ refl refl checked;
            readable = readable_text rt req json;
            from_allowed = ground arith;
          })
    ]
  where
    same : (r m : Credentials) → admit r ≡ admit m → r ≡ m
    same r m e = cc
