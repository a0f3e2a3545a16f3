-- ===== src/Examples/Signed.antt =====
-- A signed request, a run of its handler and a retry, and the theorems about them applied.
use c_zdan.Common.{◌≡◌, ◌≤◌, refl, true, false, none, some, [], ◌∷◌, arith}
use c_zdan.Common.Int.{pos, ◌-ℤ◌}
use c_zdan.Schema.{MerchantScope}
use c_zdan.Hmac.{
  persist_unclaimed, Request, Credentials, Directory, Runtime, truthy, resolve_signing_secret,
  admit, ◌>>=◌, refuse_if, or_refuse, signing_keys, parent_of, is_fresh, check_signature,
  check_auth, includes, ip_allowed, authenticate, SlotKey, same_key, with_slot, Answer, concurrent,
  mismatch, claim, answer_by, placeholder,
}
use c_zdan.Hmac.Admitted.{IsAdmitted, authenticate-IsAdmitted}
use c_zdan.Hmac.Protocol.{turns_away, State, Reach, empty, start, finish, starts, here, next}
use c_zdan.Hmac.AtMostOnce.{Reach-once}
use c_zdan.Hmac.Answered.{finish-replays, refusal_outlives_run, refused_late}

abbrev runtime : Runtime
runtime = record {
  hmac_sha256_hex = λ secret text. Prim.Native.String.◌++◌ secret text;
  sha256_hex = λ s. s;
  decrypt = λ e. none;
  to_lower = λ s. s;
  is_hex_64 = λ s. true;
  to_number = λ s. some (record { numerator = pos 100; denominator_pred = 0 });
  is_json = λ s. true;
}

abbrev parent : Credentials
parent = record {
  id = 1;
  is_active = true;
  merchant_scope = MerchantScope.parent;
  parent_merchant_id = none;
  signing_secret = some "s";
  signing_secret_encrypted = none;
  api_secret_hash = "h";
  ip_whitelist = none;
}

abbrev child : Credentials
child = record parent {
  id = 2;
  merchant_scope = MerchantScope.child;
  parent_merchant_id = some 1;
  signing_secret = none;
  ip_whitelist = some ("10.0.0.1" ∷ []);
}

abbrev directory : Directory
directory = record { by_key = λ k. some child; by_id = λ id. some parent }

abbrev signed_request : Request
signed_request = record {
  method = "POST";
  merchant_key = some "k";
  api_key = none;
  timestamp = some "100";
  signature = some "s100:{}";
  merchant_ref = some "r1";
  legacy_secret = none;
  body_text = "{}";
  ip = some "10.0.0.1";
}

is_admitted : authenticate runtime false 250000 directory signed_request ≡ admit child
unfolding authenticate refuse_if or_refuse ◌>>=◌ truthy resolve_signing_secret signing_keys
    parent_of check_auth check_signature is_fresh ip_allowed includes ◌-ℤ◌
is_admitted = refl

authenticate-IsAdmitted_example : IsAdmitted runtime false 250000 directory signed_request child
authenticate-IsAdmitted_example =
    authenticate-IsAdmitted runtime false 250000 directory signed_request child is_admitted

abbrev key : SlotKey
key = record { merchant_id = 2; endpoint = "merchant-charge"; merchant_ref = "r1" }

abbrev started : State
started = start empty key (with_slot key (some (placeholder 5 "h1")) empty.slots)

started_Reach : Reach empty started
unfolding claim with_slot
started_Reach =
    next here (starts 5 key "h1" (with_slot key (some (placeholder 5 "h1")) empty.slots) refl refl)

Reach-once_example : (started.running key ≤ 1) × (started.started key ≤ 1)
unfolding same_key
Reach-once_example = Reach-once started_Reach key

abbrev done : Answer
done = record { status = 200; body = "{\"success\":true}" }

finish-replays_example :
    ((finish started 6 key false done).started key ≡ started.started key)
    × ((claim 7 key "h1" (finish started 6 key false done).slots ≡ none)
        × ((answer_by "h1" ((finish started 6 key false done).slots key) ≡ done)
            × (answer_by "h2" ((finish started 6 key false done).slots key) ≡ mismatch)))
unfolding same_key with_slot
finish-replays_example =
    finish-replays 6 key false done (placeholder 5 "h1") 7 "h2" started_Reach refl (omega arith)
      (omega arith) refl here refl refl

abbrev outage : Answer
outage = record { status = 503; body = "{}" }

-- One more request with another body, after the refusal is stored.
abbrev refused_again : State
refused_again =
    let s = refused_late 5 key "h1" outage in
    record s { slots = persist_unclaimed 9 key "h2" (answer_by "h2" none) s.slots }

refusal_outlives_run_example :
    (Reach empty (refused_late 5 key "h1" outage)
      × (((refused_late 5 key "h1" outage).running key ≡ 0)
          × (((refused_late 5 key "h1" outage).started key ≡ 1)
              × ((refused_late 5 key "h1" outage).cleared key ≡ 1))))
    × ((refused_again.started key ≡ 1)
        × ((claim 12 key "h1" refused_again.slots ≡ none)
            × (answer_by "h1" (refused_again.slots key) ≡ concurrent)))
refusal_outlives_run_example =
    refusal_outlives_run 5 key "h1" outage refused_again 12 (omega arith)
      (next here (turns_away 9 key "h2" none refl)) refl
