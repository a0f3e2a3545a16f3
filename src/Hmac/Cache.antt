-- ===== src/Hmac/Cache.antt =====
-- The idempotency table of apps/api/src/lib/merchant-hmac.ts: claimed before the handler runs,
-- answered after it. Times are milliseconds; a day of `addDays` has 24 hours.
use c_zdan.Common.{
  ℕ, ◌+◌, ◌*◌, Bool, true, false, ◌&&◌, Option, none, some, String, str_eq, ltb, leb, ◌==◌,
  if◌then◌else◌,
}

-- `merchant_idempotency_unique`.
pub record SlotKey : Type 0 where
  pub merchant_id : ℕ
  pub endpoint : String
  pub merchant_ref : String

unfoldable pub same_key : SlotKey → SlotKey → Bool
same_key a b =
    a.merchant_id == b.merchant_id
    && (str_eq a.endpoint b.endpoint && str_eq a.merchant_ref b.merchant_ref)

-- A row. The status 0 marks the placeholder of a request whose handler runs.
pub record Slot : Type 0 where
  pub request_hash : String
  pub status_code : ℕ
  pub response_body : String
  pub expires_at : ℕ

abbrev pub Slots : Type 0
Slots = SlotKey → Option Slot

unfoldable pub with_slot : SlotKey → Option Slot → Slots → Slots
with_slot k v slots j = if same_key k j then v else slots j

abbrev pub day : ℕ
day = 86400000

abbrev pub idem_ttl_days : ℕ
idem_ttl_days = 7

abbrev pub err_cache_ttl_days : ℕ
err_cache_ttl_days = 1

abbrev pub placeholder : ℕ → String → Slot
placeholder now hash = record {
  request_hash = hash;
  status_code = 0;
  response_body = "{}";
  expires_at = now + idem_ttl_days * day;
}

-- The INSERT of `claimIdempotencySlot`: `none` where the row is there already.
unfoldable pub claim : ℕ → SlotKey → String → Slots → Option Slots
claim now k hash slots = elim (slots k) [
  | none ↦ some (with_slot k (some (placeholder now hash)) slots)
  | some s ↦ none
]

-- What a request that lost the claim is told, by the row that its SELECT saw.
pub record Answer : Type 0 where
  pub status : ℕ
  pub body : String

abbrev pub concurrent : Answer
concurrent = record {
  status = 409;
  body = "{\"success\":false,\"error_code\":\"CONCURRENT_REQUEST\"}";
}

abbrev pub mismatch : Answer
mismatch = record {
  status = 409;
  body = "{\"success\":false,\"error_code\":\"REF_PAYLOAD_MISMATCH\"}";
}

unfoldable pub answer_by : String → Option Slot → Answer
answer_by hash none = concurrent
answer_by hash (some s) =
    if s.status_code == 0
    then concurrent
    else if str_eq s.request_hash hash
    then record { status = s.status_code; body = s.response_body }
    else mismatch

abbrev pub is_client_error : ℕ → Bool
is_client_error status = leb 400 status && ltb status 500

-- `errorCode == null && status < 500`, for a request that has a reference.
abbrev pub is_cacheable : Bool → ℕ → Bool
is_cacheable has_error status = (if has_error then false else true) && ltb status 500

abbrev answered : Answer → Slot → Slot
answered a s = record s { status_code = a.status; response_body = a.body }

abbrev update : (Slot → Slot) → Option Slot → Option Slot
update f none = none
update f (some s) = some (f s)

-- `persistCall` for the request that claimed the slot: UPDATE, UPDATE for a shorter time, or DELETE.
unfoldable pub persist_claimed : ℕ → SlotKey → Bool → Answer → Slots → Slots
persist_claimed now k has_error a slots =
    if is_cacheable has_error a.status
    then with_slot k (update (answered a) (slots k)) slots
    else if is_client_error a.status
    then with_slot k
        (update (λ s. record (answered a s) { expires_at = now + err_cache_ttl_days * day })
          (slots k))
        slots
    else with_slot k none slots

-- `persistCall` for one that did not, whose response is never cacheable: a client's error is
-- inserted where there is no row.
unfoldable pub persist_unclaimed : ℕ → SlotKey → String → Answer → Slots → Slots
persist_unclaimed now k hash a slots = elim (slots k) [
  | some s ↦ slots
  | none ↦
      if is_client_error a.status
      then with_slot k
          (some (record {
            request_hash = hash;
            status_code = a.status;
            response_body = a.body;
            expires_at = now + err_cache_ttl_days * day;
          }))
          slots
      else slots
]

-- The cleanup of apps/api/src/workers/scheduler.ts: DELETE … WHERE expires_at < now.
unfoldable pub sweep : ℕ → Slots → Slots
sweep now slots k = elim (slots k) [
  | none ↦ none
  | some s ↦ if ltb s.expires_at now then none else some s
]
