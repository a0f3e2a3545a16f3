-- ===== src/ProviderLedger.antt =====
-- apps/api/src/services/provider-ledger.service.ts: the ledger of provider calls, written only for
-- merchants that are mapped to a provider method.
pub mod Keeps
use c_zdan.Common.{ℕ, Bool, ◌&&◌, Option, none, some, List, [], ◌∷◌, String, ◌==◌, if◌then◌else◌}
use c_zdan.Common.Int.{ℤ}
use c_zdan.Schema.{TxType, ProviderMethod, ProviderRow}
use c_zdan.Store.{ok, Db, Trx}

-- The types that `ResolverTxType` lists, compared.
abbrev pub same_flow : TxType → TxType → Bool
same_flow TxType.topup TxType.topup = Bool.true
same_flow TxType.merchant_withdraw TxType.merchant_withdraw = Bool.true
same_flow TxType.merchant_credit TxType.merchant_credit = Bool.true
same_flow TxType.spend TxType.spend = Bool.true
same_flow _ _ = Bool.false

-- `resolveProviderMethodId`: the active row for the merchant and the flow.
unfoldable pub resolve_provider_method : ℕ → TxType → List ProviderMethod → Option ProviderMethod
resolve_provider_method m type [] = none
resolve_provider_method m type (r ∷ rs) =
    if r.merchant_id == m && (same_flow r.tx_type type && r.is_active)
    then some r
    else resolve_provider_method m type rs

pub record ProviderLedgerWrite : Type 0 where
  pub merchant_id : ℕ
  pub tx_type : TxType
  pub is_inflow : Bool
  pub amount_gross : ℤ
  pub provider_commission : ℤ
  pub amount_net : ℤ
  pub transaction_id : ℕ
  pub external_ref : Option String
  pub internal_ref : Option String
  pub user_id : ℕ

-- `writeProviderLedger`: a missing mapping skips the row and never stops the money flow.
unfoldable pub write_provider_ledger : ProviderLedgerWrite → Trx (Option ℕ)
write_provider_ledger opts db =
    elim (resolve_provider_method opts.merchant_id opts.tx_type db.provider_methods) [
      | none ↦ ok (none, db)
      | some r ↦ ok (
        some r.provider_method_id,
        record db {
          provider_ledger =
              (record {
                provider_id = r.provider_id;
                provider_method_id = r.provider_method_id;
                is_inflow = opts.is_inflow;
                amount_gross = opts.amount_gross;
                provider_commission = opts.provider_commission;
                amount_net = opts.amount_net;
                transaction_id = opts.transaction_id;
                external_ref = opts.external_ref;
                internal_ref = opts.internal_ref;
                user_id = opts.user_id;
              })
              ∷ db.provider_ledger;
        },
      )
    ]
