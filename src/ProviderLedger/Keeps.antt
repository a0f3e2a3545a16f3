-- ===== src/ProviderLedger/Keeps.antt =====
-- The provider ledger moves no money.
use c_zdan.Common.{refl, Option-cases, inl, inr}
use c_zdan.Store.{Ensures}
use c_zdan.Ledger.Keeps.{KeepsMoney-refl, Keeps}
use c_zdan.ProviderLedger.{ProviderLedgerWrite, resolve_provider_method, write_provider_ledger}

pub write_provider_ledger-Keeps : (opts : ProviderLedgerWrite) → Keeps (write_provider_ledger opts)
unfolding write_provider_ledger
write_provider_ledger-Keeps opts db =
    elim (Option-cases
      (resolve_provider_method opts.merchant_id opts.tx_type db.provider_methods)) [
        | inl e ↦ rw (e, Ensures) (KeepsMoney-refl db)
        | inr (r, e) ↦
            rw (e, Ensures)
              (record {
                balances = λ u. refl;
                reserves = λ u. refl;
                merchants_kept = refl;
                withdraws_kept = refl;
                topups_kept = refl;
                codes_kept = refl;
                transactions_kept = refl;
                pool_log_kept = refl;
                settlement_log_kept = refl;
              })
      ]
