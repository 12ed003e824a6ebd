-- ===== src/Lifecycle/Tests.antt =====
-- A run of the purge.
use mailgate.Common.{ok, SignedNumber, ◌≡◌, refl, false, some, arith}
use mailgate.Lifecycle.{RetentionPolicy, retention_counts, purge_retention}
use mailgate.Lifecycle.Purged.{purged, purge_retention-purged}
use mailgate.Samples.{sample_database}

abbrev sample_policy : RetentionPolicy
sample_policy = record {
  approved_days = 365;
  quarantined_days = 30;
  rejected_days = 30;
  token_days = 30;
  audit_days = 365;
}

abbrev one_row : SignedNumber
one_row = record { is_negative = false; magnitude = 1 }

-- After 31 days the quarantined message is old, and the approved one is not.
purge_retention-purged_example :
    purge_retention sample_policy 2_700_000 one_row sample_database
    ≡ ok (
        some (
          retention_counts sample_policy 2_700_000 sample_database,
          purged sample_policy 2_700_000 sample_database,
        ))
purge_retention-purged_example =
    purge_retention-purged sample_policy 2_700_000 one_row sample_database refl (omega arith)
      (omega arith)

test_counts : (retention_counts sample_policy 2_700_000 sample_database).quarantined_messages ≡ 1
unfolding retention_counts
test_counts = refl
