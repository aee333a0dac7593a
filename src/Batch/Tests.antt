-- ===== src/Batch/Tests.antt =====
-- A batch of two rows, the first of which cannot be analysed.
use payment_ops.Prelude.{ℕ, zero, suc, ◌≡◌, refl, true, Option, none, some, [], ◌∷◌, codes}
use payment_ops.Domain.Payment.{ready}
use payment_ops.Mapping.{MappingDefinition}
use payment_ops.Batch.{
  queued, BatchJob, Analysed, Input, returned, InputFormat, LoadedProfile, StoredProfile,
  read_rules, read_profile, load_profile, loaded, process_batch,
}
use payment_ops.Batch.Total.{IsSettled, process_batch-total}

abbrev rows_above_zero : LoadedProfile → ℕ → Option Analysed
rows_above_zero profile zero = none
rows_above_zero profile (suc n) = some (record { address_readiness = some ready; rule_ids = [] })

abbrev job : BatchJob
job = record {
  status = queued;
  total_records = 0;
  processed_records = 0;
  counts = record { ready = 0; repairable = 0; review_required = 0; unresolved = 0 };
  failed_count = 0;
  report = none;
}

abbrev mapping : MappingDefinition
mapping = record {
  mapping_version = codes "1";
  source_format = payment_ops.Mapping.csv;
  record_selector = none;
  fields = [];
}

abbrev stored : Option StoredProfile
stored = some (record {
  mapping = some mapping;
  rules = [];
  input_format = some InputFormat.csv;
  fits = true;
})

abbrev profile : LoadedProfile
profile = record { mapping = mapping; rules = []; input_format = InputFormat.csv }

is_loaded : load_profile stored ≡ loaded profile
unfolding load_profile read_profile read_rules
is_loaded = refl

abbrev two_rows : Input ℕ rows_above_zero
two_rows = record { bytes = 20; rows = some (0 ∷ 1 ∷ []) }

process_batch-total_example :
    IsSettled 2 (process_batch ℕ rows_above_zero (some two_rows) stored job).0
    × (process_batch ℕ rows_above_zero none none
          (process_batch ℕ rows_above_zero (some two_rows) stored job).0
        ≡ (
          (process_batch ℕ rows_above_zero (some two_rows) stored job).0,
          returned (process_batch ℕ rows_above_zero (some two_rows) stored job).0.report,
        ))
process_batch-total_example =
    process_batch-total ℕ rows_above_zero two_rows (0 ∷ 1 ∷ []) stored profile job refl refl refl
      refl refl is_loaded none none
