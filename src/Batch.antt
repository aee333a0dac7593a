-- ===== src/Batch.antt =====
-- apps/api/paymentops_api/services/batch_service.py: a batch job over the rows of a CSV file. The
-- reader of the file and the analysis of one row are parameters; `none` is an exception of theirs.
pub mod Total
mod Tests
use payment_ops.Prelude.{
  ℕ, ◌+◌, ◌%◌, String, Bool, true, false, ◌&&◌, ◌||◌, Option, none, some, List, [], ◌∷◌, ◌++◌, Text,
  str_eq, length, ltb, ◌==◌, if◌then◌else◌, ◌>>=◌,
}
use payment_ops.Domain.Payment.{AddressReadiness, ready, repairable, review_required, unresolved}
use payment_ops.Matching.Evaluate.{take}
use payment_ops.Mapping.{MappingDefinition}
use payment_ops.Rules.Declarative.{RuleConfig}

abbrev pub max_file_bytes : ℕ
max_file_bytes = 2_000_000

abbrev pub max_rows : ℕ
max_rows = 5_000

abbrev pub progress_interval : ℕ
progress_interval = 25

pub data JobStatus : Type 0 where
  queued running completed partial failed : JobStatus

-- Membership in (COMPLETED, PARTIAL, FAILED).
abbrev pub is_finished : JobStatus → Bool
is_finished queued = false
is_finished running = false
is_finished completed = true
is_finished partial = true
is_finished failed = true

-- The four keys of the dictionary `counts`, which are all that an analysis gives.
pub record Counts : Type 0 where
  pub ready : ℕ
  pub repairable : ℕ
  pub review_required : ℕ
  pub unresolved : ℕ

pub record Report : Type 0 where
  pub total_records : ℕ
  pub counts : Counts
  pub failed : ℕ
  pub top_rule_findings : List (String × ℕ)

pub record BatchJob : Type 0 where
  pub status : JobStatus
  pub total_records : ℕ
  pub processed_records : ℕ
  pub counts : Counts
  pub failed_count : ℕ
  pub report : Option Report

-- What the analysis of a row gives.
pub record Analysed : Type 0 where
  pub address_readiness : Option AddressReadiness
  pub rule_ids : List String

pub record Progress : Type 0 where
  pub job : BatchJob
  pub counts : Counts
  pub failed : ℕ
  pub top_rules : List (String × ℕ)

unfoldable pub tick : Option AddressReadiness → Counts → Counts
tick none c = record c { unresolved = c.unresolved + 1 }
tick (some ready) c = record c { ready = c.ready + 1 }
tick (some repairable) c = record c { repairable = c.repairable + 1 }
tick (some review_required) c = record c { review_required = c.review_required + 1 }
tick (some unresolved) c = record c { unresolved = c.unresolved + 1 }

-- `top_rules[rule_id] = top_rules.get(rule_id, 0) + 1`
unfoldable pub bump : String → List (String × ℕ) → List (String × ℕ)
bump rule [] = (rule, 1) ∷ []
bump rule ((r, k) ∷ rest) =
    let behind = bump rule rest in if str_eq r rule then (r, k + 1) ∷ rest else (r, k) ∷ behind

unfoldable pub bump_all : List String → List (String × ℕ) → List (String × ℕ)
bump_all [] counts = counts
bump_all (rule ∷ rules) counts = bump_all rules (bump rule counts)

-- A stable sort by falling count.
unfoldable pub insert : String × ℕ → List (String × ℕ) → List (String × ℕ)
insert x [] = x ∷ []
insert x (y ∷ ys) = let rest = insert x ys in if ltb x.1 y.1 then y ∷ rest else x ∷ y ∷ ys

unfoldable pub sort : List (String × ℕ) → List (String × ℕ)
sort [] = []
sort (x ∷ xs) = insert x (sort xs)

-- `_write_counts`
unfoldable pub write_counts : ℕ → Progress → Progress
write_counts total p = record p {
  job = record p.job {
    counts = p.counts;
    failed_count = p.failed;
    report = some (record {
      total_records = total;
      counts = p.counts;
      failed = p.failed;
      top_rule_findings = take 10 (sort p.top_rules);
    });
  };
}

-- One row: a failure is counted and does not stop the batch.
unfoldable pub count_row : Option Analysed → Progress → Progress
count_row none p = record p { failed = p.failed + 1 }
count_row (some a) p = record p {
  counts = tick a.address_readiness p.counts;
  top_rules = bump_all a.rule_ids p.top_rules;
}

-- The end of the loop's body: the row's number, and the counts at every interval and at the end.
unfoldable pub note_progress : ℕ → ℕ → Progress → Progress
note_progress total done p =
    let q : Progress = record p { job = record p.job { processed_records = done } } in
    if (done % progress_interval == 0) || (done == total) then write_counts total q else q

-- The job once all rows are processed.
unfoldable pub finish_job : ℕ → Progress → BatchJob
finish_job total p =
    let status = if p.failed == 0 then completed else partial in
    let last : Progress =
      write_counts total (record p { job = record p.job { status = status } }) in
    last.job

-- The counters at the start of the loop.
abbrev pub start_of : ℕ → BatchJob → Progress
start_of total job = record {
  job = record job { status = running; total_records = total };
  counts = record { ready = 0; repairable = 0; review_required = 0; unresolved = 0 };
  failed = 0;
  top_rules = [];
}

pub data InputFormat : Type 0 where
  iso20022_xml custom_xml json csv : InputFormat

-- The row of a profile, with what `model_validate`, `RuleConfig.from_dict` and `InputFormat` make of
-- its columns, and whether the other columns fit the model `IntegrationProfile`.
pub record StoredProfile : Type 0 where
  pub mapping : Option MappingDefinition
  pub rules : List (Option RuleConfig)
  pub input_format : Option InputFormat
  pub fits : Bool

-- What the analysis of a row reads of a profile.
pub record LoadedProfile : Type 0 where
  pub mapping : MappingDefinition
  pub rules : List RuleConfig
  pub input_format : InputFormat

pub data ProfileError : Type 0 where
  no_result invalid_mapping invalid_rule invalid_format invalid_profile : ProfileError

pub data Load : Type 0 where
  loaded : LoadedProfile → Load
  refused : ProfileError → Load

unfoldable pub read_rules : List (Option RuleConfig) → Option (List RuleConfig)
read_rules [] = some []
read_rules (rule ∷ rules) = rule >>= λ first. read_rules rules >>= λ rest. some (first ∷ rest)

unfoldable pub read_profile :
    Bool → Option MappingDefinition → Option (List RuleConfig) → Option InputFormat → Load
read_profile fits none rules format = refused invalid_mapping
read_profile fits (some m) none format = refused invalid_rule
read_profile fits (some m) (some rules) none = refused invalid_format
read_profile false (some m) (some rules) (some format) = refused invalid_profile
read_profile true (some m) (some rules) (some format) =
    loaded (record { mapping = m; rules = rules; input_format = format })

-- `_load_profile`
unfoldable pub load_profile : Option StoredProfile → Load
load_profile none = refused no_result
load_profile (some row) = read_profile row.fits row.mapping (read_rules row.rules) row.input_format

pub data BatchError : Type 0 where
  input_not_found file_too_large malformed_csv too_many_rows : BatchError
  profile_error : ProfileError → BatchError

pub data Result : Type 0 where
  returned : Option Report → Result
  raised : BatchError → Result

module _ (Row : Type 0) (analyze : LoadedProfile → Row → Option Analysed) where
  unfoldable pub process_rows : LoadedProfile → ℕ → ℕ → List Row → Progress → Progress
  process_rows profile total done [] p = p
  process_rows profile total done (row ∷ rows) p =
      process_rows profile total (done + 1) rows
        (note_progress total (done + 1) (count_row (analyze profile row) p))

  -- From the commit of the status RUNNING on: an exception while the profile is loaded leaves it.
  unfoldable pub run_rows : Load → List Row → BatchJob → BatchJob × Result
  run_rows (refused error) rows job =
      ((start_of (length rows) job).job, raised (profile_error error))
  run_rows (loaded profile) rows job =
      let total = length rows in
      let done = finish_job total (process_rows profile total 0 rows (start_of total job)) in
      (done, returned done.report)

  -- The input: its size in bytes, and its rows; `none` is a `csv.Error`.
  pub record Input : Type 0 where
    pub bytes : ℕ
    pub rows : Option (List Row)

  -- Once the size of the file is checked.
  unfoldable pub process_input :
      Option (List Row) → Option StoredProfile → BatchJob → BatchJob × Result
  process_input none profile job = (job, raised malformed_csv)
  process_input (some rows) profile job =
      if ltb max_rows (length rows)
      then (record job { status = failed }, raised too_many_rows)
      else run_rows (load_profile profile) rows job

  -- `process_batch_async`
  unfoldable pub process_batch : Option Input → Option StoredProfile → BatchJob → BatchJob × Result
  process_batch input profile job =
      if is_finished job.status then (job, returned job.report) else elim input [
        | none ↦ (job, raised input_not_found)
        | some i ↦
            if ltb max_file_bytes i.bytes
            then (record job { status = failed }, raised file_too_large)
            else process_input i.rows profile job
      ]
