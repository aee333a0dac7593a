-- ===== src/Batch/Total.antt =====
-- What the counters of a batch add up to, and what a second run does.
use payment_ops.Prelude.{
  ℕ, ◌+◌, ◌≡◌, refl, ◌∙◌, true, false, Option, none, some, List, [], ◌∷◌, length, ltb, arith,
}
use payment_ops.Domain.Payment.{AddressReadiness, ready, repairable, review_required, unresolved}
use payment_ops.Batch.{
  max_file_bytes, max_rows, is_finished, Counts, BatchJob, Analysed, Progress, tick, write_counts,
  count_row, note_progress, process_rows, finish_job, start_of, LoadedProfile, StoredProfile,
  load_profile, loaded, run_rows, process_input, Input, returned, process_batch,
}

-- All rows that were analysed.
abbrev pub analysed : Counts → ℕ
analysed c = c.ready + c.repairable + c.review_required + c.unresolved

-- The rows of the loop so far.
abbrev seen : Progress → ℕ
seen p = analysed p.counts + p.failed

analysed-tick : (r : Option AddressReadiness) (c : Counts) → analysed (tick r c) ≡ analysed c + 1
unfolding tick
analysed-tick none c = omega arith
analysed-tick (some ready) c = omega arith
analysed-tick (some repairable) c = omega arith
analysed-tick (some review_required) c = omega arith
analysed-tick (some unresolved) c = omega arith

seen-count_row : (a : Option Analysed) (p : Progress) → seen (count_row a p) ≡ seen p + 1
unfolding count_row
seen-count_row none p = omega arith
seen-count_row (some a) p = omega (arith, analysed-tick a.address_readiness p.counts)

seen-note_progress : (total done : ℕ) (p : Progress) → seen (note_progress total done p) ≡ seen p
unfolding note_progress write_counts
seen-note_progress total done p = ground arith

processed-note_progress :
    (total done : ℕ) (p : Progress) → (note_progress total done p).job.processed_records ≡ done
unfolding note_progress write_counts
processed-note_progress total done p = ground arith

-- What `finish_job` leaves of the counters.
abbrev pub IsSettled : ℕ → BatchJob → Type 0
IsSettled total job =
    (analysed job.counts + job.failed_count ≡ total)
    × (job.processed_records ≡ total)
    × (is_finished job.status ≡ true)

finish_job-IsSettled :
    (total n : ℕ) (p : Progress)
    → seen p ≡ n
    → p.job.processed_records ≡ n
    → IsSettled n (finish_job total p)
unfolding finish_job write_counts
finish_job-IsSettled total n p counted processed = (counted, processed, ground arith)

module _ (Row : Type 0) (analyze : LoadedProfile → Row → Option Analysed) where
  process_rows-seen :
      (profile : LoadedProfile) (total done : ℕ) (rows : List Row) (p : Progress)
      → seen (process_rows Row analyze profile total done rows p) ≡ seen p + length rows
  unfolding process_rows
  process_rows-seen profile total done [] p = omega arith
  process_rows-seen profile total done (row ∷ rows) p =
      let counted = count_row (analyze profile row) p in
      omega (
        arith,
        process_rows-seen profile total (done + 1) rows (note_progress total (done + 1) counted),
        seen-note_progress total (done + 1) counted,
        seen-count_row (analyze profile row) p,
      )

  process_rows-processed :
      (profile : LoadedProfile) (total done : ℕ) (rows : List Row) (p : Progress)
      → p.job.processed_records ≡ done
      → (process_rows Row analyze profile total done rows p).job.processed_records
        ≡ done + length rows
  unfolding process_rows
  process_rows-processed profile total done [] p h = omega (arith, h)
  process_rows-processed profile total done (row ∷ rows) p h =
      let q = note_progress total (done + 1) (count_row (analyze profile row) p) in
      omega (
        arith,
        process_rows-processed profile total (done + 1) rows q
            (processed-note_progress total (done + 1) (count_row (analyze profile row) p)),
      )

  process_batch-finished :
      (input : Option (Input Row analyze)) (stored : Option StoredProfile) (job : BatchJob)
      → is_finished job.status ≡ true
      → process_batch Row analyze input stored job ≡ (job, returned job.report)
  unfolding process_batch
  process_batch-finished input stored job done = rw done refl

  process_batch-run_rows :
      (input : Input Row analyze) (rows : List Row) (stored : Option StoredProfile)
      (profile : LoadedProfile) (job : BatchJob)
      → is_finished job.status ≡ false
      → ltb max_file_bytes input.bytes ≡ false
      → input.rows ≡ some rows
      → ltb max_rows (length rows) ≡ false
      → load_profile stored ≡ loaded profile
      → process_batch Row analyze (some input) stored job
        ≡ run_rows Row analyze (loaded profile) rows job
  unfolding process_batch process_input
  process_batch-run_rows input rows stored profile job open_ small read few there =
      rw (open_, small, read, few, there) refl

  -- A new job whose file is within the limits and can be read, and whose profile is there and can
  -- be loaded, is finished by one call, whatever rows fail: the four counts and the failures add up
  -- to the number of rows, all rows are processed, and a further call, on whatever input and
  -- profile, changes nothing and returns the same report.
  pub process_batch-total :
      (input : Input Row analyze) (rows : List Row) (stored : Option StoredProfile)
      (profile : LoadedProfile) (job : BatchJob)
      → is_finished job.status ≡ false
      → job.processed_records ≡ 0
      → ltb max_file_bytes input.bytes ≡ false
      → input.rows ≡ some rows
      → ltb max_rows (length rows) ≡ false
      → load_profile stored ≡ loaded profile
      → (again : Option (Input Row analyze)) (later : Option StoredProfile)
      → IsSettled (length rows) (process_batch Row analyze (some input) stored job).0
        × (process_batch Row analyze again later
              (process_batch Row analyze (some input) stored job).0
            ≡ (
              (process_batch Row analyze (some input) stored job).0,
              returned (process_batch Row analyze (some input) stored job).0.report,
            ))
  unfolding run_rows
  process_batch-total input rows stored profile job open_ fresh small read few there again later =
      let total = length rows in
      let p = process_rows Row analyze profile total 0 rows (start_of total job) in
      let settled : IsSettled total (finish_job total p) =
        finish_job-IsSettled total total p
          (process_rows-seen profile total 0 rows (start_of total job) ∙ omega arith)
          (process_rows-processed profile total 0 rows (start_of total job) fresh ∙ omega arith) in
      rw (process_batch-run_rows input rows stored profile job open_ small read few there)
        (settled, process_batch-finished again later (finish_job total p) settled.2)
