-- ===== src/Matching/Run/OneToOne.antt =====
-- The claims of a reconciliation run, and the rows that it leaves.
use mathlib.Core.Path.{subst}
use mathlib.Core.Option.{some-injective}
use payment_ops.Prelude.{
  ℕ, ◌≡◌, refl, ◌∙◌, sym, Bool, true, false, some, List, [], ◌∷◌, Text, text_eq, text_eq_sound,
  text_eq_refl, arith, if◌then◌else◌, Bool-cases, inl, inr, All, All-append, All-Mem, Memᴰ,
  All-map_hyp, ap,
}
use payment_ops.Unicode.{Unicode}
use payment_ops.Matching.Numbers.{Numbers}
use payment_ops.Matching.Records.{MatchClassification, MatchRecord, MatchingPolicy}
use payment_ops.Matching.Run.{
  claim_of, no_counts, claimed_by_other, claims, MatchCandidate, Progress, Scored, sort, decisions,
  settle, choose, count_failure, strong, final_classification, reconcile_source, reconcile_sources,
  execute_reconciliation, is_unmatched,
}

module _ (n : Numbers) where
  -- A row that claims its candidate, beside the claims.
  abbrev IsOwned : List (Text × Text) → MatchCandidate n → Type 0
  IsOwned claimed r =
      claims r.classification ≡ true
      → claim_of r.candidate_record_id claimed ≡ some r.source_record_id

  claimed_by_other-claims :
      (source : Text) (best : Scored n) (m : ℕ) (claimed : List (Text × Text))
      → claims (final_classification n source best m claimed) ≡ true
      → claimed_by_other best.0.record_id source claimed ≡ false
  unfolding final_classification
  claimed_by_other-claims source best m claimed h = ground arith

  owner_of_open :
      (candidate source owner : Text) (claimed : List (Text × Text))
      → claim_of candidate claimed ≡ some owner
      → claimed_by_other candidate source claimed ≡ false
      → owner ≡ source
  unfolding claimed_by_other
  owner_of_open candidate source owner claimed h free = ground (arith, text_eq_sound owner source)

  -- A claim that is open to the source keeps the owners of the rows.
  IsOwned-claim :
      (candidate source : Text) (claimed : List (Text × Text)) (r : MatchCandidate n)
      → claimed_by_other candidate source claimed ≡ false
      → IsOwned claimed r
      → IsOwned ((candidate, source) ∷ claimed) r
  unfolding claim_of
  IsOwned-claim candidate source claimed r free h approved =
      elim (Bool-cases (text_eq candidate r.candidate_record_id)) [
        | inl same ↦
            let free' =
              subst (λ c. claimed_by_other c source claimed ≡ false)
                (text_eq_sound candidate r.candidate_record_id same) free in
            rw same (
              ap some (
                sym (
                  owner_of_open r.candidate_record_id source r.source_record_id claimed (h approved)
                    free')))
        | inr other ↦ rw other (h approved)
      ]

  claim_of-same :
      (candidate source : Text) (claimed : List (Text × Text))
      → claim_of candidate ((candidate, source) ∷ claimed) ≡ some source
  unfolding claim_of
  claim_of-same candidate source claimed = rw (text_eq_refl candidate) refl

  -- Every row that claims its candidate is the owner of the candidate.
  abbrev AreOwned : Progress n → Type 0
  AreOwned p = All (IsOwned p.claimed) p.rows

  -- The claims after a source is classified.
  abbrev claims_after :
      Text → Scored n → MatchClassification → List (Text × Text) → List (Text × Text)
  claims_after source best c claimed =
      if claims c then (best.0.record_id, source) ∷ claimed else claimed

  module _ (source : Text) (best : Scored n) (m : ℕ) (claimed : List (Text × Text)) where
    final : MatchClassification
    final = final_classification n source best m claimed

    claims_after-keep :
        (rows : List (MatchCandidate n))
        → All (IsOwned claimed) rows
        → All (IsOwned (claims_after source best final claimed)) rows
    unfolding final
    claims_after-keep rows h = elim (Bool-cases (claims final)) [
      | inl claiming ↦ rw claiming (
          All-map_hyp (IsOwned claimed) rows
            (λ r.
              IsOwned-claim best.0.record_id source claimed r
                (claimed_by_other-claims source best m claimed claiming))
            h)
      | inr apart ↦ rw apart h
    ]

    claims_after-own :
        claims final ≡ true
        → claim_of best.0.record_id (claims_after source best final claimed) ≡ some source
    unfolding final
    claims_after-own claiming = rw claiming (claim_of-same best.0.record_id source claimed)

  settle-AreOwned :
      (stored : Bool) (src : MatchRecord n) (best : Scored n) (m : ℕ) (p : Progress n)
      → AreOwned p
      → AreOwned
          (settle n stored src best (final_classification n src.record_id best m p.claimed) p)
  unfolding settle final
  settle-AreOwned true src best m p h =
      All-append
        (IsOwned (claims_after src.record_id best (final src.record_id best m p.claimed) p.claimed))
        p.rows _ (claims_after-keep src.record_id best m p.claimed p.rows h)
        (claims_after-own src.record_id best m p.claimed, tt)
  settle-AreOwned false src best m p h = claims_after-keep src.record_id best m p.claimed p.rows h

  choose-AreOwned :
      (stores : Text → Text → Bool) (src : MatchRecord n) (ds : List (Scored n)) (p : Progress n)
      → AreOwned p
      → AreOwned (choose n stores src ds p)
  unfolding choose
  choose-AreOwned stores src [] p h = h
  choose-AreOwned stores src (best ∷ others) p h =
      elim (Bool-cases (is_unmatched best.1.classification)) [
        | inl apart ↦ rw apart h
        | inr near ↦ rw near (settle-AreOwned _ src best (strong n (best ∷ others)) p h)
      ]

  module _ (u : Unicode) (policy : MatchingPolicy n) (stores : Text → Text → Bool)
      (compares : MatchRecord n → List (MatchRecord n) → Bool) (cands : List (MatchRecord n)) where
    reconcile_source-AreOwned :
        (src : MatchRecord n) (p : Progress n)
        → AreOwned p
        → AreOwned (reconcile_source n u policy stores compares cands src p)
    unfolding reconcile_source count_failure
    reconcile_source-AreOwned src p h = elim (Bool-cases (compares src cands)) [
      | inl through ↦
          rw through (
            choose-AreOwned stores src (sort n (decisions n u policy stores compares src cands)) p
              h)
      | inr raised ↦ rw raised h
    ]

    reconcile_sources-AreOwned :
        (sources : List (MatchRecord n)) (p : Progress n)
        → AreOwned p
        → AreOwned (reconcile_sources n u policy stores compares cands sources p)
    unfolding reconcile_sources
    reconcile_sources-AreOwned [] p h = h
    reconcile_sources-AreOwned (src ∷ sources) p h =
        reconcile_sources-AreOwned sources (reconcile_source n u policy stores compares cands src p)
          (reconcile_source-AreOwned src p h)

    -- No candidate goes to two sources in a run: if two rows that stand anywhere among the results
    -- are both a match or a possible match on the same candidate, they have the same source.
    pub execute_reconciliation-one_to_one :
        (sources : List (MatchRecord n)) (r s : MatchCandidate n)
        → Memᴰ r (execute_reconciliation n u policy stores compares sources cands).rows
        → Memᴰ s (execute_reconciliation n u policy stores compares sources cands).rows
        → claims r.classification ≡ true
        → claims s.classification ≡ true
        → r.candidate_record_id ≡ s.candidate_record_id
        → r.source_record_id ≡ s.source_record_id
    unfolding execute_reconciliation
    execute_reconciliation-one_to_one sources r s here there claiming claiming' same =
        let p = execute_reconciliation n u policy stores compares sources cands in
        let owned =
          reconcile_sources-AreOwned sources
            (record { counts = no_counts; claimed = []; rows = [] }) tt in
        let first = All-Mem (IsOwned p.claimed) p.rows r owned here claiming in
        let second = All-Mem (IsOwned p.claimed) p.rows s owned there claiming' in
        some-injective r.source_record_id s.source_record_id
          (sym first ∙ ap (λ c. claim_of c p.claimed) same ∙ second)
