-- ===== src/Addresses/Remote/Breaker.antt =====
-- The circuit breaker over sequences of calls: when it opens, and how many requests a call makes.
use payment_ops.Prelude.{
  ℕ, zero, suc, ◌+◌, ◌≤◌, ◌<◌, ◌≡◌, refl, ◌∙◌, ap, Bool, true, false, ◌&&◌, List, [], ◌∷◌, ◌++◌,
  codes, length, nonempty, All, arith,
}
use payment_ops.Matching.Numbers.{Numbers}
use payment_ops.Addresses.Remote.{
  Config, Circuit, closed, circuit_open, record_failure, record_success, endpoint, address_lines,
  Attempt, replied, unreachable, refused, garbled, post_from, post, Call, local, request_of,
  conclude_call, analyze_remote,
}

abbrev pub is_failure : {n : Numbers} → Attempt n → Bool
is_failure unreachable = true
is_failure refused = true
is_failure _ = false

module _ (n : Numbers) (k : Config) where
  -- The circuits that calls lead to.
  pub data Reach : Circuit → Type 0 where
    start : Reach closed
    called : (call : Call n) {c : Circuit} → Reach c → Reach (analyze_remote n k call c).circuit

  record_failure-failures_lt :
      (now : ℕ) (c : Circuit)
      → 0 < k.circuit_threshold
      → (record_failure k now c).failures < k.circuit_threshold
  unfolding record_failure
  record_failure-failures_lt now c positive = ground arith

  conclude_call-failures_lt :
      (now : ℕ) (answer : Attempt n) (requests : ℕ) (c : Circuit)
      → 0 < k.circuit_threshold
      → c.failures < k.circuit_threshold
      → (conclude_call n k now answer requests c).circuit.failures < k.circuit_threshold
  unfolding conclude_call record_success
  conclude_call-failures_lt now (replied r) requests c positive below = positive
  conclude_call-failures_lt now unreachable requests c positive below =
      record_failure-failures_lt now c positive
  conclude_call-failures_lt now refused requests c positive below =
      record_failure-failures_lt now c positive
  conclude_call-failures_lt now garbled requests c positive below = below

  analyze_remote-failures_lt :
      (call : Call n) (c : Circuit)
      → 0 < k.circuit_threshold
      → c.failures < k.circuit_threshold
      → (analyze_remote n k call c).circuit.failures < k.circuit_threshold
  unfolding analyze_remote
  analyze_remote-failures_lt call c positive below =
      let p = post n k (call.service (request_of call.address)) in
      ground (arith, conclude_call-failures_lt call.failed_at p.answer p.requests c positive below)

  -- However many calls are made, the failures since the last success stay below the threshold.
  pub Reach-failures_lt :
      (c : Circuit) → 0 < k.circuit_threshold → Reach c → c.failures < k.circuit_threshold
  Reach-failures_lt _ positive start = positive
  Reach-failures_lt _ positive (called call {c} before) =
      analyze_remote-failures_lt call c positive (Reach-failures_lt c positive before)

  -- The service is asked and does not answer.
  unfoldable pub fails : Call n → Bool
  fails call =
      nonempty (endpoint k.endpoint_url)
      && nonempty (address_lines call.address)
      && is_failure (post n k (call.service (request_of call.address))).answer

  unfoldable pub run : List (Call n) → Circuit → Circuit
  run [] c = c
  run (call ∷ calls) c = run calls (analyze_remote n k call c).circuit

  conclude_call-fails :
      (now : ℕ) (answer : Attempt n) (requests : ℕ) (c : Circuit)
      → is_failure answer ≡ true
      → (conclude_call n k now answer requests c).circuit ≡ record_failure k now c
  unfolding conclude_call
  conclude_call-fails now (replied r) requests c failed = cc
  conclude_call-fails now unreachable requests c failed = refl
  conclude_call-fails now refused requests c failed = refl
  conclude_call-fails now garbled requests c failed = cc

  -- A call that fails on a circuit that never opened.
  analyze_remote-fails :
      (call : Call n) (f : ℕ)
      → fails call ≡ true
      → (analyze_remote n k call (record { failures = f; open_until = 0 })).circuit
        ≡ record_failure k call.failed_at (record { failures = f; open_until = 0 })
  unfolding analyze_remote fails circuit_open
  analyze_remote-fails call f failed =
      let p = post n k (call.service (request_of call.address)) in
      ground (
        arith,
        conclude_call-fails call.failed_at p.answer p.requests
            (record { failures = f; open_until = 0 }),
      )

  run-fails :
      (calls : List (Call n)) (f : ℕ)
      → All (λ call. fails call ≡ true) calls
      → f + length calls < k.circuit_threshold
      → run calls (record { failures = f; open_until = 0 })
        ≡ record { failures = f + length calls; open_until = 0 }
  unfolding run record_failure
  run-fails [] f failed few = ap (λ (f : ℕ). record { failures = f; open_until = 0 }) (omega arith)
  run-fails (call ∷ calls) f failed few =
      ap (run calls) (analyze_remote-fails call f failed.0 ∙ ground arith)
      ∙ run-fails calls (f + 1) failed.1 (omega (arith, few))
      ∙ ap (λ (f : ℕ). record { failures = f; open_until = 0 }) (omega arith)

  run-append :
      (calls : List (Call n)) (call : Call n) (c : Circuit)
      → run (calls ++ call ∷ []) c ≡ (analyze_remote n k call (run calls c)).circuit
  unfolding run
  run-append [] call c = refl
  run-append (first ∷ calls) call c = run-append calls call (analyze_remote n k first c).circuit

  analyze_remote-circuit_open :
      (call : Call n) (c : Circuit)
      → call.asked_at < c.open_until
      → analyze_remote n k call c ≡ local n (codes "not configured or circuit open") c
  unfolding analyze_remote circuit_open
  analyze_remote-circuit_open call c early = ground arith

  -- As many failed calls in a row as the threshold says open the circuit of a new provider: until
  -- the cooldown after the last of them is over, every call is answered as unavailable, without a
  -- request, and leaves the circuit as it is.
  pub analyze_remote-run :
      (calls : List (Call n)) (last next : Call n)
      → length calls + 1 ≡ k.circuit_threshold
      → All (λ call. fails call ≡ true) calls
      → fails last ≡ true
      → next.asked_at < last.failed_at + k.circuit_cooldown
      → analyze_remote n k next (run (calls ++ last ∷ []) closed)
        ≡ local n
            (codes "not configured or circuit open")
            (record { failures = 0; open_until = last.failed_at + k.circuit_cooldown })
  unfolding record_failure
  analyze_remote-run calls last next enough failed failed_last early =
      let opened : Circuit = record {
        failures = 0;
        open_until = last.failed_at + k.circuit_cooldown;
      } in
      let reached : run (calls ++ last ∷ []) closed ≡ opened =
        run-append calls last closed
        ∙ ap (λ c. (analyze_remote n k last c).circuit)
            (run-fails calls 0 failed (omega (arith, enough)))
        ∙ analyze_remote-fails last (0 + length calls) failed_last
        ∙ ground (arith, enough) in
      rw reached (analyze_remote-circuit_open next opened early)

  post_from-requests :
      (left attempt : ℕ) (service : ℕ → Attempt n)
      → (post_from n left attempt service).requests ≤ attempt + left
  unfolding post_from
  post_from-requests zero attempt service = omega arith
  post_from-requests (suc left) attempt service =
      ground (arith, post_from-requests left (attempt + 1) service)

  conclude_call-requests :
      (now : ℕ) (answer : Attempt n) (requests : ℕ) (c : Circuit)
      → (conclude_call n k now answer requests c).requests ≡ requests
  unfolding conclude_call
  conclude_call-requests now (replied r) requests c = refl
  conclude_call-requests now unreachable requests c = refl
  conclude_call-requests now refused requests c = refl
  conclude_call-requests now garbled requests c = refl

  -- Whatever the service does, a call makes at most one request more than there are retries.
  pub analyze_remote-requests :
      (call : Call n) (c : Circuit) → (analyze_remote n k call c).requests ≤ k.max_retries + 1
  unfolding analyze_remote post
  analyze_remote-requests call c =
      let service = call.service (request_of call.address) in
      let p = post n k service in
      ground (
        arith,
        conclude_call-requests call.failed_at p.answer p.requests c,
        post_from-requests (k.max_retries + 1) 0 service,
      )
