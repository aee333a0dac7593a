-- ===== src/Addresses/Remote.antt =====
-- packages/address_engine/providers/swift_derived.py: the client of the remote address service, with
-- its retries and its circuit breaker. The service is a parameter: what each request meets, in the
-- order of the requests. The two times that a call reads off the clock are part of the call.
pub mod Breaker
mod Tests
use payment_ops.Prelude.{
  ℕ, zero, suc, ◌+◌, ◌*◌, String, Bool, true, false, not, ◌&&◌, ◌||◌, Option, none, some, List, [],
  ◌∷◌, ◌++◌, reverse, Text, codes, truthy, nonempty, is_some, leb, ltb, ◌==◌, if◌then◌else◌,
}
use payment_ops.Domain.Payment.{
  AddressReadiness, ready, review_required, unresolved, EvidenceLevel, high, medium, low,
  PostalAddress,
}
use payment_ops.Domain.Countries.{is_valid_country_code}
use payment_ops.Matching.Numbers.{Numbers}
use payment_ops.Addresses.{AddressAnalysis}

-- `"\n".join(lines)` and `" ".join(parts)`
unfoldable pub join : ℕ → List Text → Text
join sep [] = []
join sep (line ∷ []) = line
join sep (line ∷ next ∷ lines) = line ++ sep ∷ join sep (next ∷ lines)

unfoldable pub drop_slashes : Text → Text
drop_slashes [] = []
drop_slashes (c ∷ s) = if c == b'/' then drop_slashes s else c ∷ s

-- `endpoint_url.rstrip("/")`
unfoldable pub endpoint : Text → Text
endpoint url = reverse (drop_slashes (reverse url))

pub record Request : Type 0 where
  pub text : Text
  pub suggested_country : Option Text
  pub force : Bool

pub record Config : Type 0 where
  pub endpoint_url : Text
  pub max_retries : ℕ
  pub circuit_threshold : ℕ
  pub circuit_cooldown : ℕ

-- The attributes that calls change.
pub record Circuit : Type 0 where
  pub failures : ℕ
  pub open_until : ℕ

abbrev pub closed : Circuit
closed = record { failures = 0; open_until = 0 }

-- `_circuit_open`
unfoldable pub circuit_open : ℕ → Circuit → Bool
circuit_open now c = ltb now c.open_until

-- `_record_failure`
unfoldable pub record_failure : Config → ℕ → Circuit → Circuit
record_failure k now c =
    if leb k.circuit_threshold (c.failures + 1)
    then record { failures = 0; open_until = now + k.circuit_cooldown }
    else record c { failures = c.failures + 1 }

-- `_record_success`
unfoldable pub record_success : Circuit → Circuit
record_success c = record c { failures = 0 }

abbrev when_truthy : Option Text → List Text → List Text
when_truthy none parts = parts
when_truthy (some []) parts = parts
when_truthy (some (c ∷ s)) parts = (c ∷ s) ∷ parts

-- `_address_lines`
unfoldable pub compose_lines : PostalAddress → List Text
compose_lines a = when_truthy a.street_name (
    when_truthy a.building_number
      (when_truthy a.postcode (when_truthy a.town_name (when_truthy a.country []))))

unfoldable pub lines_of : List Text → List Text → List Text
lines_of [] [] = []
lines_of [] (part ∷ parts) = join b' ' (part ∷ parts) ∷ []
lines_of (line ∷ lines) parts = line ∷ lines

unfoldable pub address_lines : PostalAddress → List Text
address_lines a = lines_of a.address_lines (compose_lines a)

-- `_suggestion`
unfoldable pub suggestion : Option Text → Option Text × Bool
suggestion none = (none, false)
suggestion (some []) = (none, false)
suggestion (some (c ∷ s)) = (some (c ∷ s), is_valid_country_code (c ∷ s))

-- `_unavailable`
unfoldable pub unavailable : Text → AddressAnalysis
unavailable reason = record {
  provider = "swift_derived";
  country_code = none;
  country_name = none;
  town_name = none;
  normalized_fields = [];
  readiness = unresolved;
  evidence_level = low;
  available = false;
  note = some (codes "ADDRESS_PROVIDER_FALLBACK");
  fallback = false;
  evidence = reason ∷ [];
}

abbrev pub request_of : PostalAddress → Request
request_of a = record {
  text = join b'\n' (address_lines a);
  suggested_country = (suggestion a.country).0;
  force = (suggestion a.country).1;
}

module _ (n : Numbers) where
  -- The keys that are read. A confidence that is not a float is `none`; a country or a town is a
  -- text, as the service sends it.
  pub record Reply : Type 0 where
    pub country : Option Text
    pub town : Option Text
    pub country_confidence : Option n.Float
    pub town_confidence : Option n.Float

  -- What a request meets: a reply, no connection in time, an HTTP error status, or a body that is
  -- not JSON.
  pub data Attempt : Type 0 where
    replied : Reply → Attempt
    unreachable refused garbled : Attempt

  -- `confidence >= 0.15` and the like: the literal is the float nearest to the fraction.
  abbrev pub reaches : ℕ → Option n.Float → Bool
  reaches percent none = false
  reaches percent (some c) = n.le (n.div (n.float percent) (n.float 100)) c

  -- `_classify`
  unfoldable pub classify_reply : Reply → AddressReadiness
  classify_reply r =
      if truthy r.country
        && truthy r.town
        && reaches 15 r.country_confidence
        && reaches 15 r.town_confidence
      then ready
      else if truthy r.country || truthy r.town
      then review_required
      else unresolved

  -- `_level`
  unfoldable pub level : Option n.Float → Option n.Float → EvidenceLevel
  level country town =
      if reaches 50 country && reaches 50 town
      then high
      else if is_some country || is_some town
      then medium
      else low

  abbrev present : Option Text → Option Text
  present none = none
  present (some []) = none
  present (some (c ∷ s)) = some (c ∷ s)

  abbrev field : String → Option Text → List (String × Text)
  field name none = []
  field name (some s) = (name, s) ∷ []

  -- `_build_analysis`
  unfoldable pub build_analysis : Reply → AddressAnalysis
  build_analysis r = record {
    provider = "swift_derived";
    country_code = present r.country;
    country_name = none;
    town_name = present r.town;
    normalized_fields = field "country" (present r.country) ++ field "town_name" (present r.town);
    readiness = classify_reply r;
    evidence_level = level r.country_confidence r.town_confidence;
    available = true;
    note = some (codes "upstream engine");
    fallback = false;
    evidence = codes "upstream town/country inference" ∷ codes "upstream commit 916deca20a2f" ∷ [];
  }

  -- What is left of the requests, and the number of those that were made.
  pub record Posted : Type 0 where
    pub answer : Attempt
    pub requests : ℕ

  -- The loop of `_post`, with the number of the attempts left and that of the next one.
  unfoldable pub post_from : ℕ → ℕ → (ℕ → Attempt) → Posted
  post_from zero attempt service = record { answer = unreachable; requests = attempt }
  post_from (suc left) attempt service = elim (service attempt) [
    | replied r ↦ record { answer = replied r; requests = attempt + 1 }
    | unreachable ↦ post_from left (attempt + 1) service
    | refused ↦ record { answer = refused; requests = attempt + 1 }
    | garbled ↦ record { answer = garbled; requests = attempt + 1 }
  ]

  -- `_post`
  unfoldable pub post : Config → (ℕ → Attempt) → Posted
  post k service = post_from (k.max_retries + 1) 0 service

  pub record Call : Type 0 where
    pub address : PostalAddress
    pub asked_at : ℕ
    pub failed_at : ℕ
    pub service : Request → ℕ → Attempt

  -- The result of a call, where `none` is an exception, the circuit after it, and the number of its
  -- requests.
  pub record Outcome : Type 0 where
    pub result : Option AddressAnalysis
    pub circuit : Circuit
    pub requests : ℕ

  abbrev local : Text → Circuit → Outcome
  local reason c = record { result = some (unavailable reason); circuit = c; requests = 0 }

  -- What follows the requests.
  unfoldable pub conclude_call : Config → ℕ → Attempt → ℕ → Circuit → Outcome
  conclude_call k now (replied r) requests c = record {
    result = some (build_analysis r);
    circuit = record_success c;
    requests = requests;
  }
  conclude_call k now unreachable requests c = record {
    result = some (unavailable (codes "provider call failed or timed out"));
    circuit = record_failure k now c;
    requests = requests;
  }
  conclude_call k now refused requests c = record {
    result = some (unavailable (codes "provider call failed or timed out"));
    circuit = record_failure k now c;
    requests = requests;
  }
  conclude_call k now garbled requests c = record {
    result = none;
    circuit = c;
    requests = requests;
  }

  -- `SwiftDerivedAddressProvider.analyze`
  unfoldable pub analyze_remote : Config → Call → Circuit → Outcome
  analyze_remote k call c =
      if not (nonempty (endpoint k.endpoint_url)) || circuit_open call.asked_at c
      then local (codes "not configured or circuit open") c
      else if not (nonempty (address_lines call.address))
      then local (codes "no address lines to structure") c
      else let p = post k (call.service (request_of call.address)) in
        conclude_call k call.failed_at p.answer p.requests c
