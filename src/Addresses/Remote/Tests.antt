-- ===== src/Addresses/Remote/Tests.antt =====
-- Calls of a service that never answers.
use payment_ops.Prelude.{◌≡◌, ◌≤◌, refl, [], ◌∷◌, codes, arith}
use payment_ops.Domain.Samples.{blank_address}
use payment_ops.Matching.Samples.{whole}
use payment_ops.Addresses.Remote.{
  Config, closed, unreachable, Call, local, endpoint, drop_slashes, address_lines, lines_of, post,
  post_from, analyze_remote,
}
use payment_ops.Addresses.Remote.Breaker.{fails, run, analyze_remote-run, analyze_remote-requests}

abbrev config : Config
config = record {
  endpoint_url = codes "http://address/";
  max_retries = 1;
  circuit_threshold = 3;
  circuit_cooldown = 30;
}

-- A call at time 5 that fails two seconds later.
abbrev silent : Call whole
silent = record {
  address = record blank_address { address_lines = codes "Main Street 1" ∷ [] };
  asked_at = 5;
  failed_at = 7;
  service = λ request attempt. unreachable;
}

analyze_remote-run_example :
    analyze_remote whole config
      (record silent { asked_at = 36 })
      (run whole config (silent ∷ silent ∷ silent ∷ []) closed)
    ≡ local whole
        (codes "not configured or circuit open")
        (record { failures = 0; open_until = 37 })
unfolding fails endpoint drop_slashes address_lines lines_of post post_from
analyze_remote-run_example =
    analyze_remote-run whole config (silent ∷ silent ∷ []) silent (record silent { asked_at = 36 })
      refl (refl, (refl, tt)) refl (omega arith)

analyze_remote-requests_example : (analyze_remote whole config silent closed).requests ≤ 2
analyze_remote-requests_example = analyze_remote-requests whole config silent closed
