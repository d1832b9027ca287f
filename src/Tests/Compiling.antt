-- ===== src/Tests/Compiling.antt =====
-- One rule of a user, compiled.
use zima_scope.Abi.{Direction, RuleAction}
use zima_scope.Base.{ℕ, Bool, true, false, some, List, [], ◌∷◌}
use zima_scope.Model.{v4}
use zima_scope.RulePolicy.Compile.Sound.{Sound}
use zima_scope.RulePolicy.Rules.{
  RuleDirection, ActionSpec, TrafficRule, CompiledProgram, endpoint_exact,
}
use zima_scope.RulePolicy.Selectors.{ok, Selector, MatchTarget, Coverage, Resolver}
use zima_scope.Tests.Data.{peer_addr}

abbrev rule : TrafficRule
rule = record {
  id = 7;
  action = ActionSpec.limit 5000 6000;
  direction = RuleDirection.outbound;
  selector = Selector.endpoint (v4 (1 ∷ 2 ∷ 3 ∷ 4 ∷ [])) (some 80);
  enabled = true;
}

abbrev blank : List ℕ → Bool
blank text = false

abbrev resolver : Resolver
resolver asked selector = ok (record {
  targets = MatchTarget.endpoint (1 ∷ 2 ∷ 3 ∷ 4 ∷ []) (some 80) ∷ [];
  coverage = Coverage.complete;
})

abbrev program : CompiledProgram
program = record {
  policy = record {
    revision = 1;
    enabled = true;
    rules =
        record {
          id = 7;
          action = RuleAction.limit;
          matches =
              endpoint_exact Direction.outbound (record { addr = peer_addr; port_be = 20480 }) ∷ [];
          states =
              record {
                key = record { rule_id = 7; direction = 2 };
                rate_bytes_per_s = 5000;
                burst_bytes = 6000;
              }
              ∷ [];
        }
        ∷ [];
  };
  unresolved = [];
}
