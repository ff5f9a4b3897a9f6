-- ===== src/Rules/Engine.antt =====
-- internal/rules/engine.go: the first rule that matches decides.
pub mod Laws
use ssh_worker.Prelude.{
  ℕ, ◌+◌, Bool, true, false, if◌then◌else◌, ◌==◌, List, [], ◌∷◌, ◌++◌, map, reverse, Text, bytes,
  text_eq, length, to_lower,
}
use ssh_worker.Rules.Matcher.{Regexp}
use ssh_worker.Rules.Types.{
  Networks, MatchContext, MatchResult, Rule, matches, adapter_direct, adapter_reject,
}

-- strings.TrimSuffix(h, ".").
unfoldable pub trim_dot : Text → Text
trim_dot [] = []
trim_dot (c ∷ []) = if c == b'.' then [] else c ∷ []
trim_dot (c ∷ d ∷ cs) = c ∷ trim_dot (d ∷ cs)

unfoldable pub normalize_host : Text → Text
unfolding trim_dot
normalize_host h = to_lower (trim_dot h)

-- The result when no rule matches.
abbrev pub implicit : MatchResult
implicit = record { adapter = adapter_direct; matched_by = bytes "MATCH,DIRECT (implicit)" }

module _ {re : Regexp} {net : Networks} where
  unfoldable pub match_rules : List (Rule re net) → MatchContext → MatchResult
  match_rules [] ctx = implicit
  match_rules (r ∷ rs) ctx =
      if matches r ctx
      then record { adapter = r.adapter; matched_by = r.raw }
      else match_rules rs ctx

  unfoldable pub add_rule : List (Rule re net) → Rule re net → List (Rule re net)
  add_rule rs r = rs ++ r ∷ []

  unfoldable pub count_rules : List (Rule re net) → ℕ
  count_rules rs = length rs

  unfoldable pub is_blocked : List (Rule re net) → MatchContext → Bool
  is_blocked rs ctx = text_eq (match_rules rs ctx).adapter adapter_reject

  -- main.go, countRejects.
  unfoldable pub count_rejects : List (Rule re net) → ℕ
  count_rejects [] = 0
  count_rejects (r ∷ rs) = (if text_eq r.adapter adapter_reject then 1 else 0) + count_rejects rs
