-- ===== src/Clashapi/Handlers/Rules.antt =====
-- clashapi/rules.go: the rules of the engine as the API lists them.
use ssh_worker.Prelude.{if◌then◌else◌, Option, none, some, List, [], ◌∷◌, Text, bytes, text_eq}
use ssh_worker.Rules.Matcher.{Regexp}
use ssh_worker.Rules.Types.{Networks, Rule, test_type, payload, adapter_reject}

pub record RuleEntry : Type 0 where
  pub kind : Text
  pub payload : Text
  pub proxy : Text

-- The panic of Payload ends the handler: then there is no answer, `none`.
abbrev pub add_entry : Text → Text → Option Text → Option (List RuleEntry) → Option (List RuleEntry)
add_entry kind proxy none rest = none
add_entry kind proxy (some p) none = none
add_entry kind proxy (some p) (some es) =
    some (record { kind = kind; payload = p; proxy = proxy } ∷ es)

module _ {re : Regexp} {net : Networks} where
  unfoldable pub all_entries : List (Rule re net) → Option (List RuleEntry)
  unfolding test_type payload
  all_entries [] = some []
  all_entries (r ∷ rs) = add_entry (test_type r.test) r.adapter (payload r.test) (all_entries rs)

  unfoldable pub reject_entries : List (Rule re net) → Option (List RuleEntry)
  unfolding test_type payload
  reject_entries [] = some []
  reject_entries (r ∷ rs) =
      let rest = reject_entries rs in
      if text_eq r.adapter adapter_reject
      then add_entry (test_type r.test) (bytes "REJECT") (payload r.test) rest
      else rest

  -- An engine that is nil has no rule.
  unfoldable pub handle_get_rules : Option (List (Rule re net)) → Option (List RuleEntry)
  unfolding all_entries
  handle_get_rules none = some []
  handle_get_rules (some rs) = all_entries rs

  unfoldable pub handle_get_blocklist : Option (List (Rule re net)) → Option (List RuleEntry)
  unfolding reject_entries
  handle_get_blocklist none = some []
  handle_get_blocklist (some rs) = reject_entries rs
