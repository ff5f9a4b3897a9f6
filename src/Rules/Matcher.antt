-- ===== src/Rules/Matcher.antt =====
-- internal/rules/matcher.go: the set of domains of a category.
pub mod Laws
use ssh_worker.Prelude.{
  ℕ, ◌||◌, ◌++◌, if◌then◌else◌, Bool, true, false, List, [], ◌∷◌, Text, any, text_eq, is_empty,
  to_lower, split, join, Option,
}

-- Package regexp: the program compiles patterns and matches texts against them.
pub record Regexp : Type 1 where
  pub Regex : Type 0
  pub compile : Text → Option Regex
  pub match_string : Regex → Text → Bool

-- The keys of the two maps, and the compiled patterns in order.
pub record DomainMatcher (re : Regexp) : Type 0 where
  pub exact : List Text
  pub suffix : List Text
  pub regex : List (re.Regex)

unfoldable pub has_key : List Text → Text → Bool
has_key keys s = any (text_eq s) keys

-- The loop over `i`: is what is left of the parts a key?
unfoldable pub has_tail : List Text → List Text → Bool
unfolding has_key
has_tail keys [] = false
has_tail keys (p ∷ ps) = has_key keys (join (p ∷ ps) b'.') || has_tail keys ps

module _ (re : Regexp) where
  unfoldable pub new_matcher : DomainMatcher re
  new_matcher = record { exact = []; suffix = []; regex = [] }

  unfoldable pub add_exact : Text → DomainMatcher re → DomainMatcher re
  add_exact d m = record m { exact = to_lower d ∷ m.exact }

  unfoldable pub add_suffix : Text → DomainMatcher re → DomainMatcher re
  add_suffix d m = record m { suffix = to_lower d ∷ m.suffix }

  unfoldable pub add_regex : re.Regex → DomainMatcher re → DomainMatcher re
  add_regex r m = record m { regex = m.regex ++ r ∷ [] }

  unfoldable pub contains_host : DomainMatcher re → Text → Bool
  unfolding has_key has_tail
  contains_host m host =
      if is_empty host
      then false
      else (let h = to_lower host in
          has_key m.exact h
          || has_tail m.suffix (split h b'.')
          || any (λ r. re.match_string r h) m.regex)
