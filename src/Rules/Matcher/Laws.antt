-- ===== src/Rules/Matcher/Laws.antt =====
-- internal/rules/matcher.go: the walk over the labels of a host, against a plain description.
use ssh_worker.Prelude.{
  ◌||◌, ◌&&◌, not, List, [], ◌∷◌, Text, any, text_eq, is_empty, to_lower, split, join, ends_with,
  ◌≡◌, refl, sym, ap, ◌∙◌, inl, inr, Bool-cases, ◌==◌,
}
use mathlib.Core.Path.{fun_ext}
use ssh_worker.Prelude.Search.{any-swap}
use ssh_worker.Prelude.Splits.{split_cons, join-split, after, ends_with-after}
use ssh_worker.Rules.Matcher.{Regexp, DomainMatcher, has_key, has_tail, contains_host}

tail_of : List Text → List Text
tail_of [] = []
tail_of (p ∷ ps) = ps

has_tail-rest :
    (keys : List Text) (s : Text)
    → has_tail keys (tail_of (split s b'.')) ≡ any (has_key keys) (after b'.' s)
unfolding has_tail split tail_of after
has_tail-rest keys [] = refl
has_tail-rest keys (x ∷ xs) =
    let (p, ps, e) = split_cons xs b'.' in
    let ih = has_tail-rest keys xs in
    let whole : join (p ∷ ps) b'.' ≡ xs = rw e at (join-split xs b'.') in
    elim (Bool-cases (x == b'.')) [
      | inl dot ↦ rw (dot, e, whole) (ap (λ b. has_key keys xs || b) (rw e at ih))
      | inr other ↦ rw (other, e) (rw e at ih)
    ]

-- The walk of Contains finds a key exactly when the host is a key or ends in a dot and a key.
has_tail-split :
    (keys : List Text) (h : Text)
    → has_tail keys (split h b'.') ≡ any (λ d. text_eq h d || ends_with h (b'.' ∷ d)) keys
unfolding has_tail has_key tail_of
has_tail-split keys h =
    let (p, ps, e) = split_cons h b'.' in
    let whole : join (p ∷ ps) b'.' ≡ h = rw e at (join-split h b'.') in
    let rest : has_tail keys ps ≡ any (has_key keys) (after b'.' h) =
      rw e at (has_tail-rest keys h) in
    rw (e, whole, rest)
      (any-swap text_eq (h ∷ after b'.' h) keys
        ∙ ap (λ f. any f keys)
            (fun_ext λ d. ap (λ b. text_eq h d || b) (sym (ends_with-after b'.' h d))))

-- A matcher finds a host, whatever its case, exactly when the host is not empty and in lower case
-- it is an exact key, is a suffix key or ends in a dot and a suffix key, or matches a pattern.
pub contains_host_lem :
    (re : Regexp) (m : DomainMatcher re) (host : Text)
    → contains_host re m host ≡ (
        not (is_empty host)
        && (any (text_eq (to_lower host)) m.exact
            || any (λ d. text_eq (to_lower host) d || ends_with (to_lower host) (b'.' ∷ d)) m.suffix
            || any (λ r. re.match_string r (to_lower host)) m.regex))
unfolding contains_host has_key
contains_host_lem re m [] = refl
contains_host_lem re m (c ∷ cs) = rw (has_tail-split m.suffix (to_lower (c ∷ cs))) refl
