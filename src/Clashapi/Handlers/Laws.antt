-- ===== src/Clashapi/Handlers/Laws.antt =====
-- clashapi/handlers.go and rules.go: when the API finds a proxy, switches the worker and lists the
-- rules.
use ssh_worker.Prelude.{
  if◌then◌else◌, Bool, true, false, ◌||◌, Option, none, some, List, [], ◌∷◌, any, length, Text,
  bytes, text_eq, text_eq_sound, text_eq_refl, subst, ◌≡◌, ◌↔◌, refl, sym, ap, ◌∙◌, inl, inr, arith,
  Bool-cases, Option-cases,
}
use ssh_worker.Errs.{Error}
use ssh_worker.Rules.Matcher.{Regexp}
use ssh_worker.Rules.Types.{Networks, Rule, test_type, payload, adapter_reject}
use ssh_worker.Rules.Engine.{count_rejects}
use ssh_worker.Clashapi.Proxies.{WorkerRef}
use ssh_worker.Clashapi.Handlers.{
  Options, Body, Response, Decoded, decoded, malformed, found_proxy, handle_get_proxies, switched,
  switch_to, handle_put_proxy, found_delay,
}
use ssh_worker.Clashapi.Handlers.Rules.{
  RuleEntry, add_entry, all_entries, reject_entries, handle_get_rules, handle_get_blocklist,
}

-- A switch of the worker that is made.
pub record Switches (name : Text) (body : Decoded) (o : Options) : Type 0 where
  pub selector : name ≡ o.selector_name
  pub worker : Text
  pub read : body ≡ decoded worker
  pub set : Text → Option Error
  pub given : o.set_active_worker ≡ some set
  pub made : set worker ≡ none

switch_to-made :
    (name : Text) (body : Decoded) (o : Options)
    → name ≡ o.selector_name
    → (s : Option (Text → Option Error)) → o.set_active_worker ≡ s
    → (switch_to body s).status ≡ 204
    → Switches name body o
unfolding switch_to switched
switch_to-made name (malformed e) o n s h k = absurd (omega (arith, k))
switch_to-made name (decoded w) o n none h k = absurd (omega (arith, k))
switch_to-made name (decoded w) o n (some set) h k = elim (Option-cases (set w)) [
  | inl fine_ ↦ record { selector = n; worker = w; read = refl; set = set; given = h; made = fine_ }
  | inr (e, bad) ↦ absurd (refused e (subst (λ x. (switched x).status ≡ 204) bad k))
]
  where
    refused : (e : Error) → ¬ ((switched (some e)).status ≡ 204)
    refused e x = omega (arith, x)

-- A PUT of a proxy is answered with 204 if and only if it names the selector, its body is read,
-- there is a function that sets the active worker, and that one sets the worker without an error.
pub put_proxy_iff :
    (name : Text) (body : Decoded) (o : Options)
    → ((handle_put_proxy name body o).status ≡ 204) ↔ Switches name body o
unfolding handle_put_proxy switch_to switched
put_proxy_iff name body o = (forth, back)
  where
    forth : (handle_put_proxy name body o).status ≡ 204 → Switches name body o
    forth e = elim (Bool-cases (text_eq name o.selector_name)) [
      | inl h ↦
          switch_to-made name body o (text_eq_sound name o.selector_name h) o.set_active_worker refl
            (subst
              (λ b.
                (if b
                  then switch_to body o.set_active_worker
                  else record { status = 400; body = Body.error (bytes "not a selector") }).status
                ≡ 204)
              h e)
      | inr h ↦ absurd (
          omega (
            arith,
            subst
                (λ b.
                  (if b
                    then switch_to body o.set_active_worker
                    else record { status = 400; body = Body.error (bytes "not a selector") }).status
                  ≡ 204)
                h e,
          ))
    ]

    back : Switches name body o → (handle_put_proxy name body o).status ≡ 204
    back s = rw (s.selector, text_eq_refl o.selector_name, s.read, s.given, s.made) refl

abbrev pub is_worker : Text → List WorkerRef → Bool
is_worker name ws = any (λ (w : WorkerRef). text_eq w.name name) ws

-- What the two handlers of one proxy answer, by whether a worker has its name.
pub record Answers (name : Text) (o : Options) (get delay : Response) : Type 0 where
  pub selector : text_eq name o.selector_name ≡ true → get ≡ handle_get_proxies o
  pub missing :
      is_worker name o.workers ≡ false
      → (delay.status ≡ 404) × (text_eq name o.selector_name ≡ false → get.status ≡ 404)
  pub present :
      is_worker name o.workers ≡ true
      → (w : WorkerRef) × (w.name ≡ name)
        × (delay ≡ found_delay (some w))
        × (text_eq name o.selector_name ≡ false → get ≡ found_proxy name (some w))

-- The entries of the rules that reject.
abbrev pub rejecting : List RuleEntry → List RuleEntry
rejecting [] = []
rejecting (e ∷ es) =
    let rest = rejecting es in if text_eq e.proxy adapter_reject then e ∷ rest else rest

abbrev pub is_missing : {A : Type 0} → Option A → Bool
is_missing none = true
is_missing (some a) = false

pub entries_panic :
    (kind proxy : Text) (p : Option Text) (rest : Option (List RuleEntry))
    → is_missing (add_entry kind proxy p rest) ≡ (is_missing p || is_missing rest)
entries_panic kind proxy none rest = refl
entries_panic kind proxy (some p) none = refl
entries_panic kind proxy (some p) (some es) = refl

entries-split :
    (kind proxy : Text) (p : Option Text) (rest : Option (List RuleEntry)) (es : List RuleEntry)
    → add_entry kind proxy p rest ≡ some es
    → (t : Text) × (ts : List RuleEntry) × (p ≡ some t)
      × (rest ≡ some ts)
      × (record { kind = kind; payload = t; proxy = proxy } ∷ ts ≡ es)
entries-split kind proxy none rest es e = absurd (ground arith)
entries-split kind proxy (some p) none es e = absurd (ground arith)
entries-split kind proxy (some p) (some ts) es e = (p, ts, refl, refl, cc)

module _ {re : Regexp} {net : Networks} where
  abbrev pub panics : Rule re net → Bool
  panics r = is_missing (payload r.test)

  -- The list of the rules has no answer if and only if the payload of some rule panics.
  pub all_entries-panics : (rs : List (Rule re net)) → is_missing (all_entries rs) ≡ any panics rs
  unfolding all_entries
  all_entries-panics [] = refl
  all_entries-panics (r ∷ rs) =
      entries_panic (test_type r.test) r.adapter (payload r.test) (all_entries rs)
      ∙ ap (λ b. panics r || b) (all_entries-panics rs)

  abbrev pub Blocks : List (Rule re net) → List RuleEntry → Type 0
  Blocks rs es =
      (reject_entries rs ≡ some (rejecting es)) × (length (rejecting es) ≡ count_rejects rs)

  Blocks-cons :
      (r : Rule re net) (rs : List (Rule re net)) (t : Text) (ts : List RuleEntry)
      → payload r.test ≡ some t
      → Blocks rs ts
      → Blocks (r ∷ rs) (record { kind = test_type r.test; payload = t; proxy = r.adapter } ∷ ts)
  unfolding reject_entries count_rejects
  Blocks-cons r rs t ts p b = elim (Bool-cases (text_eq r.adapter adapter_reject)) [
    | inl h ↦
        rw (h, p, b.0)
          (
            ap
                (λ a.
                  some (record { kind = test_type r.test; payload = t; proxy = a } ∷ rejecting ts))
                (sym (text_eq_sound r.adapter adapter_reject h)),
            omega (arith, b.1),
          )
    | inr h ↦ rw h (b.0, omega (arith, b.1))
  ]

  all_entries-Blocks :
      (rs : List (Rule re net)) (es : List RuleEntry) → all_entries rs ≡ some es → Blocks rs es
  unfolding all_entries reject_entries count_rejects
  all_entries-Blocks [] es e = ground arith
  all_entries-Blocks (r ∷ rs) es e =
      let (t, ts, p, q, same) =
        entries-split (test_type r.test) r.adapter (payload r.test) (all_entries rs) es e in
      subst (Blocks (r ∷ rs)) same (Blocks-cons r rs t ts p (all_entries-Blocks rs ts q))

  -- The list of the rules is answered unless the payload of some rule panics, and where it is
  -- answered the blocklist is the part of it that rejects, as long as the count of the rejecting
  -- rules that is logged when the program starts.
  pub blocklist_lem :
      (rs : List (Rule re net))
      → (is_missing (handle_get_rules (some rs)) ≡ any panics rs)
        × ((es : List RuleEntry)
            → handle_get_rules (some rs) ≡ some es
            → (handle_get_blocklist (some rs) ≡ some (rejecting es))
              × (length (rejecting es) ≡ count_rejects rs))
  unfolding handle_get_rules handle_get_blocklist
  blocklist_lem rs = (all_entries-panics rs, all_entries-Blocks rs)
