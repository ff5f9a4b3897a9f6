-- ===== src/Clashapi/Server/Laws.antt =====
-- clashapi/server.go: which requests get no answer.
use ssh_worker.Prelude.{
  Bool, true, ◌&&◌, ◌||◌, any, Option, none, some, List, [], ◌∷◌, text_eq, ◌≡◌, ◌↔◌, inl, inr, refl,
  ap, subst, ◌∙◌, arith, Bool-cases,
}
use ssh_worker.Rules.Matcher.{Regexp}
use ssh_worker.Rules.Types.{Networks, Rule, test_type, payload, adapter_reject}
use ssh_worker.Clashapi.Auth.{Answer, no_content, unauthorized, served, handle}
use ssh_worker.Clashapi.Handlers.{Response}
use ssh_worker.Clashapi.Handlers.Rules.{
  RuleEntry, all_entries, reject_entries, handle_get_rules, handle_get_blocklist,
}
use ssh_worker.Clashapi.Handlers.Laws.{is_missing, panics, entries_panic, all_entries-panics}
use ssh_worker.Clashapi.Handlers.Routes.{Handler, dispatch}
use ssh_worker.Clashapi.Server.{
  Call, Reply, or_upgrade, or_abort, pass_on, Backend, run_handler, serve,
}

module _ (re : Regexp) (net : Networks) where
  abbrev pub rejects : Rule re net → Bool
  rejects r = text_eq r.adapter adapter_reject && panics r

  reject_entries-rejects :
      (rs : List (Rule re net)) → is_missing (reject_entries rs) ≡ any rejects rs
  unfolding reject_entries
  reject_entries-rejects [] = refl
  reject_entries-rejects (r ∷ rs) = elim (Bool-cases (text_eq r.adapter adapter_reject)) [
    | inl h ↦ rw h (
        entries_panic (test_type r.test) _ (payload r.test) (reject_entries rs)
        ∙ ap (λ b. panics r || b) (reject_entries-rejects rs))
    | inr h ↦ rw h (reject_entries-rejects rs)
  ]

  -- Some rule of the engine has the test.
  abbrev pub Has : (Rule re net → Bool) → Option (List (Rule re net)) → Type 0
  Has test none = ⊥
  Has test (some rs) = any test rs ≡ true

  -- Why a handler panics.
  abbrev pub Cause : Handler → Backend re net → Type 0
  Cause Handler.rules b = Has panics b.rule_engine
  Cause Handler.blocklist b = Has rejects b.rule_engine
  Cause _ b = ⊥

  or_abort_iff :
      (o : Option (List RuleEntry)) → (or_abort o ≡ Reply.aborted) ↔ (is_missing o ≡ true)
  or_abort_iff none = (λ e. refl, λ e. refl)
  or_abort_iff (some es) = (λ e. absurd (ground arith), λ e. absurd (ground arith))

  or_upgrade_answers : (o : Option Response) → ¬ (or_upgrade o ≡ Reply.aborted)
  or_upgrade_answers none e = ground arith
  or_upgrade_answers (some r) e = ground arith

  rules_iff :
      (e : Option (List (Rule re net)))
      → (or_abort (handle_get_rules e) ≡ Reply.aborted) ↔ Has panics e
  unfolding handle_get_rules
  rules_iff none = (λ e. absurd (ground arith), λ h. absurd h)
  rules_iff (some rs) =
      subst (λ b. (or_abort (all_entries rs) ≡ Reply.aborted) ↔ (b ≡ true)) (all_entries-panics rs)
        (or_abort_iff (all_entries rs))

  blocklist_iff :
      (e : Option (List (Rule re net)))
      → (or_abort (handle_get_blocklist e) ≡ Reply.aborted) ↔ Has rejects e
  unfolding handle_get_blocklist
  blocklist_iff none = (λ e. absurd (ground arith), λ h. absurd h)
  blocklist_iff (some rs) =
      subst (λ b. (or_abort (reject_entries rs) ≡ Reply.aborted) ↔ (b ≡ true))
        (reject_entries-rejects rs) (or_abort_iff (reject_entries rs))

  never : {P : Type 0} → ¬ P → P ↔ ⊥
  never n = (n, λ x. absurd x)

  run_handler_iff :
      (h : Handler) (b : Backend re net) (c : Call)
      → (run_handler re net h b c ≡ Reply.aborted) ↔ Cause h b
  unfolding run_handler
  run_handler_iff Handler.rules b c = rules_iff b.rule_engine
  run_handler_iff Handler.blocklist b c = blocklist_iff b.rule_engine
  run_handler_iff Handler.connections b c = never (or_upgrade_answers _)
  run_handler_iff Handler.traffic b c = never (or_upgrade_answers _)
  run_handler_iff Handler.logs b c = never (or_upgrade_answers _)
  run_handler_iff Handler.hello b c = never (λ e. ground arith)
  run_handler_iff Handler.version b c = never (λ e. ground arith)
  run_handler_iff Handler.get_configs b c = never (λ e. ground arith)
  run_handler_iff Handler.patch_configs b c = never (λ e. ground arith)
  run_handler_iff Handler.get_proxies b c = never (λ e. ground arith)
  run_handler_iff (Handler.get_proxy n) b c = never (λ e. ground arith)
  run_handler_iff (Handler.put_proxy n) b c = never (λ e. ground arith)
  run_handler_iff (Handler.proxy_delay n) b c = never (λ e. ground arith)
  run_handler_iff Handler.close_all b c = never (λ e. ground arith)
  run_handler_iff (Handler.close_one n) b c = never (λ e. ground arith)
  run_handler_iff Handler.method_not_allowed b c = never (λ e. ground arith)

  pass_on_iff :
      (a : Answer) (r : Reply) (P : Type 0)
      → (r ≡ Reply.aborted) ↔ P
      → (pass_on a r ≡ Reply.aborted) ↔ ((a ≡ served) × P)
  pass_on_iff no_content r P h = (λ e. absurd (ground arith), λ x. absurd (ground (arith, x.0)))
  pass_on_iff unauthorized r P h = (λ e. absurd (ground arith), λ x. absurd (ground (arith, x.0)))
  pass_on_iff served r P h = (λ e. (refl, h.0 e), λ x. h.1 x.1)

  -- A request gets no answer, since its handler panics, if and only if it passes the middlewares
  -- and is routed to the list of the rules while the payload of some rule panics, or to the
  -- blocklist while that of some rule that rejects does.
  pub serve_iff :
      (b : Backend re net) (c : Call)
      → (serve re net b c ≡ Reply.aborted)
        ↔ ((handle b.secret c.access ≡ served) × Cause (dispatch c.access.method c.segments) b)
  unfolding serve
  serve_iff b c =
      pass_on_iff (handle b.secret c.access) _ _
        (run_handler_iff (dispatch c.access.method c.segments) b c)
