-- ===== src/Config/Laws.antt =====
-- config/config.go: the defaults and the validation.
use ssh_worker.Prelude.{
  ℕ, zero, suc, if◌then◌else◌, Bool, true, false, not, ◌&&◌, List, [], ◌∷◌, Text, bytes, is_empty,
  ◌≡◌, refl, arith, ◌↔◌,
}
use ssh_worker.Prelude.Int.{ℤ, pos, negsuc, is_zero, positive_or}
use ssh_worker.Config.{
  Config, or_text, or_zero, apply_defaults, complaints, network_ok, proxy_ok, validate_all,
}

or_text_twice : (t d : Text) → or_text (or_text t d) d ≡ or_text t d
or_text_twice [] [] = refl
or_text_twice [] (d ∷ ds) = refl
or_text_twice (c ∷ cs) d = refl

positive_or_twice : (n : ℤ) (d : ℕ) → positive_or (pos (positive_or n d)) d ≡ positive_or n d
positive_or_twice (pos zero) zero = refl
positive_or_twice (pos zero) (suc d) = refl
positive_or_twice (pos (suc n)) d = refl
positive_or_twice (negsuc n) zero = refl
positive_or_twice (negsuc n) (suc d) = refl

or_zero_twice : (n d : ℤ) → or_zero (or_zero n d) d ≡ or_zero n d
or_zero_twice (pos zero) (pos zero) = refl
or_zero_twice (pos zero) (pos (suc d)) = refl
or_zero_twice (pos zero) (negsuc d) = refl
or_zero_twice (pos (suc n)) d = refl
or_zero_twice (negsuc n) d = refl

-- ApplyDefaults leaves a configuration that has its defaults as it is.
pub apply_defaults_idempotent : (c : Config) → apply_defaults (apply_defaults c) ≡ apply_defaults c
unfolding apply_defaults
apply_defaults_idempotent c =
    rw
      (
        or_text_twice c.network (bytes "tcp"),
        or_text_twice c.transport.path (bytes "/"),
        or_text_twice c.proxy.kind (bytes "http"),
        or_text_twice c.log_level (bytes "info"),
        positive_or_twice c.concurrency.workers 1,
        positive_or_twice c.socks5.max_conns 2048,
        positive_or_twice c.socks5.idle_timeout 20000000000,
        or_zero_twice c.ssh.port (pos 22),
      )
      refl

abbrev pub NoneHolds : List (Bool × Text) → Type 0
NoneHolds [] = Unit
NoneHolds ((b, msg) ∷ cs) = (b ≡ false) × NoneHolds cs

if_cons_iff :
    {P : Type 0} (b : Bool) (x : Text) (xs : List Text)
    → ((xs ≡ []) ↔ P)
    → ((if b then x ∷ xs else xs) ≡ []) ↔ ((b ≡ false) × P)
if_cons_iff true x xs h = (λ e. absurd (ground arith), λ p. absurd (ground arith))
if_cons_iff false x xs h = (λ e. (refl, h.0 e), λ p. h.1 p.1)

complaints_iff : (cs : List (Bool × Text)) → (complaints cs ≡ []) ↔ NoneHolds cs
unfolding complaints
complaints_iff [] = (λ e. tt, λ u. refl)
complaints_iff ((b, msg) ∷ cs) = if_cons_iff b msg (complaints cs) (complaints_iff cs)

-- The SSH server and the user are named and there is a password or a key; the proxy and the payload
-- are there where they are enabled; there is a port to listen on, or the workers are enabled; the
-- types of the network and of the proxy are known.
pub record IsComplete (c : Config) : Type 0 where
  pub host : is_empty c.ssh.host ≡ false
  pub user : is_empty c.ssh.username ≡ false
  pub auth : (is_empty c.ssh.password && is_empty c.ssh.private_key) ≡ false
  pub proxy_host : (c.proxy.enable && is_empty c.proxy.host) ≡ false
  pub request : (c.payload.enable && is_empty c.payload.request) ≡ false
  pub port : (is_zero c.listen.port && not c.concurrency.enable) ≡ false
  pub network : not (network_ok c.network) ≡ false
  pub proxy_kind : not (proxy_ok c.proxy.kind) ≡ false

-- ValidateAll finds nothing exactly in a complete configuration: it names the SSH server and the
-- user and has a password or a key, it names the proxy and the payload where it enables them, it
-- has a port to listen on unless it enables the workers, and its network and proxy types are known.
pub validate_all_iff : (c : Config) → (validate_all c ≡ []) ↔ IsComplete c
unfolding validate_all
validate_all_iff c = (
  λ e.
      let h = (complaints_iff _).0 e in
      record {
        host = h.0;
        user = h.1.0;
        auth = h.1.1.0;
        proxy_host = h.1.1.1.0;
        request = h.1.1.1.1.0;
        port = h.1.1.1.1.1.0;
        network = h.1.1.1.1.1.1.0;
        proxy_kind = h.1.1.1.1.1.1.1.0;
      },
  λ h. (complaints_iff _).1 (
    h.host,
    (h.user, (h.auth, (h.proxy_host, (h.request, (h.port, (h.network, (h.proxy_kind, tt))))))),
  ),
)
