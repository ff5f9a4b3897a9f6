-- ===== src/Clashapi/Proxies/Laws.antt =====
-- clashapi/handlers.go and proxies_yaml.go: which proxy the dashboard shows under a name.
use ssh_worker.Prelude.{
  if◌then◌else◌, Bool, true, false, Option, none, some, List, [], ◌∷◌, Text, text_eq, ◌≡◌, refl, ap,
  ◌∙◌,
}
use ssh_worker.Prelude.Maps.{lookup, put, lookup-put}
use ssh_worker.Clashconfig.{ProxyEntry, ProxyGroup, ClashConfig}
use ssh_worker.Clashapi.Proxies.{
  WorkerRef, Proxy, worker_proxy, yaml_proxy, group_proxy, put_each, merge_yaml_proxies,
  selector_proxy, fixed_proxies, all_proxies,
}

abbrev pub or_else : {A : Type 0} → Option A → Option A → Option A
or_else none o = o
or_else (some a) o = some a

module _ {A : Type 0} (name_of : A → Text) (proxy_of : A → Proxy) where
  -- The last one of that name.
  abbrev pub last_named : Text → List A → Option Proxy
  last_named n [] = none
  last_named n (x ∷ xs) =
      or_else (last_named n xs) (if text_eq (name_of x) n then some (proxy_of x) else none)

  or_else_assoc :
      {B : Type 0} (a b c : Option B) → or_else a (or_else b c) ≡ or_else (or_else a b) c
  or_else_assoc none b c = refl
  or_else_assoc (some x) b c = refl

  lookup-put_each :
      (n : Text) (xs : List A) (m : List (Text × Proxy))
      → lookup n (put_each name_of proxy_of xs m) ≡ or_else (last_named n xs) (lookup n m)
  unfolding put_each
  lookup-put_each n [] m = refl
  lookup-put_each n (x ∷ xs) m =
      lookup-put_each n xs (put (name_of x) (proxy_of x) m)
      ∙ ap (or_else (last_named n xs))
          (lookup-put n (name_of x) (proxy_of x) m ∙ as_option (text_eq (name_of x) n))
      ∙ or_else_assoc (last_named n xs) _ _
    where
      as_option :
          (b : Bool)
          → (if b then some (proxy_of x) else lookup n m)
            ≡ or_else (if b then some (proxy_of x) else none) (lookup n m)
      as_option true = refl
      as_option false = refl

abbrev pub yaml_groups : Option ClashConfig → List ProxyGroup
yaml_groups none = []
yaml_groups (some c) = c.proxy_groups

abbrev pub yaml_proxies : Option ClashConfig → List ProxyEntry
yaml_proxies none = []
yaml_proxies (some c) = c.proxies

lookup-merge :
    (n : Text) (clash : Option ClashConfig) (m : List (Text × Proxy))
    → lookup n (merge_yaml_proxies clash m)
      ≡ or_else (last_named (λ (g : ProxyGroup). g.name) group_proxy n (yaml_groups clash)) (
          or_else
            (last_named (λ (p : ProxyEntry). p.name) yaml_proxy n (yaml_proxies clash))
            (lookup n m))
unfolding merge_yaml_proxies
lookup-merge n none m = refl
lookup-merge n (some c) m =
    lookup-put_each (λ (g : ProxyGroup). g.name) group_proxy n c.proxy_groups _
    ∙ ap (or_else (last_named (λ (g : ProxyGroup). g.name) group_proxy n c.proxy_groups))
        (lookup-put_each (λ (p : ProxyEntry). p.name) yaml_proxy n c.proxies m)

-- Under a name the dashboard shows the last group of the YAML of that name, or else its last proxy,
-- or else the selector if it is its name, or else the last worker, or else DIRECT or REJECT, and no
-- other: the YAML takes the name of the selector, of a worker and of DIRECT and REJECT.
pub all_proxies_lem :
    (n selector active : Text) (ws : List WorkerRef) (clash : Option ClashConfig)
    → lookup n (all_proxies selector active ws clash)
      ≡ or_else (last_named (λ (g : ProxyGroup). g.name) group_proxy n (yaml_groups clash)) (
          or_else (last_named (λ (p : ProxyEntry). p.name) yaml_proxy n (yaml_proxies clash)) (
            if text_eq selector n
            then some (selector_proxy selector active ws)
            else or_else
                (last_named (λ (w : WorkerRef). w.name) worker_proxy n ws)
                (lookup n fixed_proxies)))
unfolding all_proxies
all_proxies_lem n selector active ws clash =
    lookup-merge n clash _
    ∙ ap
        (λ o.
          or_else (last_named (λ (g : ProxyGroup). g.name) group_proxy n (yaml_groups clash))
            (or_else (last_named (λ (p : ProxyEntry). p.name) yaml_proxy n (yaml_proxies clash)) o))
        (lookup-put n selector (selector_proxy selector active ws) _
          ∙ ap (λ o. if text_eq selector n then some (selector_proxy selector active ws) else o)
              (lookup-put_each (λ (w : WorkerRef). w.name) worker_proxy n ws fixed_proxies))
