-- ===== src/Clashconfig/Laws.antt =====
-- internal/clashconfig/loader.go: what the validation lets through, and what the defaults leave.
use ssh_worker.Prelude.{
  if◌then◌else◌, Bool, true, false, ◌||◌, Option, none, some, List, [], ◌∷◌, ◌++◌, any, All, Text,
  bytes, text_eq, is_empty, ◌≡◌, ◌↔◌, refl, sym, ap, subst, ◌∙◌, inl, inr, ◌⊎◌, arith, Bool-cases,
}
use ssh_worker.Prelude.Int.{is_neg}
use ssh_worker.Prelude.Maps.{lookup, put, lookup-put}
use ssh_worker.Errs.{Error}
use ssh_worker.Clashconfig.Paths.{is_abs, clean, up_to_slash, dir, join_path}
use ssh_worker.Clashconfig.{
  ProxyGroup, ClashConfig, or_text, place_ui, apply_defaults, all_known, proxy_names, group_names,
  known, holds, check_refs, check_groups, validate, negative_port,
}

-- A name that a group may refer to.
abbrev pub is_named : List Text → Text → Bool
is_named names ref = any (λ n. text_eq n ref) names

abbrev pub IsKnown : ClashConfig → Text → Type 0
IsKnown c ref =
    (is_named (bytes "DIRECT" ∷ bytes "REJECT" ∷ bytes "GLOBAL" ∷ []) ref ≡ true)
    ⊎ ((is_named (proxy_names c.proxies) ref ≡ true)
        ⊎ (is_named (group_names c.proxy_groups) ref ≡ true))

lookup-all_known :
    (ns : List Text) (m : List (Text × Bool)) (ref : Text)
    → holds (lookup ref (all_known ns m)) ≡ (is_named ns ref || holds (lookup ref m))
lookup-all_known [] m ref = refl
lookup-all_known (n ∷ ns) m ref = elim (Bool-cases (text_eq n ref)) [
  | inl h ↦ lookup-all_known ns (put n true m) ref ∙ rw (lookup-put ref n true m, h) (ground arith)
  | inr h ↦ lookup-all_known ns (put n true m) ref ∙ rw (lookup-put ref n true m, h) refl
]

lookup_fixed :
    (ref : Text)
    → holds
        (lookup ref ((bytes "DIRECT", true) ∷ (bytes "REJECT", true) ∷ (bytes "GLOBAL", true) ∷ []))
      ≡ is_named (bytes "DIRECT" ∷ bytes "REJECT" ∷ bytes "GLOBAL" ∷ []) ref
lookup_fixed ref = elim (Bool-cases (text_eq (bytes "DIRECT") ref)) [
  | inl a ↦ rw a refl
  | inr a ↦ elim (Bool-cases (text_eq (bytes "REJECT") ref)) [
    | inl b ↦ rw (a, b) refl
    | inr b ↦ elim (Bool-cases (text_eq (bytes "GLOBAL") ref)) [
      | inl d ↦ rw (a, b, d) refl
      | inr d ↦ rw (a, b, d) refl
    ]
  ]
]

known_lem :
    (c : ClashConfig) (ref : Text)
    → holds (lookup ref (known c)) ≡ (
        is_named (group_names c.proxy_groups) ref
        || (is_named (proxy_names c.proxies) ref
            || is_named (bytes "DIRECT" ∷ bytes "REJECT" ∷ bytes "GLOBAL" ∷ []) ref))
unfolding known
known_lem c ref =
    lookup-all_known (group_names c.proxy_groups) _ ref
    ∙ ap (λ b. is_named (group_names c.proxy_groups) ref || b)
        (lookup-all_known (proxy_names c.proxies) _ ref
          ∙ ap (λ b. is_named (proxy_names c.proxies) ref || b) (lookup_fixed ref))

or_iff : (g p f : Bool) → ((g || (p || f)) ≡ true) ↔ ((f ≡ true) ⊎ ((p ≡ true) ⊎ (g ≡ true)))
or_iff g p f = ground arith

known_iff : (c : ClashConfig) (ref : Text) → (holds (lookup ref (known c)) ≡ true) ↔ IsKnown c ref
known_iff c ref =
    subst (λ b. (b ≡ true) ↔ IsKnown c ref) (sym (known_lem c ref))
      (or_iff (is_named (group_names c.proxy_groups) ref) (is_named (proxy_names c.proxies) ref) _)

-- Every reference is one that the map holds.
abbrev Passes : List (Text × Bool) → List Text → Type 0
Passes m refs = All (λ r. holds (lookup r m) ≡ true) refs

check_refs_iff :
    (m : List (Text × Bool)) (name : Text) (refs : List Text) (rest : Option Error)
    → (check_refs m name refs rest ≡ none) ↔ (Passes m refs × (rest ≡ none))
unfolding check_refs
check_refs_iff m name [] rest = ground arith
check_refs_iff m name (r ∷ rs) rest =
    let ih = check_refs_iff m name rs rest in
    elim (Bool-cases (holds (lookup r m))) [
      | inl h ↦ rw h (λ e. ((refl, (ih.0 e).0), (ih.0 e).1), λ p. ih.1 (p.0.1, p.1))
      | inr h ↦ rw h (λ e. absurd (ground (arith, e)), λ p. absurd (ground (arith, p.0.0)))
    ]

check_groups_iff :
    (m : List (Text × Bool)) (gs : List ProxyGroup)
    → (check_groups m gs ≡ none) ↔ All (λ (g : ProxyGroup). Passes m g.proxies) gs
unfolding check_groups
check_groups_iff m [] = ground arith
check_groups_iff m (g ∷ gs) =
    let ih = check_groups_iff m gs in
    let here = check_refs_iff m g.name g.proxies (check_groups m gs) in
    (λ e. ((here.0 e).0, ih.0 (here.0 e).1), λ p. here.1 (p.0, ih.1 p.1))

map-All :
    {A : Type 0} (P Q : A → Type 0) (xs : List A) → ((a : A) → P a → Q a) → All P xs → All Q xs
map-All P Q [] f a = tt
map-All P Q (x ∷ xs) f a = (f x a.0, map-All P Q xs f a.1)

-- Every group refers to known names only.
abbrev pub RefersWell : ClashConfig → Type 0
RefersWell c = All (λ (g : ProxyGroup). All (IsKnown c) g.proxies) c.proxy_groups

groups_iff : (c : ClashConfig) → (check_groups (known c) c.proxy_groups ≡ none) ↔ RefersWell c
groups_iff c =
    let inner = check_groups_iff (known c) c.proxy_groups in
    (
      λ e.
          map-All _ _ c.proxy_groups (λ g. map-All _ _ g.proxies (λ r. (known_iff c r).0))
            (inner.0 e),
      λ a.
          inner.1
            (map-All _ _ c.proxy_groups (λ g. map-All _ _ g.proxies (λ r. (known_iff c r).1)) a),
    )

-- The validation lets a configuration through if and only if none of its three ports is negative
-- and every group refers only to DIRECT, REJECT, GLOBAL, the names of proxies and the names of
-- groups.
pub validate_iff :
    (c : ClashConfig)
    → (validate c ≡ none) ↔ (
        (is_neg c.mixed_port ≡ false)
        × (is_neg c.socks_port ≡ false)
        × (is_neg c.port ≡ false)
        × RefersWell c)
unfolding validate
validate_iff c = guarded _ _ _ _ _ (groups_iff c)
  where
    guarded :
        (a b d : Bool) (e : Option Error) (P : Type 0)
        → (e ≡ none) ↔ P
        → ((if a || b || d then some negative_port else e) ≡ none)
          ↔ ((a ≡ false) × (b ≡ false) × (d ≡ false) × P)
    guarded true b d e P h = (λ x. absurd (ground arith), λ x. absurd (ground arith))
    guarded false true d e P h = (λ x. absurd (ground arith), λ x. absurd (ground arith))
    guarded false false true e P h = (λ x. absurd (ground arith), λ x. absurd (ground arith))
    guarded false false false e P h = (λ x. (refl, refl, refl, h.0 x), λ x. h.1 x.3)

clean-is_abs : (p : Text) → is_abs p ≡ true → is_abs (clean p) ≡ true
unfolding clean is_abs
clean-is_abs [] h = absurd (ground arith)
clean-is_abs (c ∷ cs) h = rw h refl

up_to_slash-is_abs : (p : Text) → is_abs p ≡ true → is_abs (up_to_slash p) ≡ true
unfolding up_to_slash is_abs
up_to_slash-is_abs [] h = absurd (ground arith)
up_to_slash-is_abs (c ∷ cs) h = elim (Bool-cases (is_empty (up_to_slash cs))) [
  | inl e ↦ rw (e, h) h
  | inr e ↦ rw e h
]

append-is_abs : (a b : Text) → is_abs a ≡ true → is_abs (a ++ b) ≡ true
unfolding is_abs
append-is_abs [] b h = absurd (ground arith)
append-is_abs (c ∷ cs) b h = h

join_path-is_abs :
    (yaml_path ui : Text) → is_abs yaml_path ≡ true → is_abs (join_path (dir yaml_path) ui) ≡ true
unfolding join_path dir
join_path-is_abs yaml_path ui h = clean-is_abs (clean (up_to_slash yaml_path) ++ b'/' ∷ ui) (
    append-is_abs (clean (up_to_slash yaml_path)) (b'/' ∷ ui)
      (clean-is_abs (up_to_slash yaml_path) (up_to_slash-is_abs yaml_path h)))

abbrev IsPlaced : Text → Type 0
IsPlaced ui = (is_empty ui ≡ true) ⊎ (is_abs ui ≡ true)

place_ui-IsPlaced :
    (yaml_path ui : Text) → is_abs yaml_path ≡ true → IsPlaced (place_ui yaml_path ui)
unfolding place_ui
place_ui-IsPlaced yaml_path ui h = elim (Bool-cases (is_empty ui)) [
  | inl e ↦ rw e (inl e)
  | inr e ↦ elim (Bool-cases (is_abs ui)) [
    | inl a ↦ rw (e, a) (inr a)
    | inr a ↦ rw (e, a) (inr (join_path-is_abs yaml_path ui h))
  ]
]

place_ui_keeps : (yaml_path ui : Text) → IsPlaced ui → place_ui yaml_path ui ≡ ui
unfolding place_ui
place_ui_keeps yaml_path ui (inl e) = rw e refl
place_ui_keeps yaml_path ui (inr a) = elim (Bool-cases (is_empty ui)) [
  | inl e ↦ rw e refl
  | inr e ↦ rw (e, a) refl
]

place_ui_twice :
    (yaml_path ui : Text)
    → is_abs yaml_path ≡ true
    → place_ui yaml_path (place_ui yaml_path ui) ≡ place_ui yaml_path ui
place_ui_twice yaml_path ui h =
    place_ui_keeps yaml_path (place_ui yaml_path ui) (place_ui-IsPlaced yaml_path ui h)

or_text_twice : (s d : Text) → or_text (or_text s d) d ≡ or_text s d
or_text_twice [] [] = refl
or_text_twice [] (c ∷ cs) = refl
or_text_twice (c ∷ cs) d = refl

-- Where the path of the YAML file is absolute, the defaults applied a second time change nothing:
-- a directory of the dashboard that was put beside the file is not put there again.
pub apply_defaults_twice :
    (yaml_path : Text) (c : ClashConfig)
    → is_abs yaml_path ≡ true
    → apply_defaults yaml_path (apply_defaults yaml_path c) ≡ apply_defaults yaml_path c
unfolding apply_defaults
apply_defaults_twice yaml_path c h =
    rw
      (
        or_text_twice c.mode (bytes "rule"),
        or_text_twice c.log_level (bytes "info"),
        or_text_twice c.external_controller (bytes "127.0.0.1:9090"),
        place_ui_twice yaml_path c.external_ui h,
      )
      refl

-- The defaults leave an address of the API, whatever the file says.
pub apply_defaults-controller :
    (yaml_path : Text) (c : ClashConfig)
    → is_empty (apply_defaults yaml_path c).external_controller ≡ false
unfolding apply_defaults
apply_defaults-controller yaml_path c = filled c.external_controller
  where
    filled : (s : Text) → is_empty (or_text s (bytes "127.0.0.1:9090")) ≡ false
    filled [] = refl
    filled (x ∷ s) = refl
