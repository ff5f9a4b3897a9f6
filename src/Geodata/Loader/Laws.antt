-- ===== src/Geodata/Loader/Laws.antt =====
-- internal/geodata/loader.go: the categories that Stats counts.
use ssh_worker.Prelude.{
  ℕ, List, [], ◌∷◌, map, length, Text, text_eq, Option, none, some, ◌≡◌, refl, ap, ◌∙◌, inl, inr,
  Bool-cases,
}
use ssh_worker.Prelude.Maps.{lookup, IsUnique, lookup-delete, lookup-delete_ne, delete-IsUnique}
use ssh_worker.Geodata.{Domain, Sites}
use ssh_worker.Geodata.Loader.{entries, stats}

abbrev pub size_of : Option (List Domain) → Option ℕ
size_of none = none
size_of (some ds) = some (length ds)

lookup-entries : (c : Text) (sites : Sites) → lookup c (entries sites) ≡ lookup c sites
unfolding entries
lookup-entries c [] = refl
lookup-entries c ((n, ds) ∷ m) = elim (Bool-cases (text_eq n c)) [
  | inl h ↦ rw h refl
  | inr h ↦ rw h (lookup-delete_ne c n (entries m) h ∙ lookup-entries c m)
]

entries-IsUnique : (sites : Sites) → IsUnique (entries sites)
unfolding entries
entries-IsUnique [] = tt
entries-IsUnique ((n, ds) ∷ m) =
    (lookup-delete n (entries m), delete-IsUnique n (entries m) (entries-IsUnique m))

lookup-counts :
    (c : Text) (m : Sites)
    → lookup c (map (λ (p : Text × List Domain). (p.0, length p.1)) m) ≡ size_of (lookup c m)
lookup-counts c [] = refl
lookup-counts c ((n, ds) ∷ m) = elim (Bool-cases (text_eq n c)) [
  | inl h ↦ rw h refl
  | inr h ↦ rw h (lookup-counts c m)
]

counts-IsUnique :
    (m : Sites) → IsUnique m → IsUnique (map (λ (p : Text × List Domain). (p.0, length p.1)) m)
counts-IsUnique [] u = tt
counts-IsUnique ((n, ds) ∷ m) u = (lookup-counts n m ∙ ap size_of u.0, counts-IsUnique m u.1)

-- Stats has each category of the map once, with the number of the domains that Lookup gives for it,
-- and no other.
pub stats_lem :
    (sites : Sites)
    → IsUnique (stats sites) × ((c : Text) → lookup c (stats sites) ≡ size_of (lookup c sites))
unfolding stats
stats_lem sites = (
  counts-IsUnique (entries sites) (entries-IsUnique sites),
  λ c. lookup-counts c (entries sites) ∙ ap size_of (lookup-entries c sites),
)
