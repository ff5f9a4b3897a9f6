-- ===== src/Rules/Geosite/Laws.antt =====
-- internal/rules/geosite.go: the cache does not change what Get answers.
use ssh_worker.Prelude.{
  if◌then◌else◌, List, [], ◌∷◌, Text, text_eq, text_eq_sound, Option, none, some, ◌≡◌, refl, sym,
  subst, ◌∙◌, inl, inr, Bool-cases,
}
use ssh_worker.Geodata.{Domain}
use ssh_worker.Rules.Matcher.{Regexp, DomainMatcher, new_matcher}
use ssh_worker.Rules.Geosite.{
  find, Sites, lookup_domains, GeoSiteStore, new_store, add_domains, load, miss, get_with, get,
}

module _ (re : Regexp) where
  -- What Get answers without a cache.
  unfoldable pub matcher_of : List Domain → Option (DomainMatcher re)
  matcher_of [] = none
  matcher_of (d ∷ ds) = some (add_domains re (d ∷ ds) (new_matcher re))

  unfoldable pub answer : Option Sites → Text → Option (DomainMatcher re)
  unfolding matcher_of
  answer none category = none
  answer (some sites) category = matcher_of (lookup_domains sites category)

  -- Every entry of the cache is what the loader gives.
  abbrev pub IsCoherent : GeoSiteStore re → Type 0
  IsCoherent s =
      (category : Text) (m : DomainMatcher re)
      → find category s.cache ≡ some m
      → answer s.loader category ≡ some m

  pub new_store-IsCoherent : (loader : Option Sites) → IsCoherent (new_store re loader)
  unfolding new_store find
  new_store-IsCoherent loader category m e = cc

  find_cons :
      (category k : Text) (m : DomainMatcher re) (cache : List (Text × DomainMatcher re))
      → find k ((category, m) ∷ cache) ≡ (if text_eq category k then some m else find k cache)
  unfolding find
  find_cons category k m cache = refl

  -- The first part of what is to be proved of Get and its parts, the second and the third.
  abbrev Answers : Text → GeoSiteStore re → GeoSiteStore re × Option (DomainMatcher re) → Type 0
  Answers category s r = (r.1 ≡ answer s.loader category) × (r.0.loader ≡ s.loader) × IsCoherent r.0

  load_lem :
      (category : Text) (sites : Sites) (s : GeoSiteStore re)
      → s.loader ≡ some sites
      → IsCoherent s
      → (ds : List Domain) → lookup_domains sites category ≡ ds
      → Answers category s (load re category ds s)
  unfolding load answer matcher_of
  load_lem category sites s l h [] e = (rw (l, e) refl, refl, h)
  load_lem category sites s l h (d ∷ ds) e =
      let m = add_domains re (d ∷ ds) (new_matcher re) in
      let found : answer s.loader category ≡ some m = rw (l, e) refl in
      (
        sym found,
        refl,
        λ k m' hit. elim (Bool-cases (text_eq category k)) [
          | inl same ↦
              subst (λ c. answer s.loader c ≡ some m') (text_eq_sound category k same)
                (found ∙ (rw (find_cons category k m s.cache, same) at hit))
          | inr other ↦ h k m' (rw (find_cons category k m s.cache, other) at hit)
        ],
      )

  miss_lem :
      (loader : Option Sites) (category : Text) (s : GeoSiteStore re)
      → s.loader ≡ loader
      → IsCoherent s
      → Answers category s (miss re loader category s)
  unfolding miss answer
  miss_lem none category s l h = (rw l refl, refl, h)
  miss_lem (some sites) category s l h =
      load_lem category sites s l h (lookup_domains sites category) refl

  get_with_lem :
      (cached : Option (DomainMatcher re)) (category : Text) (s : GeoSiteStore re)
      → find category s.cache ≡ cached
      → IsCoherent s
      → Answers category s (get_with re cached category s)
  unfolding get_with
  get_with_lem (some m) category s e h = (sym (h category m e), refl, h)
  get_with_lem none category s e h = miss_lem s.loader category s refl h

  -- From a store whose cache agrees with its loader, Get answers what the loader gives, and leaves
  -- the loader as it was and a cache that agrees with it; a category that is not there or has no
  -- domain is answered by nil, as every category is without a loader.
  pub get_lem :
      (category : Text) (s : GeoSiteStore re)
      → IsCoherent s
      → ((get re category s).1 ≡ answer s.loader category)
        × ((get re category s).0.loader ≡ s.loader)
        × IsCoherent (get re category s).0
  unfolding get
  get_lem category s h = get_with_lem (find category s.cache) category s refl h
