-- ===== src/Clashapi/Auth/Laws.antt =====
-- clashapi/auth.go: who is served.
use ssh_worker.Prelude.{
  ℕ, Bool, true, false, if◌then◌else◌, not, ◌&&◌, [], ◌∷◌, ◌++◌, Text, bytes, text_eq, text_eq_iff,
  text_eq_sound, is_empty, starts_with, drop, length, ◌≡◌, ◌↔◌, ◌⊎◌, inl, inr, refl, ap₂, arith,
}
use ssh_worker.Clashapi.Auth.{Request, bearer, authorized, handle, served, unauthorized}

tail_of : {c x : ℕ} {s t : Text} → x ∷ s ≡ c ∷ t → s ≡ t
tail_of e = cc

-- A text with a prefix and a rest.
prefix_iff :
    (p s t : Text) → ((starts_with s p && text_eq (drop (length p) s) t) ≡ true) ↔ (s ≡ p ++ t)
unfolding starts_with
prefix_iff [] s t = text_eq_iff s t
prefix_iff (c ∷ p) [] t = (λ e. cc, λ e. cc)
prefix_iff (c ∷ p) (x ∷ s) t =
    let (to, from) = prefix_iff p s t in
    ((λ e. ap₂ ◌∷◌ (ground arith) (to (ground arith))), λ e. ground (arith, from (tail_of e)))

-- The three ways to be served.
abbrev pub MayPass : Text → Request → Type 0
MayPass secret r = (secret ≡ []) ⊎ ((r.authorization ≡ bearer ++ secret) ⊎ (r.token ≡ secret))

passes :
    (empty header no_token token : Bool) {A B C : Type 0}
    → ((empty ≡ true) ↔ A)
    → ((header ≡ true) ↔ B)
    → ((token ≡ true) ↔ C)
    → (empty ≡ false → token ≡ true → no_token ≡ false)
    → ((if empty then true else if header then true else not no_token && token) ≡ true)
      ↔ (A ⊎ (B ⊎ C))
passes true header no_token token a b c n = ((λ e. inl (a.0 refl)), λ p. refl)
passes false true no_token token a b c n = ((λ e. inr (inl (b.0 refl))), λ p. refl)
passes false false no_token true a b c n = ((λ e. inr (inr (c.0 refl))), λ p. rw (n refl refl) refl)
passes false false no_token false a b c n = (
  (λ e. absurd (ground arith)),
  λ p. elim p [
    | inl x ↦ absurd (ground (arith, a.1 x))
    | inr (inl x) ↦ absurd (ground (arith, b.1 x))
    | inr (inr x) ↦ absurd (ground (arith, c.1 x))
  ],
)

is_empty_iff : (s : Text) → (is_empty s ≡ true) ↔ (s ≡ [])
is_empty_iff [] = ((λ e. refl), λ e. refl)
is_empty_iff (c ∷ cs) = ((λ e. cc), λ e. cc)

filled_token :
    (token secret : Text)
    → is_empty secret ≡ false
    → text_eq token secret ≡ true
    → is_empty token ≡ false
filled_token token secret h e = rw (text_eq_sound token secret e) h

authorized_iff : (secret : Text) (r : Request) → (authorized secret r ≡ true) ↔ MayPass secret r
unfolding authorized
authorized_iff secret r =
    passes (is_empty secret) _ (is_empty r.token) (text_eq r.token secret) (is_empty_iff secret)
      (prefix_iff bearer r.authorization secret) (text_eq_iff r.token secret)
      (filled_token r.token secret)

answer_iff : (a : Bool) → ((if a then served else unauthorized) ≡ served) ↔ (a ≡ true)
answer_iff true = ((λ e. refl), λ e. refl)
answer_iff false = ((λ e. cc), λ e. cc)

-- A request that is not a preflight is served exactly when no secret is set, when its header is
-- "Bearer " and the secret, or when its parameter token is the secret.
pub handle_iff :
    (secret : Text) (r : Request)
    → text_eq r.method (bytes "OPTIONS") ≡ false
    → (handle secret r ≡ served) ↔ MayPass secret r
unfolding handle
handle_iff secret r h =
    let (to, from) = authorized_iff secret r in
    let (yes_, no_) = answer_iff (authorized secret r) in
    rw h ((λ e. to (yes_ e)), λ p. no_ (from p))
