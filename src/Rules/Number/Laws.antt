-- ===== src/Rules/Number/Laws.antt =====
-- internal/rules/parser.go and types.go: atoi reads what itoa prints, and where itoa panics.
use ssh_worker.Prelude.{
  ℕ, zero, suc, ◌+◌, ◌-◌, ◌*◌, ◌/◌, ◌%◌, ◌^◌, ◌≤◌, ◌<◌, ◌==◌, Option, none, some, [], ◌∷◌, Text,
  ◌≡◌, ◌↔◌, refl, sym, ap, ◌∙◌, arith, ==_iff, Bool-cases, Option-cases, inl, inr,
}
use native.Mathlib.Nat.{pow-suc}
use ssh_worker.Prelude.Int.{pos}
use ssh_worker.Rules.Number.{int64, digits_value, atoi, fill, itoa}

pow_pos : (k : ℕ) → 0 < 10 ^ k
pow_pos zero = omega arith
pow_pos (suc k) = rw (pow-suc 10 k) (omega (arith, pow_pos k))

fill-eq-none_iff : (room n : ℕ) (s : Text) → (fill room n s ≡ none) ↔ (10 ^ room ≤ n)
unfolding fill
fill-eq-none_iff zero zero s = ((λ e. cc), (λ h. absurd (omega arith)))
fill-eq-none_iff zero (suc n) s = ((λ e. omega arith), λ h. refl)
fill-eq-none_iff (suc room) n s =
    let ih = fill-eq-none_iff room (n / 10) ((b'0' + n % 10) ∷ s) in
    elim (Bool-cases (n == 0)) [
      | inl z ↦ ((λ e. ground arith), λ h. absurd (ground (arith, pow-suc 10 room, pow_pos room)))
      | inr nz ↦ rw nz (
        (λ e. let h = ih.0 e in rw (pow-suc 10 room) (omega arith)),
        λ h. ih.1 (let h' = rw (pow-suc 10 room) at h in omega arith),
      )
    ]

digit_step :
    (n : ℕ) (s : Text)
    → n < 18446744073709551616
    → digits_value (n / 10) ((b'0' + n % 10) ∷ s) ≡ digits_value n s
unfolding digits_value
digit_step n s h =
    let e : (n / 10 * 10 + (b'0' + n % 10 - b'0')) % 18446744073709551616 ≡ n = omega arith in
    rw e (ground arith)

snd_eq : {a b : ℕ × Text} → some a ≡ some b → a.1 ≡ b.1
snd_eq h = cc

fill-digits_value :
    (room n : ℕ) (s : Text) (r : ℕ) (t : Text)
    → n < 18446744073709551616
    → fill room n s ≡ some (r, t)
    → digits_value 0 t ≡ digits_value n s
unfolding fill
fill-digits_value zero zero s r t h e = ap (λ x. digits_value 0 x) (ground arith)
fill-digits_value zero (suc n) s r t h e = cc
fill-digits_value (suc room) n s r t h e = elim (Bool-cases (n == 0)) [
  | inl z ↦
      let same : some (suc room, s) ≡ some (r, t) = rw z at e in
      rw ((==_iff n 0).0 z) (ap (λ x. digits_value 0 x) (sym (snd_eq same)))
  | inr nz ↦
      fill-digits_value room (n / 10) ((b'0' + n % 10) ∷ s) r t (omega arith) (rw nz at e)
      ∙ digit_step n s h
]

not_none {ℓ} : {A : Type ℓ} {a : A} {o : Option A} → o ≡ some a → o ≡ none → ⊥
not_none p q = cc

-- itoa panics on exactly the positive numbers of more than twelve digits.
pub itoa-eq-none_iff : (n : ℕ) → (itoa (pos n) ≡ none) ↔ (10 ^ 12 ≤ n)
unfolding itoa
itoa-eq-none_iff zero = ((λ e. cc), (λ h. absurd (omega arith)))
itoa-eq-none_iff (suc n) =
    let (to, from) = fill-eq-none_iff 12 (suc n) [] in
    elim (Option-cases (fill 12 (suc n) [])) [
      | inl panics ↦ rw panics ((λ e. to panics), λ h. refl)
      | inr (rt, printed) ↦ rw printed ((λ e. cc), λ h. absurd (not_none printed (from h)))
    ]

-- A natural number of at most twelve digits is printed, and read back by atoi.
pub atoi-itoa : (n : ℕ) → n < 10 ^ 12 → (t : Text) × (itoa (pos n) ≡ some t) × (atoi t ≡ pos n)
unfolding itoa atoi int64 digits_value
atoi-itoa zero h = (b'0' ∷ [], refl, refl)
atoi-itoa (suc n) h = elim (Option-cases (fill 12 (suc n) [])) [
  | inl panics ↦ absurd (let big = (fill-eq-none_iff 12 (suc n) []).0 panics in omega arith)
  | inr ((r, t), printed) ↦ (
    t,
    rw printed refl,
    rw (fill-digits_value 12 (suc n) [] r t (omega arith) printed, atoi) (ground arith),
  )
]
