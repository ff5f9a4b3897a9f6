-- ===== src/Config/Addresses.antt =====
-- config/config.go, ListenAddrs: the addresses of the workers.
use ssh_worker.Prelude.{
  ℕ, zero, suc, ◌+◌, ◌-◌, ◌*◌, ◌/◌, ◌%◌, ◌^◌, ◌≤◌, ◌<◌, ltb, Bool, true, false, not, ◌||◌, [], ◌∷◌,
  ◌++◌, Text, ◌==◌, ◌≡◌, ◌≢◌, refl, sym, ◌∙◌, ap, ap₂, arith, if_false, length, get_or, Bool-cases,
  inl, inr,
}
use native.Mathlib.Nat.{pow-suc}
use ssh_worker.Prelude.Int.{ℤ, pos}
use ssh_worker.Rules.Number.{int64}
use ssh_worker.Config.{
  Config, digits, itoa, join_host_port, port_at, addrs_from, many, listen_host, start_port,
  listen_addrs,
}

-- The number that a text of digits stands for.
unfoldable value : ℕ → Text → ℕ
value acc [] = acc
value acc (c ∷ cs) = value (acc * 10 + (c - b'0')) cs

below : (room n : ℕ) → n < 10 ^ suc room → n / 10 < 10 ^ room
below room n h = omega (arith, pow-suc 10 room, h)

room_left : (room n : ℕ) → n < 10 ^ suc room → ltb n 10 ≡ false → 0 < room
room_left zero n h k = absurd (ground arith)
room_left (suc room) n h k = omega arith

value-digits :
    (room n : ℕ) (s : Text) → 0 < room → n < 10 ^ room → value 0 (digits room n s) ≡ value n s
unfolding value digits
value-digits zero n s h k = absurd (omega arith)
value-digits (suc room) n s h k = elim (Bool-cases (ltb n 10)) [
  | inl small ↦ rw small (ap (λ m. value m s) (omega arith))
  | inr large ↦ rw large (
      value-digits room (n / 10) ((b'0' + n % 10) ∷ s) (room_left room n k large) (below room n k)
      ∙ ap (λ m. value m s) (omega arith))
]

value-itoa : (n : ℕ) → n < 10 ^ 20 → value 0 (itoa (pos n)) ≡ n
unfolding itoa value
value-itoa n h = value-digits 20 n [] (omega arith) h

after_prefix : (s t u : Text) → s ++ t ≡ s ++ u → t ≡ u
after_prefix [] t u e = e
after_prefix (x ∷ xs) t u e = after_prefix xs t u (cc)

tail_eq : {x y : ℕ} {xs ys : Text} → x ∷ xs ≡ y ∷ ys → xs ≡ ys
tail_eq e = cc

length-addrs_from : (host : Text) (start : ℤ) (i n : ℕ) → length (addrs_from host start i n) ≡ n
unfolding addrs_from
length-addrs_from host start i zero = refl
length-addrs_from host start i (suc n) = ap suc (length-addrs_from host start (suc i) n)

get_or-addrs_from :
    (host : Text) (start : ℤ) (i n k : ℕ)
    → k < n
    → get_or (addrs_from host start i n) k [] ≡ join_host_port host (itoa (port_at start (i + k)))
unfolding addrs_from
get_or-addrs_from host start i zero k h = absurd (omega arith)
get_or-addrs_from host start i (suc n) zero h =
    ap (λ j. join_host_port host (itoa (port_at start j))) (omega arith)
get_or-addrs_from host start i (suc n) (suc k) h =
    get_or-addrs_from host start (suc i) n k (omega arith)
    ∙ ap (λ j. join_host_port host (itoa (port_at start j))) (omega arith)

same_port :
    (host : Text) (p q : ℕ)
    → p < 10 ^ 20
    → q < 10 ^ 20
    → join_host_port host (itoa (pos p)) ≡ join_host_port host (itoa (pos q))
    → p ≡ q
unfolding join_host_port
same_port host p q h k e =
    sym (value-itoa p h)
    ∙ ap (value 0) (tail_eq (after_prefix _ (b':' ∷ itoa (pos p)) (b':' ∷ itoa (pos q)) e))
    ∙ value-itoa q k

several :
    (b : Bool) (z : ℤ) (n : ℕ) → b ≡ true → z ≡ pos n → 1 < n → (not b || (many z == 0)) ≡ false
several b z n h e k = ground arith

many_is : (z : ℤ) (n : ℕ) → z ≡ pos n → 1 < n → many z ≡ n
many_is z n e h = ground arith

listen_addrs_many :
    (c : Config) (workers start : ℕ)
    → c.concurrency.enable ≡ true
    → c.concurrency.workers ≡ pos workers
    → 1 < workers
    → start_port c ≡ pos start
    → listen_addrs c ≡ addrs_from (listen_host c) (pos start) 0 workers
unfolding listen_addrs
listen_addrs_many c workers start en w h s =
    sym (if_false _ _ _ (several c.concurrency.enable c.concurrency.workers workers en w h))
    ∙ ap₂ (λ p n. addrs_from (listen_host c) p 0 n) s (many_is c.concurrency.workers workers w h)

port_at_small : (s i : ℕ) → s + i < 9223372036854775808 → port_at (pos s) i ≡ pos (s + i)
unfolding port_at int64
port_at_small s i h = ground arith

zero_port : (s i : ℕ) → port_at (pos s) (0 + i) ≡ port_at (pos s) i
zero_port s i = ap (port_at (pos s)) (omega arith)

addrs_differ :
    (host : Text) (start n i j : ℕ)
    → i < j
    → j < n
    → start + n ≤ 9223372036854775808
    → get_or (addrs_from host (pos start) 0 n) i [] ≢ get_or (addrs_from host (pos start) 0 n) j []
addrs_differ host start n i j h k b e =
    let same = same_port host (start + i) (start + j) (omega arith) (omega arith) (
      ap (λ p. join_host_port host (itoa p)) (sym (port_at_small start i (omega arith)))
      ∙ sym (
          get_or-addrs_from host (pos start) 0 n i (omega arith)
          ∙ ap (λ p. join_host_port host (itoa p)) (zero_port start i))
      ∙ e
      ∙ get_or-addrs_from host (pos start) 0 n j k
      ∙ ap (λ p. join_host_port host (itoa p))
          (zero_port start j ∙ port_at_small start j (omega arith))) in
    absurd (omega (arith, same))

-- With several workers, there is one address for each, and no two are the same, if the first port
-- is not negative and the last one is an int.
pub listen_addrs_distinct :
    (c : Config) (workers start : ℕ)
    → c.concurrency.enable ≡ true
    → c.concurrency.workers ≡ pos workers
    → 1 < workers
    → start_port c ≡ pos start
    → start + workers ≤ 9223372036854775808
    → (length (listen_addrs c) ≡ workers)
      × ((i j : ℕ)
          → i < j
          → j < workers
          → get_or (listen_addrs c) i [] ≢ get_or (listen_addrs c) j [])
listen_addrs_distinct c workers start en w h s b = (
  ap length (listen_addrs_many c workers start en w h s)
      ∙ length-addrs_from (listen_host c) (pos start) 0 workers,
  λ i j l m e. addrs_differ (listen_host c) start workers i j l m b (
      sym (ap (λ as_. get_or as_ i []) (listen_addrs_many c workers start en w h s))
      ∙ e
      ∙ ap (λ as_. get_or as_ j []) (listen_addrs_many c workers start en w h s)),
)
