-- ===== src/Rules/Number.antt =====
-- internal/rules/parser.go and types.go: atoi and itoa; socks5/server.go: atoiOrZero.
pub mod Laws
use ssh_worker.Prelude.{
  ℕ, zero, suc, ◌+◌, ◌-◌, ◌*◌, ◌/◌, ◌%◌, ltb, leb, ◌==◌, if◌then◌else◌, Bool, true, false, ◌&&◌,
  ◌||◌, Option, none, some, List, [], ◌∷◌, Text,
}
use ssh_worker.Prelude.Int.{ℤ, pos, negsuc}
use mathlib.Core.Option

-- The int that 64 bits stand for.
unfoldable pub int64 : ℕ → ℤ
int64 n = if ltb n 9223372036854775808 then pos n else negsuc (18446744073709551615 - n)

-- The loop over the digits, modulo 2^64; `none` is the return on another character.
unfoldable pub digits_value : ℕ → Text → Option ℕ
digits_value n [] = some n
digits_value n (c ∷ cs) =
    let rest = digits_value ((n * 10 + (c - b'0')) % 18446744073709551616) cs in
    if ltb c b'0' || ltb b'9' c then none else rest

unfoldable pub atoi : Text → ℤ
atoi s = elim (digits_value 0 s) [ none ↦ negsuc 0 | some n ↦ int64 n ]

unfoldable pub atoi_or_zero : Text → ℤ
atoi_or_zero s = elim (digits_value 0 s) [ none ↦ pos 0 | some n ↦ int64 n ]

-- The loop of itoa that fills the buffer from its end, with `room` bytes left in it; `none` is the
-- panic at an index below 0.
unfoldable pub fill : ℕ → ℕ → Text → Option (ℕ × Text)
fill zero zero s = some (0, s)
fill zero (suc n) s = none
fill (suc room) n s =
    let rest = fill room (n / 10) ((b'0' + n % 10) ∷ s) in
    if n == 0 then some (suc room, s) else rest

-- `b[i] = '-'` after `i--`.
unfoldable pub put_sign : ℕ × Text → Option Text
put_sign (zero, s) = none
put_sign (suc room, s) = some (b'-' ∷ s)

abbrev buffer_size : ℕ
buffer_size = 12

-- `-n` of the least int64 is itself, and the loop does not run on it.
abbrev magnitude : ℕ → ℕ
magnitude m = if m == 9223372036854775807 then 0 else suc m

unfoldable pub itoa : ℤ → Option Text
itoa (pos zero) = some (b'0' ∷ [])
itoa (pos (suc n)) = Option.map (λ r. r.1) (fill buffer_size (suc n) [])
itoa (negsuc m) = Option.bind (fill buffer_size (magnitude m) []) put_sign
