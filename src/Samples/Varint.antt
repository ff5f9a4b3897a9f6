-- ===== src/Samples/Varint.antt =====
-- An instance of package protowire, with the varints of protocol buffers, for the examples.
use ssh_worker.Prelude.{
  ℕ, zero, suc, ◌+◌, ◌-◌, ◌*◌, ◌/◌, ◌%◌, ◌==◌, ltb, leb, if◌then◌else◌, ◌||◌, ◌&&◌, if_true,
  if_false, false, Option, none, some, [], ◌∷◌, ◌++◌, Text, length, take, drop, ◌<◌, ◌≡◌, refl, sym,
  ap, ◌∙◌, arith, Bool-cases, inl, inr, length-append, append_assoc,
}
use ssh_worker.Geodata.Decode.{Wire}
use ssh_worker.Geodata.Decode.Encode.{Writer, IsTag, FitsInt, drop-append}

-- Seven bits in a byte, the lowest first, and a high bit where more follow; `left` bytes may follow.
unfoldable pub put_varint : ℕ → ℕ → Text
put_varint zero n = n ∷ []
put_varint (suc left) n =
    let rest = put_varint left (n / 128) in if ltb n 128 then n ∷ [] else (n % 128 + 128) ∷ rest

abbrev pub more : ℕ → Option (ℕ × ℕ) → Option (ℕ × ℕ)
more b none = none
more b (some (v, n)) = some (b - 128 + 128 * v, suc n)

-- The last byte has one bit.
unfoldable pub consume_varint : ℕ → Text → Option (ℕ × ℕ)
consume_varint left [] = none
consume_varint zero (b ∷ bs) = if ltb b 2 then some (b, 1) else none
consume_varint (suc left) (b ∷ bs) =
    let rest = consume_varint left bs in if ltb b 128 then some (b, 1) else more b rest

-- One more than the greatest number that fits.
abbrev pub room : ℕ → ℕ
room zero = 2
room (suc left) = 128 * room left

high : (n : ℕ) → ltb (n % 128 + 128) 128 ≡ false
high n = ground arith

abbrev pub read : ℕ → ℕ → Option (ℕ × ℕ)
read k v = some (v, k)

joined : (n k : ℕ) → read (suc k) ((n % 128 + 128) - 128 + 128 * (n / 128)) ≡ read (suc k) n
joined n k = ap (read (suc k)) (omega arith)

varint_reads :
    (left n : ℕ) (rest : Text)
    → n < room left
    → consume_varint left (put_varint left n ++ rest) ≡ some (n, length (put_varint left n))
unfolding put_varint consume_varint
varint_reads zero n rest h = ground (arith, h)
varint_reads (suc left) n rest h = elim (Bool-cases (ltb n 128)) [
  | inl b ↦ rw b (sym (if_true (read 1 n) (more n (consume_varint left rest)) (ltb n 128) b))
  | inr b ↦ rw b (
      sym (
        if_false (read 1 (n % 128 + 128))
          (more (n % 128 + 128) (consume_varint left (put_varint left (n / 128) ++ rest)))
          (ltb (n % 128 + 128) 128) (high n))
      ∙ ap (more (n % 128 + 128)) (varint_reads left (n / 128) rest (omega (arith, h)))
      ∙ joined n (length (put_varint left (n / 128))))
]

-- Ten bytes at most.
abbrev pub consume_uint64 : Text → Option (ℕ × ℕ)
consume_uint64 = consume_varint 9

abbrev pub tag_from : Option (ℕ × ℕ) → Option ((ℕ × ℕ) × ℕ)
tag_from none = none
tag_from (some (v, n)) =
    if v / 8 == 0 || ltb 2147483647 (v / 8) then none else some ((v / 8, v % 8), n)

abbrev pub bytes_from : Text → Option (ℕ × ℕ) → Option (Text × ℕ)
bytes_from b none = none
bytes_from b (some (m, n)) =
    if leb (n + m) (length b) then some (take m (drop n b), n + m) else none

abbrev pub counted : Option (Text × ℕ) → Option ℕ
counted none = none
counted (some (v, n)) = some n

abbrev pub counted_varint : Option (ℕ × ℕ) → Option ℕ
counted_varint none = none
counted_varint (some (v, n)) = some n

-- Groups are not read.
abbrev pub field_length : ℕ → Text → Option ℕ
field_length typ b =
    if typ == 0
    then counted_varint (consume_uint64 b)
    else if typ == 1
    then (if leb 8 (length b) then some 8 else none)
    else if typ == 2
    then counted (bytes_from b (consume_uint64 b))
    else if typ == 5 && leb 4 (length b)
    then some 4
    else none

abbrev pub varints : Wire
varints = record {
  consume_tag = λ b. tag_from (consume_uint64 b);
  consume_field = λ num typ b. field_length typ b;
  consume_bytes = λ b. bytes_from b (consume_uint64 b);
  consume_string = λ b. bytes_from b (consume_uint64 b);
  consume_varint = consume_uint64;
}

abbrev pub put_bytes : Text → Text
put_bytes v = put_varint 9 (length v) ++ v

pub put_varint-length : (left n : ℕ) → 0 < length (put_varint left n)
unfolding put_varint
put_varint-length zero n = omega arith
put_varint-length (suc left) n = ground arith

pub uint64_reads :
    (n : ℕ) (rest : Text)
    → n < 18446744073709551616
    → consume_uint64 (put_varint 9 n ++ rest) ≡ some (n, length (put_varint 9 n))
uint64_reads n rest h = varint_reads 9 n rest h

abbrev pub tag : ℕ → ℕ → ℕ → Option ((ℕ × ℕ) × ℕ)
tag num typ k = some ((num, typ), k)

tag_of :
    (num typ q r k : ℕ)
    → IsTag num typ
    → q ≡ num
    → r ≡ typ
    → (if q == 0 || ltb 2147483647 q then none else tag q r k) ≡ tag num typ k
tag_of num typ q r k t n y =
    sym (if_false none (tag q r k) (q == 0 || ltb 2147483647 q) (ground (arith, n, t.0, t.1)))
    ∙ ap (λ q'. tag q' r k) n
    ∙ ap (λ r'. tag num r' k) y

pub tag_from-put :
    (num typ k : ℕ) → IsTag num typ → tag_from (read k (num * 8 + typ)) ≡ tag num typ k
tag_from-put num typ k t =
    tag_of num typ ((num * 8 + typ) / 8) ((num * 8 + typ) % 8) k t (omega (arith, t.2))
      (omega (arith, t.2))

take-append : (xs ys : Text) → take (length xs) (xs ++ ys) ≡ xs
take-append [] ys = refl
take-append (x ∷ xs) ys = ap (λ l. x ∷ l) (take-append xs ys)

abbrev pub slice : ℕ → Text → Option (Text × ℕ)
slice k v = some (v, k)

bytes_at :
    (head v rest : Text)
    → bytes_from (head ++ (v ++ rest)) (read (length head) (length v))
      ≡ slice (length head + length v) v
bytes_at head v rest =
    sym (
      if_true
        (slice (length head + length v)
          (take (length v) (drop (length head) (head ++ (v ++ rest)))))
        none (leb (length head + length v) (length (head ++ (v ++ rest))))
        (ground (arith, length-append {0} head (v ++ rest), length-append {0} v rest)))
    ∙ ap (λ t. slice (length head + length v) (take (length v) t)) (drop-append head (v ++ rest))
    ∙ ap (slice (length head + length v)) (take-append v rest)

pub bytes_reads :
    (v rest : Text)
    → FitsInt v
    → bytes_from (put_bytes v ++ rest) (consume_uint64 (put_bytes v ++ rest))
      ≡ slice (length (put_bytes v)) v
bytes_reads v rest f =
    let head = put_varint 9 (length v) in
    ap (λ t. bytes_from t (consume_uint64 t)) (append_assoc head v rest)
    ∙ ap (bytes_from (head ++ (v ++ rest))) (uint64_reads (length v) (v ++ rest) (omega (arith, f)))
    ∙ bytes_at head v rest
    ∙ ap (λ k. slice k v) (sym (length-append {0} head v))

abbrev pub varint_writer : Writer varints
varint_writer = record {
  put_tag = λ num typ. put_varint 9 (num * 8 + typ);
  put_bytes = put_bytes;
  put_varint = put_varint 9;
  tag_length = λ num typ. put_varint-length 9 (num * 8 + typ);
  reads_tag = λ num typ rest t.
      ap tag_from (uint64_reads (num * 8 + typ) rest (omega (arith, t.1, t.2)))
      ∙ tag_from-put num typ _ t;
  reads_bytes = bytes_reads;
  reads_string = bytes_reads;
  reads_varint = uint64_reads;
}
