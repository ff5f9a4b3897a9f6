-- ===== src/Geodata/Decode/Encode.antt =====
-- internal/geodata/decode.go: a writer of the format, the inverse of the decoder.
pub mod Domains
pub mod Entries
use ssh_worker.Prelude.{
  bytes, ℕ, zero, suc, ◌+◌, ◌-◌, ◌≤◌, ◌<◌, if◌then◌else◌, Bool, true, false, Option, none, some,
  List, [], ◌∷◌, ◌++◌, append_assoc, append-nil, reverse, Text, length, drop, length-append, ◌≡◌,
  ◌≢◌, refl, sym, ap, ◌∙◌, arith, All, subst,
}
use mathlib.Core.List.{reverse-cons}
use ssh_worker.Geodata.{DomainType, Domain, Sites}
use ssh_worker.Geodata.Decode.{
  Wire, varint_type, bytes_type, Decoded, done, malformed, out_of_fuel, type_of, no_domain,
  after_value, after_field, is_field, add_attr, attr_field, attr_loop, key_or_empty,
  decode_attr_key, with_attr, domain_field, domain_loop, decode_domain, and_then, site_field,
  site_loop, decode_geo_site, put_site, list_field, list_loop, decode_geo_site_list,
}

-- A number of a field and a type that the format has.
abbrev pub IsTag : ℕ → ℕ → Type 0
IsTag num typ = (0 < num) × (num < 536870912) × (typ < 6)

-- The length of a slice.
abbrev pub FitsInt : Text → Type 0
FitsInt t = length t < 9223372036854775808

-- The appending functions of package protowire, and that the consuming ones read what they append:
-- tags of the format, numbers of 64 bits, and slices.
pub record Writer (w : Wire) : Type 0 where
  pub put_tag : ℕ → ℕ → Text
  pub put_bytes : Text → Text
  pub put_varint : ℕ → Text
  pub tag_length : (num typ : ℕ) → 0 < length (put_tag num typ)
  pub reads_tag :
      (num typ : ℕ) (rest : Text)
      → IsTag num typ
      → w.consume_tag (put_tag num typ ++ rest) ≡ some ((num, typ), length (put_tag num typ))
  pub reads_bytes :
      (v rest : Text)
      → FitsInt v
      → w.consume_bytes (put_bytes v ++ rest) ≡ some (v, length (put_bytes v))
  pub reads_string :
      (v rest : Text)
      → FitsInt v
      → w.consume_string (put_bytes v ++ rest) ≡ some (v, length (put_bytes v))
  pub reads_varint :
      (n : ℕ) (rest : Text)
      → n < 18446744073709551616
      → w.consume_varint (put_varint n ++ rest) ≡ some (n, length (put_varint n))

unfoldable pub type_code : DomainType → ℕ
type_code DomainType.domain = 0
type_code DomainType.full = 1
type_code DomainType.regex = 2
type_code DomainType.keyword = 3
type_code (DomainType.unknown n) = n

pub drop-append : (xs ys : Text) → drop (length xs) (xs ++ ys) ≡ ys
drop-append [] ys = refl
drop-append (x ∷ xs) ys = drop-append xs ys

pub after_value-some :
    {A B : Type 0} (o : Option (A × ℕ)) (v : A) (msg xs ys : Text) (k : A → Text → Decoded B)
    → o ≡ some (v, length xs)
    → after_value o msg (xs ++ ys) k ≡ k v ys
unfolding after_value
after_value-some o v msg xs ys k e = rw e (ap (k v) (drop-append xs ys))

pub add_attr_filled :
    (key : Text) (d : Domain) → key ≢ [] → add_attr key d ≡ record d { attrs = d.attrs ++ key ∷ [] }
unfolding add_attr
add_attr_filled [] d h = absurd (h refl)
add_attr_filled (c ∷ cs) d h = refl

pub put_site_filled : (s : Text × List Domain) (out : Sites) → s.0 ≢ [] → put_site s out ≡ s ∷ out
unfolding put_site
put_site_filled ([], ds) out h = absurd (h refl)
put_site_filled (c ∷ cs, ds) out h = refl

pub longer : (xs ys : Text) → 0 < length xs → 0 < length (xs ++ ys)
longer xs ys h = omega (arith, length-append {0} xs ys)

module _ {w : Wire} (wr : Writer w) where
  open wr use {put_tag, put_bytes, put_varint}

  unfoldable pub encode_attr : Text → Text
  encode_attr key = put_tag 1 bytes_type ++ (put_bytes key ++ [])

  unfoldable pub encode_attrs : List Text → Text
  unfolding encode_attr
  encode_attrs [] = []
  encode_attrs (k ∷ ks) = put_tag 3 bytes_type ++ (put_bytes (encode_attr k) ++ encode_attrs ks)

  unfoldable pub encode_domain : Domain → Text
  unfolding encode_attrs type_code
  encode_domain d =
      put_tag 1 varint_type
      ++ (put_varint (type_code d.kind)
          ++ (put_tag 2 bytes_type ++ (put_bytes d.value ++ encode_attrs d.attrs)))

  unfoldable pub encode_domains : List Domain → Text
  unfolding encode_domain
  encode_domains [] = []
  encode_domains (d ∷ ds) =
      put_tag 2 bytes_type ++ (put_bytes (encode_domain d) ++ encode_domains ds)

  unfoldable pub encode_site : Text × List Domain → Text
  unfolding encode_domains
  encode_site (cc, ds) = put_tag 1 bytes_type ++ (put_bytes cc ++ encode_domains ds)

  unfoldable pub encode_list : Sites → Text
  unfolding encode_site
  encode_list [] = []
  encode_list (s ∷ ss) = put_tag 1 bytes_type ++ (put_bytes (encode_site s) ++ encode_list ss)

  -- Every field that is written takes a byte at least.
  pub field_length :
      (num typ : ℕ) (v rest : Text) → suc (length rest) ≤ length (put_tag num typ ++ (v ++ rest))
  field_length num typ v rest = omega (
    arith,
    wr.tag_length num typ,
    length-append {0} (put_tag num typ) (v ++ rest),
    length-append {0} v rest,
  )

  abbrev pub IsAttr : Text → Type 0
  IsAttr k = (k ≢ []) × FitsInt k × FitsInt (encode_attr k)

  -- A domain that the format can tell apart and that was written to slices: its type is a number of
  -- 64 bits and not a known one under another name, and no attribute is empty.
  pub record IsEncodable (d : Domain) : Type 0 where
    pub kind : type_of (type_code d.kind) ≡ d.kind
    pub code : type_code d.kind < 18446744073709551616
    pub value : FitsInt d.value
    pub attrs : All IsAttr d.attrs
    pub whole : FitsInt (encode_domain d)

  abbrev pub IsSite : Text × List Domain → Type 0
  IsSite s = (s.0 ≢ []) × FitsInt s.0 × All IsEncodable s.1 × FitsInt (encode_site s)
