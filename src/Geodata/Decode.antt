-- ===== src/Geodata/Decode.antt =====
-- internal/geodata/decode.go: the decoder of geosite.dat. The loops run on fuel; `out_of_fuel` is no
-- result of the code.
pub mod Laws
pub mod Encode
use ssh_worker.Prelude.{
  ℕ, zero, suc, ◌+◌, ◌-◌, ◌==◌, if◌then◌else◌, Bool, true, false, ◌&&◌, Option, none, some, List,
  [], ◌∷◌, ◌++◌, Text, bytes, is_empty, length, drop,
}
use ssh_worker.Geodata.{DomainType, Domain, Sites}

-- Package protowire: what is read at the start of some bytes and how many of them it takes; `none`
-- is a negative count.
pub record Wire : Type 0 where
  pub consume_tag : Text → Option ((ℕ × ℕ) × ℕ)
  pub consume_field : ℕ → ℕ → Text → Option ℕ
  pub consume_bytes : Text → Option (Text × ℕ)
  pub consume_string : Text → Option (Text × ℕ)
  pub consume_varint : Text → Option (ℕ × ℕ)

-- protowire.VarintType and protowire.BytesType.
abbrev pub varint_type : ℕ
varint_type = 0

abbrev pub bytes_type : ℕ
bytes_type = 2

pub data Decoded (A : Type 0) : Type 0 where
  done : A → Decoded A
  malformed : Text → Decoded A
  out_of_fuel : Decoded A

-- The constants of DomainType.
unfoldable pub type_of : ℕ → DomainType
type_of zero = DomainType.domain
type_of (suc zero) = DomainType.full
type_of (suc (suc zero)) = DomainType.regex
type_of (suc (suc (suc zero))) = DomainType.keyword
type_of (suc (suc (suc (suc n)))) = DomainType.unknown (suc (suc (suc (suc n))))

abbrev pub no_domain : Domain
no_domain = record { kind = DomainType.domain; value = []; attrs = [] }

-- A value is read and the bytes behind it are left, or the loop is left with an error.
unfoldable pub after_value :
    {A B : Type 0} → Option (A × ℕ) → Text → Text → (A → Text → Decoded B) → Decoded B
after_value none msg b k = malformed msg
after_value (some (v, n)) msg b k = k v (drop n b)

unfoldable pub after_field : {B : Type 0} → Option ℕ → Text → Text → (Text → Decoded B) → Decoded B
after_field none msg b k = malformed msg
after_field (some n) msg b k = k (drop n b)

unfoldable pub is_field : ℕ × ℕ → ℕ → ℕ → Bool
is_field (num, typ) n t = num == n && typ == t

unfoldable pub add_attr : Text → Domain → Domain
add_attr [] d = d
add_attr (c ∷ cs) d = record d { attrs = d.attrs ++ (c ∷ cs) ∷ [] }

-- decodeAttrKey returns the empty text on every error.
unfoldable pub key_or_empty : Decoded Text → Decoded Text
key_or_empty (done k) = done k
key_or_empty (malformed msg) = done []
key_or_empty out_of_fuel = out_of_fuel

unfoldable pub with_attr : Decoded Text → Domain → (Domain → Decoded Domain) → Decoded Domain
unfolding add_attr
with_attr (done key) d k = k (add_attr key d)
with_attr (malformed msg) d k = malformed msg
with_attr out_of_fuel d k = out_of_fuel

unfoldable pub and_then : {A B : Type 0} → Decoded A → (A → Decoded B) → Decoded B
and_then (done a) k = k a
and_then (malformed msg) k = malformed msg
and_then out_of_fuel k = out_of_fuel

-- `out[cc] = domains`: the newest entry of a category stands first.
unfoldable pub put_site : Text × List Domain → Sites → Sites
put_site ([], ds) out = out
put_site (c ∷ cs, ds) out = (c ∷ cs, ds) ∷ out

module _ (w : Wire) where
  -- The body of the loop of decodeAttrKey behind the tag; `rest` is the loop.
  unfoldable pub attr_field : (Text → Decoded Text) → ℕ × ℕ → Text → Decoded Text
  unfolding after_value after_field is_field
  attr_field rest tag b =
      if is_field tag 1 bytes_type
      then after_value (w.consume_string b) [] b (λ v b'. done v)
      else after_field (w.consume_field tag.0 tag.1 b) [] b rest

  unfoldable pub attr_loop : ℕ → Text → Decoded Text
  unfolding attr_field
  attr_loop fuel [] = done []
  attr_loop zero (c ∷ cs) = out_of_fuel
  attr_loop (suc fuel) (c ∷ cs) =
      after_value (w.consume_tag (c ∷ cs)) [] (c ∷ cs) (attr_field (attr_loop fuel))

  unfoldable pub decode_attr_key : Text → Decoded Text
  unfolding attr_loop key_or_empty
  decode_attr_key b = key_or_empty (attr_loop (length b) b)

  -- The switch of decodeDomain.
  unfoldable pub domain_field :
      (Text → Domain → Decoded Domain) → Domain → ℕ × ℕ → Text → Decoded Domain
  unfolding after_value after_field is_field with_attr type_of
  domain_field rest d tag b =
      if is_field tag 1 varint_type
      then after_value (w.consume_varint b) (bytes "geodata: bad domain type") b
          (λ v b'. rest b' (record d { kind = type_of v }))
      else if is_field tag 2 bytes_type
      then after_value (w.consume_string b) (bytes "geodata: bad domain value") b
          (λ v b'. rest b' (record d { value = v }))
      else if is_field tag 3 bytes_type
      then after_value (w.consume_bytes b) (bytes "geodata: bad attr") b
          (λ v b'. with_attr (decode_attr_key v) d (rest b'))
      else after_field (w.consume_field tag.0 tag.1 b) (bytes "geodata: unknown domain field") b
          (λ b'. rest b' d)

  unfoldable pub domain_loop : ℕ → Text → Domain → Decoded Domain
  unfolding domain_field
  domain_loop fuel [] d = done d
  domain_loop zero (c ∷ cs) d = out_of_fuel
  domain_loop (suc fuel) (c ∷ cs) d =
      after_value (w.consume_tag (c ∷ cs)) (bytes "geodata: malformed domain tag") (c ∷ cs)
        (domain_field (domain_loop fuel) d)

  unfoldable pub decode_domain : Text → Decoded Domain
  unfolding domain_loop
  decode_domain b = domain_loop (length b) b no_domain

  -- The switch of decodeGeoSite; the state is the country code and the domains.
  unfoldable pub site_field :
      (Text → Text × List Domain → Decoded (Text × List Domain))
      → Text × List Domain
      → ℕ × ℕ
      → Text
      → Decoded (Text × List Domain)
  unfolding after_value after_field is_field and_then
  site_field rest s tag b =
      if is_field tag 1 bytes_type
      then after_value (w.consume_string b) (bytes "geodata: bad country_code") b
          (λ v b'. rest b' (v, s.1))
      else if is_field tag 2 bytes_type
      then after_value (w.consume_bytes b) (bytes "geodata: bad domain") b
          (λ v b'. and_then (decode_domain v) (λ d. rest b' (s.0, s.1 ++ d ∷ [])))
      else after_field (w.consume_field tag.0 tag.1 b) (bytes "geodata: unknown field") b
          (λ b'. rest b' s)

  unfoldable pub site_loop : ℕ → Text → Text × List Domain → Decoded (Text × List Domain)
  unfolding site_field
  site_loop fuel [] s = done s
  site_loop zero (c ∷ cs) s = out_of_fuel
  site_loop (suc fuel) (c ∷ cs) s =
      after_value (w.consume_tag (c ∷ cs)) (bytes "geodata: malformed geosite tag") (c ∷ cs)
        (site_field (site_loop fuel) s)

  unfoldable pub decode_geo_site : Text → Decoded (Text × List Domain)
  unfolding site_loop
  decode_geo_site b = site_loop (length b) b ([], [])

  -- The body of the loop of decodeGeoSiteList behind the tag.
  unfoldable pub list_field : (Text → Sites → Decoded Sites) → Sites → ℕ × ℕ → Text → Decoded Sites
  unfolding after_value after_field is_field and_then put_site
  list_field rest out tag b =
      if is_field tag 1 bytes_type
      then after_value (w.consume_bytes b) (bytes "geodata: malformed entry") b
          (λ v b'. and_then (decode_geo_site v) (λ s. rest b' (put_site s out)))
      else after_field (w.consume_field tag.0 tag.1 b) (bytes "geodata: malformed field") b
          (λ b'. rest b' out)

  unfoldable pub list_loop : ℕ → Text → Sites → Decoded Sites
  unfolding list_field
  list_loop fuel [] out = done out
  list_loop zero (c ∷ cs) out = out_of_fuel
  list_loop (suc fuel) (c ∷ cs) out =
      after_value (w.consume_tag (c ∷ cs)) (bytes "geodata: malformed tag") (c ∷ cs)
        (list_field (list_loop fuel) out)

  unfoldable pub decode_geo_site_list : Text → Decoded Sites
  unfolding list_loop
  decode_geo_site_list data_ = list_loop (length data_) data_ []
