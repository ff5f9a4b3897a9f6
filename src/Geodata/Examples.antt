-- ===== src/Geodata/Examples.antt =====
-- The decoder of geosite.dat: an example of each law.
use ssh_worker.Prelude.{
  ℕ, suc, Option, none, some, [], ◌∷◌, reverse, Text, bytes, take, ◌≡◌, ◌≢◌, refl, All, arith,
}
use ssh_worker.Geodata.{DomainType, Sites}
use ssh_worker.Geodata.Decode.{Wire, done, out_of_fuel, decode_geo_site_list, type_of}
use ssh_worker.Geodata.Decode.Laws.{TagsAdvance, decode_geo_site_list_ends}
use ssh_worker.Geodata.Decode.Encode.{
  IsSite, encode_list, type_code, encode_attr, encode_attrs, encode_domain, encode_domains,
  encode_site,
}
use ssh_worker.Samples.Varint.{put_varint, varints, varint_writer}
use ssh_worker.Geodata.Decode.Encode.Entries.{decode-encode_list}
use ssh_worker.Samples.{literal, prefixes}
use ssh_worker.Geodata.Loader.{content}
use ssh_worker.Rules.Builder.{Loading, loaded, build}
use ssh_worker.Rules.Builder.Laws.{rules_for}
use ssh_worker.Rules.Builder.Files.{load, build-load_lem}

-- A format of the same shape: a tag is its two numbers, and a text stands behind its length.
abbrev plain_tag : Text → Option ((ℕ × ℕ) × ℕ)
plain_tag (num ∷ typ ∷ b) = some ((num, typ), 2)
plain_tag _ = none

abbrev plain_text : Text → Option (Text × ℕ)
plain_text [] = none
plain_text (n ∷ b) = some (take n b, suc n)

abbrev plain_number : Text → Option (ℕ × ℕ)
plain_number [] = none
plain_number (n ∷ b) = some (n, 1)

abbrev plain_wire : Wire
plain_wire = record {
  consume_tag = plain_tag;
  consume_field = λ num typ b. some 1;
  consume_bytes = plain_text;
  consume_string = plain_text;
  consume_varint = plain_number;
}

plain_advances : TagsAdvance plain_wire
plain_advances [] tag n e = cc
plain_advances (c ∷ []) tag n e = cc
plain_advances (c ∷ d ∷ b) tag n e = ground arith

decode_geo_site_list_ends_example :
    decode_geo_site_list plain_wire (1 ∷ 2 ∷ 9 ∷ 7 ∷ []) ≢ out_of_fuel
decode_geo_site_list_ends_example =
    decode_geo_site_list_ends plain_wire plain_advances (1 ∷ 2 ∷ 9 ∷ 7 ∷ [])

abbrev sites : Sites
sites =
    (
      bytes "ads",
      record { kind = DomainType.keyword; value = bytes "ads"; attrs = bytes "x" ∷ [] } ∷ [],
    )
    ∷ (bytes "cn", [])
    ∷ []

filled : (c : ℕ) (cs : Text) → (c ∷ cs) ≢ []
filled c cs e = cc

sites-IsSite : All (IsSite varint_writer) sites
unfolding type_of type_code put_varint encode_attr encode_domain encode_attrs encode_site
    encode_domains
sites-IsSite = (
  (
    filled _ _,
    omega arith,
    (
      record {
        kind = refl;
        code = omega arith;
        value = omega arith;
        attrs = ((filled _ _, omega arith, omega arith), tt);
        whole = omega arith;
      },
      tt,
    ),
    omega arith,
  ),
  ((filled _ _, omega arith, tt, omega arith), tt),
)

decode-encode_list_example :
    decode_geo_site_list varints (encode_list varint_writer sites) ≡ done (reverse sites)
decode-encode_list_example = decode-encode_list varint_writer sites sites-IsSite

-- From the file to the rules.
build-load_example :
    (l : Loading) × (load varints (bytes "geosite.dat") (content (encode_list varint_writer sites))
      ≡ some l)
    × (build literal prefixes l (some (bytes "GEOSITE,ads,REJECT" ∷ []))
        ≡ rules_for literal prefixes (loaded (reverse sites)) (bytes "GEOSITE,ads,REJECT" ∷ []))
build-load_example =
    build-load_lem literal prefixes varint_writer (bytes "geosite.dat") sites
      (bytes "GEOSITE,ads,REJECT" ∷ []) refl sites-IsSite
