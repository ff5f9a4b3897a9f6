-- ===== src/Geodata/Decode/Encode/Domains.antt =====
-- internal/geodata/decode.go, decodeDomain and decodeAttrKey: a domain that was written is read back.
use ssh_worker.Prelude.{
  bytes, ℕ, zero, suc, ◌+◌, ◌≤◌, ◌<◌, List, [], ◌∷◌, ◌++◌, append_assoc, append-nil, Text, length,
  ◌≡◌, refl, sym, ap, ◌∙◌, arith, All,
}
use ssh_worker.Geodata.{Domain}
use ssh_worker.Geodata.Decode.{
  Wire, varint_type, bytes_type, done, type_of, no_domain, after_value, is_field, attr_field,
  attr_loop, key_or_empty, decode_attr_key, with_attr, domain_field, domain_loop, decode_domain,
}
use ssh_worker.Geodata.Decode.Encode.{
  Writer, IsTag, FitsInt, type_code, IsAttr, IsEncodable, after_value-some, add_attr_filled, longer,
  encode_attr, encode_attrs, encode_domain, field_length,
}

module _ {w : Wire} (wr : Writer w) where
  open wr use {put_tag, put_bytes, put_varint}

  attr_step :
      (fuel : ℕ) (b : Text)
      → 0 < length b
      → attr_loop w (suc fuel) b
        ≡ after_value (w.consume_tag b) [] b (attr_field w (attr_loop w fuel))
  unfolding attr_loop
  attr_step fuel [] h = absurd (omega arith)
  attr_step fuel (c ∷ cs) h = refl

  attr_length : (key : Text) → 0 < length (encode_attr wr key)
  unfolding encode_attr
  attr_length key = longer (put_tag 1 bytes_type) (put_bytes key ++ []) (wr.tag_length 1 bytes_type)

  -- A loop at a tag that was written goes on with the field behind it.
  attr_at :
      (fuel num typ : ℕ) (rest : Text)
      → IsTag num typ
      → attr_loop w (suc fuel) (put_tag num typ ++ rest)
        ≡ attr_field w (attr_loop w fuel) (num, typ) rest
  attr_at fuel num typ rest t =
      attr_step fuel (put_tag num typ ++ rest)
        (longer (put_tag num typ) rest (wr.tag_length num typ))
      ∙ after_value-some _ (num, typ) [] (put_tag num typ) rest _ (wr.reads_tag num typ rest t)

  attr_loop_reads :
      (fuel : ℕ) (key : Text)
      → 0 < fuel
      → FitsInt key
      → attr_loop w fuel (encode_attr wr key) ≡ done key
  unfolding encode_attr attr_field is_field
  attr_loop_reads zero key h f = absurd (omega arith)
  attr_loop_reads (suc fuel) key h f =
      attr_at fuel 1 bytes_type (put_bytes key ++ []) (omega arith, omega arith, omega arith)
      ∙ after_value-some _ key [] (put_bytes key) [] _ (wr.reads_string key [] f)

  attr_reads : (key : Text) → FitsInt key → decode_attr_key w (encode_attr wr key) ≡ done key
  unfolding decode_attr_key key_or_empty
  attr_reads key f =
      ap key_or_empty (attr_loop_reads (length (encode_attr wr key)) key (attr_length key) f)

  domain_step :
      (fuel : ℕ) (b : Text) (d : Domain)
      → 0 < length b
      → domain_loop w (suc fuel) b d
        ≡ after_value
            (w.consume_tag b)
            (bytes "geodata: malformed domain tag")
            b
            (domain_field w (domain_loop w fuel) d)
  unfolding domain_loop
  domain_step fuel [] d h = absurd (omega arith)
  domain_step fuel (c ∷ cs) d h = refl

  domain_at :
      (fuel num typ : ℕ) (rest : Text) (d : Domain)
      → IsTag num typ
      → domain_loop w (suc fuel) (put_tag num typ ++ rest) d
        ≡ domain_field w (domain_loop w fuel) d (num, typ) rest
  domain_at fuel num typ rest d t =
      domain_step fuel (put_tag num typ ++ rest) d
        (longer (put_tag num typ) rest (wr.tag_length num typ))
      ∙ after_value-some _ (num, typ) _ (put_tag num typ) rest _ (wr.reads_tag num typ rest t)

  attrs_read :
      (fuel : ℕ) (ks : List Text) (d : Domain)
      → length ks ≤ fuel
      → All (IsAttr wr) ks
      → domain_loop w fuel (encode_attrs wr ks) d ≡ done (record d { attrs = d.attrs ++ ks })
  unfolding encode_attrs domain_loop domain_field is_field with_attr
  attrs_read fuel [] d h a = ap (λ as_. done (record d { attrs = as_ })) (sym (append-nil d.attrs))
  attrs_read zero (k ∷ ks) d h a = absurd (omega arith)
  attrs_read (suc fuel) (k ∷ ks) d h a =
      domain_at fuel 3 bytes_type (put_bytes (encode_attr wr k) ++ encode_attrs wr ks) d
        (omega arith, omega arith, omega arith)
      ∙ after_value-some _ (encode_attr wr k) _ (put_bytes (encode_attr wr k)) (encode_attrs wr ks)
          _ (wr.reads_bytes (encode_attr wr k) (encode_attrs wr ks) a.0.2)
      ∙ ap (λ r. with_attr r d (domain_loop w fuel (encode_attrs wr ks))) (attr_reads k a.0.1)
      ∙ ap (domain_loop w fuel (encode_attrs wr ks)) (add_attr_filled k d a.0.0)
      ∙ attrs_read fuel ks (record d { attrs = d.attrs ++ k ∷ [] }) (omega arith) a.1
      ∙ ap (λ as_. done (record d { attrs = as_ })) (append_assoc d.attrs (k ∷ []) ks)

  domain_loop_reads :
      (fuel : ℕ) (d : Domain)
      → length d.attrs + 2 ≤ fuel
      → IsEncodable wr d
      → domain_loop w fuel (encode_domain wr d) no_domain ≡ done d
  unfolding encode_domain domain_field is_field
  domain_loop_reads zero d h e = absurd (omega arith)
  domain_loop_reads (suc zero) d h e = absurd (omega arith)
  domain_loop_reads (suc (suc fuel)) d h e =
      let rest = put_bytes d.value ++ encode_attrs wr d.attrs in
      let n = type_code d.kind in
      domain_at (suc fuel) 1 varint_type (put_varint n ++ (put_tag 2 bytes_type ++ rest)) no_domain
        (omega arith, omega arith, omega arith)
      ∙ after_value-some _ n _ (put_varint n) (put_tag 2 bytes_type ++ rest) _
          (wr.reads_varint n (put_tag 2 bytes_type ++ rest) e.code)
      ∙ domain_at fuel 2 bytes_type rest (record no_domain { kind = type_of n })
          (omega arith, omega arith, omega arith)
      ∙ after_value-some _ d.value _ (put_bytes d.value) (encode_attrs wr d.attrs) _
          (wr.reads_string d.value (encode_attrs wr d.attrs) e.value)
      ∙ attrs_read fuel d.attrs (record { kind = type_of n; value = d.value; attrs = [] })
          (omega arith) e.attrs
      ∙ ap (λ k. done (record { kind = k; value = d.value; attrs = d.attrs })) e.kind

  attrs_length : (ks : List Text) → length ks ≤ length (encode_attrs wr ks)
  unfolding encode_attrs
  attrs_length [] = omega arith
  attrs_length (k ∷ ks) = omega (
    arith,
    attrs_length ks,
    field_length wr 3 bytes_type (put_bytes (encode_attr wr k)) (encode_attrs wr ks),
  )

  pub domain_reads : (d : Domain) → IsEncodable wr d → decode_domain w (encode_domain wr d) ≡ done d
  unfolding decode_domain encode_domain
  domain_reads d e =
      let rest = put_bytes d.value ++ encode_attrs wr d.attrs in
      domain_loop_reads (length (encode_domain wr d)) d
        (omega (
          arith,
          attrs_length d.attrs,
          field_length wr 2 bytes_type (put_bytes d.value) (encode_attrs wr d.attrs),
          field_length wr 1 varint_type (put_varint (type_code d.kind))
              (put_tag 2 bytes_type ++ rest),
        ))
        e
