-- ===== src/Geodata/Decode/Encode/Entries.antt =====
-- internal/geodata/decode.go, decodeGeoSite and decodeGeoSiteList: what was written is read back.
use ssh_worker.Prelude.{
  bytes, ℕ, zero, suc, ◌≤◌, ◌<◌, List, [], ◌∷◌, ◌++◌, append_assoc, append-nil, reverse, Text,
  length, ◌≡◌, refl, sym, ap, ◌∙◌, arith, All,
}
use mathlib.Core.List.{reverse-cons}
use ssh_worker.Geodata.{Domain, Sites}
use ssh_worker.Geodata.Decode.{
  Wire, bytes_type, done, after_value, is_field, and_then, site_field, site_loop, decode_geo_site,
  put_site, list_field, list_loop, decode_geo_site_list,
}
use ssh_worker.Geodata.Decode.Encode.{
  Writer, IsTag, FitsInt, IsEncodable, IsSite, after_value-some, put_site_filled, longer,
  encode_domain, encode_domains, encode_site, encode_list, field_length,
}
use ssh_worker.Geodata.Decode.Encode.Domains.{domain_reads}

module _ {w : Wire} (wr : Writer w) where
  open wr use {put_tag, put_bytes, put_varint}

  site_step :
      (fuel : ℕ) (b : Text) (s : Text × List Domain)
      → 0 < length b
      → site_loop w (suc fuel) b s
        ≡ after_value
            (w.consume_tag b)
            (bytes "geodata: malformed geosite tag")
            b
            (site_field w (site_loop w fuel) s)
  unfolding site_loop
  site_step fuel [] s h = absurd (omega arith)
  site_step fuel (c ∷ cs) s h = refl

  site_at :
      (fuel num typ : ℕ) (rest : Text) (s : Text × List Domain)
      → IsTag num typ
      → site_loop w (suc fuel) (put_tag num typ ++ rest) s
        ≡ site_field w (site_loop w fuel) s (num, typ) rest
  site_at fuel num typ rest s t =
      site_step fuel (put_tag num typ ++ rest) s
        (longer (put_tag num typ) rest (wr.tag_length num typ))
      ∙ after_value-some _ (num, typ) _ (put_tag num typ) rest _ (wr.reads_tag num typ rest t)

  domains_read :
      (fuel : ℕ) (ds : List Domain) (cc : Text) (acc : List Domain)
      → length ds ≤ fuel
      → All (IsEncodable wr) ds
      → site_loop w fuel (encode_domains wr ds) (cc, acc) ≡ done (cc, acc ++ ds)
  unfolding encode_domains site_loop site_field is_field and_then
  domains_read fuel [] cc acc h a = ap (λ ds. done (cc, ds)) (sym (append-nil acc))
  domains_read zero (d ∷ ds) cc acc h a = absurd (omega arith)
  domains_read (suc fuel) (d ∷ ds) cc acc h a =
      let rest = encode_domains wr ds in
      site_at fuel 2 bytes_type (put_bytes (encode_domain wr d) ++ rest) (cc, acc)
        (omega arith, omega arith, omega arith)
      ∙ after_value-some _ (encode_domain wr d) _ (put_bytes (encode_domain wr d)) rest _
          (wr.reads_bytes (encode_domain wr d) rest a.0.whole)
      ∙ ap (λ r. and_then r (λ d'. site_loop w fuel rest (cc, acc ++ d' ∷ [])))
          (domain_reads wr d a.0)
      ∙ domains_read fuel ds cc (acc ++ d ∷ []) (omega arith) a.1
      ∙ ap (λ l. done (cc, l)) (append_assoc acc (d ∷ []) ds)

  domains_length : (ds : List Domain) → length ds ≤ length (encode_domains wr ds)
  unfolding encode_domains
  domains_length [] = omega arith
  domains_length (d ∷ ds) = omega (
    arith,
    domains_length ds,
    field_length wr 2 bytes_type (put_bytes (encode_domain wr d)) (encode_domains wr ds),
  )

  site_loop_reads :
      (fuel : ℕ) (cc : Text) (ds : List Domain)
      → length ds < fuel
      → All (IsEncodable wr) ds
      → FitsInt cc
      → site_loop w fuel (encode_site wr (cc, ds)) ([], []) ≡ done (cc, ds)
  unfolding encode_site site_field is_field
  site_loop_reads zero cc ds h a f = absurd (omega arith)
  site_loop_reads (suc fuel) cc ds h a f =
      site_at fuel 1 bytes_type (put_bytes cc ++ encode_domains wr ds) ([], [])
        (omega arith, omega arith, omega arith)
      ∙ after_value-some _ cc _ (put_bytes cc) (encode_domains wr ds) _
          (wr.reads_string cc (encode_domains wr ds) f)
      ∙ domains_read fuel ds cc [] (omega arith) a

  site_reads :
      (cc : Text) (ds : List Domain)
      → All (IsEncodable wr) ds
      → FitsInt cc
      → decode_geo_site w (encode_site wr (cc, ds)) ≡ done (cc, ds)
  unfolding decode_geo_site encode_site
  site_reads cc ds a f =
      site_loop_reads (length (encode_site wr (cc, ds))) cc ds
        (omega (
          arith,
          domains_length ds,
          field_length wr 1 bytes_type (put_bytes cc) (encode_domains wr ds),
        ))
        a f

  list_step :
      (fuel : ℕ) (b : Text) (out : Sites)
      → 0 < length b
      → list_loop w (suc fuel) b out
        ≡ after_value
            (w.consume_tag b)
            (bytes "geodata: malformed tag")
            b
            (list_field w (list_loop w fuel) out)
  unfolding list_loop
  list_step fuel [] out h = absurd (omega arith)
  list_step fuel (c ∷ cs) out h = refl

  list_at :
      (fuel num typ : ℕ) (rest : Text) (out : Sites)
      → IsTag num typ
      → list_loop w (suc fuel) (put_tag num typ ++ rest) out
        ≡ list_field w (list_loop w fuel) out (num, typ) rest
  list_at fuel num typ rest out t =
      list_step fuel (put_tag num typ ++ rest) out
        (longer (put_tag num typ) rest (wr.tag_length num typ))
      ∙ after_value-some _ (num, typ) _ (put_tag num typ) rest _ (wr.reads_tag num typ rest t)

  list_loop_reads :
      (fuel : ℕ) (ss out : Sites)
      → length ss ≤ fuel
      → All (IsSite wr) ss
      → list_loop w fuel (encode_list wr ss) out ≡ done (reverse ss ++ out)
  unfolding encode_list list_loop list_field is_field and_then
  list_loop_reads fuel [] out h a = refl
  list_loop_reads zero (s ∷ ss) out h a = absurd (omega arith)
  list_loop_reads (suc fuel) (s ∷ ss) out h a =
      let rest = encode_list wr ss in
      list_at fuel 1 bytes_type (put_bytes (encode_site wr s) ++ rest) out
        (omega arith, omega arith, omega arith)
      ∙ after_value-some _ (encode_site wr s) _ (put_bytes (encode_site wr s)) rest _
          (wr.reads_bytes (encode_site wr s) rest a.0.3)
      ∙ ap (λ r. and_then r (λ s'. list_loop w fuel rest (put_site s' out)))
          (site_reads s.0 s.1 a.0.2 a.0.1)
      ∙ ap (list_loop w fuel rest) (put_site_filled s out a.0.0)
      ∙ list_loop_reads fuel ss (s ∷ out) (omega arith) a.1
      ∙ ap done (
          sym (append_assoc (reverse ss) (s ∷ []) out)
          ∙ ap (λ l. l ++ out) (sym (reverse-cons s ss)))

  list_length : (ss : Sites) → length ss ≤ length (encode_list wr ss)
  unfolding encode_list
  list_length [] = omega arith
  list_length (s ∷ ss) = omega (
    arith,
    list_length ss,
    field_length wr 1 bytes_type (put_bytes (encode_site wr s)) (encode_list wr ss),
  )

  -- What is written of a list of categories is read back, the last category first, so that a later
  -- entry of a category hides an earlier one: for a writer whose tags of the format, numbers of 64
  -- bits and slices the wire reads as written, where no category and no attribute has an empty name,
  -- every type is a number of 64 bits that is written as itself, and every value that is written, a
  -- nested one included, has the length of a slice.
  pub decode-encode_list :
      (ss : Sites)
      → All (IsSite wr) ss
      → decode_geo_site_list w (encode_list wr ss) ≡ done (reverse ss)
  unfolding decode_geo_site_list
  decode-encode_list ss a =
      list_loop_reads (length (encode_list wr ss)) ss [] (list_length ss) a
      ∙ ap done (append-nil (reverse ss))
