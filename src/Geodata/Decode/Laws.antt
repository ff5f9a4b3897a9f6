-- ===== src/Geodata/Decode/Laws.antt =====
-- internal/geodata/decode.go: the loops end.
use ssh_worker.Prelude.{
  if_case, ℕ, zero, suc, ◌≤◌, ◌<◌, Option, none, some, List, [], ◌∷◌, Text, length, drop,
  length-drop, ◌≡◌, ◌≢◌, refl, arith,
}
use ssh_worker.Geodata.{Domain, Sites}
use ssh_worker.Geodata.Decode.{
  Wire, varint_type, bytes_type, Decoded, done, malformed, out_of_fuel, no_domain, after_value,
  after_field, is_field, add_attr, attr_field, attr_loop, key_or_empty, decode_attr_key, with_attr,
  domain_field, domain_loop, decode_domain, and_then, site_field, site_loop, decode_geo_site,
  list_field, list_loop, decode_geo_site_list,
}

-- A tag that is read takes at least one byte.
abbrev pub TagsAdvance : Wire → Type 0
TagsAdvance w = (b : Text) (tag : ℕ × ℕ) (n : ℕ) → w.consume_tag b ≡ some (tag, n) → 0 < n

abbrev Ends : {A : Type 0} → Decoded A → Type 0
Ends r = r ≢ out_of_fuel

drop_le : (n m : ℕ) (b : Text) → length b ≤ m → length (drop n b) ≤ m
drop_le n m b h = omega (arith, length-drop {0} n b)

malformed-Ends : {A : Type 0} (msg : Text) → Ends {A = A} (malformed msg)
malformed-Ends msg e = cc

done-Ends : {A : Type 0} (a : A) → Ends (done a)
done-Ends a e = cc

after_value-Ends :
    {A B : Type 0} (o : Option (A × ℕ)) (msg b : Text) (k : A → Text → Decoded B)
    → ((v : A) (n : ℕ) → o ≡ some (v, n) → Ends (k v (drop n b)))
    → Ends (after_value o msg b k)
unfolding after_value
after_value-Ends none msg b k h = malformed-Ends msg
after_value-Ends (some (v, n)) msg b k h = h v n refl

after_field-Ends :
    {B : Type 0} (o : Option ℕ) (msg b : Text) (k : Text → Decoded B)
    → ((n : ℕ) → Ends (k (drop n b)))
    → Ends (after_field o msg b k)
unfolding after_field
after_field-Ends none msg b k h = malformed-Ends msg
after_field-Ends (some n) msg b k h = h n

and_then-Ends :
    {A B : Type 0} (r : Decoded A) (k : A → Decoded B)
    → Ends r
    → ((a : A) → Ends (k a))
    → Ends (and_then r k)
unfolding and_then
and_then-Ends (done a) k h g = g a
and_then-Ends (malformed msg) k h g = malformed-Ends msg
and_then-Ends out_of_fuel k h g = absurd (h refl)

with_attr-Ends :
    (r : Decoded Text) (d : Domain) (k : Domain → Decoded Domain)
    → Ends r
    → ((d' : Domain) → Ends (k d'))
    → Ends (with_attr r d k)
unfolding with_attr
with_attr-Ends (done key) d k h g = g (add_attr key d)
with_attr-Ends (malformed msg) d k h g = malformed-Ends msg
with_attr-Ends out_of_fuel d k h g = absurd (h refl)

key_or_empty-Ends : (r : Decoded Text) → Ends r → Ends (key_or_empty r)
unfolding key_or_empty
key_or_empty-Ends (done k) h = done-Ends k
key_or_empty-Ends (malformed msg) h = done-Ends []
key_or_empty-Ends out_of_fuel h = h

module _ (w : Wire) where
  -- What holds of a loop on all bytes that are no longer than `m`.
  attr_field-Ends :
      (m : ℕ) (rest : Text → Decoded Text)
      → ((b : Text) → length b ≤ m → Ends (rest b))
      → (tag : ℕ × ℕ) (b : Text) → length b ≤ m
      → Ends (attr_field w rest tag b)
  unfolding attr_field
  attr_field-Ends m rest ih tag b h =
      if_case Ends (is_field tag 1 bytes_type)
        (after_value-Ends (w.consume_string b) [] b _ (λ v n e. done-Ends v))
        (after_field-Ends (w.consume_field tag.0 tag.1 b) [] b rest
          (λ n. ih (drop n b) (drop_le n m b h)))

  module _ (advance : TagsAdvance w) where
    -- The bytes behind a tag are fewer.
    behind_tag :
        (c : ℕ) (cs : Text) (tag : ℕ × ℕ) (n fuel : ℕ)
        → w.consume_tag (c ∷ cs) ≡ some (tag, n)
        → suc (length cs) ≤ suc fuel
        → length (drop n (c ∷ cs)) ≤ fuel
    behind_tag c cs tag n fuel e h =
        omega (arith, length-drop {0} n (c ∷ cs), advance (c ∷ cs) tag n e)

    attr_loop-Ends : (fuel : ℕ) (b : Text) → length b ≤ fuel → Ends (attr_loop w fuel b)
    unfolding attr_loop
    attr_loop-Ends fuel [] h = done-Ends []
    attr_loop-Ends zero (c ∷ cs) h = absurd (omega arith)
    attr_loop-Ends (suc fuel) (c ∷ cs) h =
        after_value-Ends (w.consume_tag (c ∷ cs)) [] (c ∷ cs) _ (λ tag n e.
          attr_field-Ends fuel (attr_loop w fuel) (attr_loop-Ends fuel) tag (drop n (c ∷ cs))
            (behind_tag c cs tag n fuel e h))

    decode_attr_key-Ends : (b : Text) → Ends (decode_attr_key w b)
    unfolding decode_attr_key
    decode_attr_key-Ends b =
        key_or_empty-Ends (attr_loop w (length b) b) (attr_loop-Ends (length b) b (omega arith))

    domain_field-Ends :
        (m : ℕ) (rest : Text → Domain → Decoded Domain)
        → ((b : Text) (d : Domain) → length b ≤ m → Ends (rest b d))
        → (d : Domain) (tag : ℕ × ℕ) (b : Text) → length b ≤ m
        → Ends (domain_field w rest d tag b)
    unfolding domain_field
    domain_field-Ends m rest ih d tag b h =
        if_case Ends (is_field tag 1 varint_type)
          (after_value-Ends (w.consume_varint b) _ b _ (λ v n e. ih _ _ (drop_le n m b h)))
          (if_case Ends (is_field tag 2 bytes_type)
            (after_value-Ends (w.consume_string b) _ b _ (λ v n e. ih _ _ (drop_le n m b h)))
            (if_case Ends (is_field tag 3 bytes_type)
              (after_value-Ends (w.consume_bytes b) _ b _ (λ v n e.
                with_attr-Ends (decode_attr_key w v) d _ (decode_attr_key-Ends v)
                  (λ d'. ih _ d' (drop_le n m b h))))
              (after_field-Ends (w.consume_field tag.0 tag.1 b) _ b _
                (λ n. ih _ d (drop_le n m b h)))))

    domain_loop-Ends :
        (fuel : ℕ) (b : Text) (d : Domain) → length b ≤ fuel → Ends (domain_loop w fuel b d)
    unfolding domain_loop
    domain_loop-Ends fuel [] d h = done-Ends d
    domain_loop-Ends zero (c ∷ cs) d h = absurd (omega arith)
    domain_loop-Ends (suc fuel) (c ∷ cs) d h =
        after_value-Ends (w.consume_tag (c ∷ cs)) _ (c ∷ cs) _ (λ tag n e.
          domain_field-Ends fuel (domain_loop w fuel) (domain_loop-Ends fuel) d tag
            (drop n (c ∷ cs)) (behind_tag c cs tag n fuel e h))

    decode_domain-Ends : (b : Text) → Ends (decode_domain w b)
    unfolding decode_domain
    decode_domain-Ends b = domain_loop-Ends (length b) b no_domain (omega arith)

    site_field-Ends :
        (m : ℕ) (rest : Text → Text × List Domain → Decoded (Text × List Domain))
        → ((b : Text) (s : Text × List Domain) → length b ≤ m → Ends (rest b s))
        → (s : Text × List Domain) (tag : ℕ × ℕ) (b : Text) → length b ≤ m
        → Ends (site_field w rest s tag b)
    unfolding site_field
    site_field-Ends m rest ih s tag b h =
        if_case Ends (is_field tag 1 bytes_type)
          (after_value-Ends (w.consume_string b) _ b _ (λ v n e. ih _ _ (drop_le n m b h)))
          (if_case Ends (is_field tag 2 bytes_type)
            (after_value-Ends (w.consume_bytes b) _ b _ (λ v n e.
              and_then-Ends (decode_domain w v) _ (decode_domain-Ends v)
                (λ d. ih _ _ (drop_le n m b h))))
            (after_field-Ends (w.consume_field tag.0 tag.1 b) _ b _
              (λ n. ih _ s (drop_le n m b h))))

    site_loop-Ends :
        (fuel : ℕ) (b : Text) (s : Text × List Domain)
        → length b ≤ fuel
        → Ends (site_loop w fuel b s)
    unfolding site_loop
    site_loop-Ends fuel [] s h = done-Ends s
    site_loop-Ends zero (c ∷ cs) s h = absurd (omega arith)
    site_loop-Ends (suc fuel) (c ∷ cs) s h =
        after_value-Ends (w.consume_tag (c ∷ cs)) _ (c ∷ cs) _ (λ tag n e.
          site_field-Ends fuel (site_loop w fuel) (site_loop-Ends fuel) s tag (drop n (c ∷ cs))
            (behind_tag c cs tag n fuel e h))

    list_field-Ends :
        (m : ℕ) (rest : Text → Sites → Decoded Sites)
        → ((b : Text) (out : Sites) → length b ≤ m → Ends (rest b out))
        → (out : Sites) (tag : ℕ × ℕ) (b : Text) → length b ≤ m
        → Ends (list_field w rest out tag b)
    unfolding list_field decode_geo_site
    list_field-Ends m rest ih out tag b h =
        if_case Ends (is_field tag 1 bytes_type)
          (after_value-Ends (w.consume_bytes b) _ b _ (λ v n e.
            and_then-Ends (decode_geo_site w v) _
              (site_loop-Ends (length v) v ([], []) (omega arith)) (λ s. ih _ _ (drop_le n m b h))))
          (after_field-Ends (w.consume_field tag.0 tag.1 b) _ b _ (λ n. ih _ out (drop_le n m b h)))

    list_loop-Ends :
        (fuel : ℕ) (b : Text) (out : Sites) → length b ≤ fuel → Ends (list_loop w fuel b out)
    unfolding list_loop
    list_loop-Ends fuel [] out h = done-Ends out
    list_loop-Ends zero (c ∷ cs) out h = absurd (omega arith)
    list_loop-Ends (suc fuel) (c ∷ cs) out h =
        after_value-Ends (w.consume_tag (c ∷ cs)) _ (c ∷ cs) _ (λ tag n e.
          list_field-Ends fuel (list_loop w fuel) (list_loop-Ends fuel) out tag (drop n (c ∷ cs))
            (behind_tag c cs tag n fuel e h))

    -- The decoder ends on all bytes, malformed or not, with a map or an error, if every tag that is
    -- read takes at least one byte: each loop, those of the entries inside included, goes round at
    -- most as often as it has bytes.
    pub decode_geo_site_list_ends : (data_ : Text) → decode_geo_site_list w data_ ≢ out_of_fuel
    unfolding decode_geo_site_list
    decode_geo_site_list_ends data_ = list_loop-Ends (length data_) data_ [] (omega arith)
