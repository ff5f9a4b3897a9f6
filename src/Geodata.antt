-- ===== src/Geodata.antt =====
-- internal/geodata: the entries of geosite.dat.
mod Examples
pub mod Decode
pub mod Loader
use ssh_worker.Prelude.{Text, bytes, List, ℕ}

-- DomainType; the decoder makes one of any varint, so `unknown` has the other values.
pub data DomainType : Type 0 where
  domain full regex keyword : DomainType
  unknown : ℕ → DomainType

unfoldable pub type_text : DomainType → Text
type_text DomainType.domain = bytes "domain"
type_text DomainType.full = bytes "full"
type_text DomainType.regex = bytes "regex"
type_text DomainType.keyword = bytes "keyword"
type_text (DomainType.unknown n) = bytes "unknown"

pub record Domain : Type 0 where
  pub kind : DomainType
  pub value : Text
  pub attrs : List Text

-- The map of the loader.
abbrev pub Sites : Type 0
Sites = List (Text × List Domain)
