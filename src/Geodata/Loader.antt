-- ===== src/Geodata/Loader.antt =====
-- internal/geodata/loader.go: the loader of geosite.dat.
pub mod Laws
use ssh_worker.Prelude.{ℕ, List, [], ◌∷◌, map, length, Text, bytes, Option, none, some}
use ssh_worker.Prelude.Maps.{delete}
use ssh_worker.Errs.{Error}
use ssh_worker.Geodata.{Domain, Sites}
use ssh_worker.Geodata.Decode.{Wire, Decoded, done, malformed, out_of_fuel, decode_geo_site_list}

-- What the file gives: the error of Stat or of ReadFile, or its bytes.
pub data File : Type 0 where
  missing unreadable : Error → File
  content : Text → File

-- What New gives. `diverges` stands for a decoder that does not end, of which there is none.
pub data Loaded : Type 0 where
  loader : Sites → Loaded
  no_loader : Error → Loaded
  diverges : Loaded

unfoldable pub of_decoded : Decoded Sites → Loaded
of_decoded (done sites) = loader sites
of_decoded (malformed msg) = no_loader (Error.wrap (bytes "decode: ") (Error.other msg))
of_decoded out_of_fuel = diverges

unfoldable pub new : Wire → File → Loaded
unfolding of_decoded
new w (missing e) = no_loader e
new w (unreadable e) = no_loader (Error.wrap (bytes "read: ") e)
new w (content data_) = of_decoded (decode_geo_site_list w data_)

-- The entries of the map: a category that was put again hides its earlier entry.
unfoldable pub entries : Sites → Sites
entries [] = []
entries ((n, ds) ∷ m) = (n, ds) ∷ delete n (entries m)

unfoldable pub categories : Sites → List Text
unfolding entries
categories sites = map (λ (p : Text × List Domain). p.0) (entries sites)

unfoldable pub stats : Sites → List (Text × ℕ)
unfolding entries
stats sites = map (λ (p : Text × List Domain). (p.0, length p.1)) (entries sites)
