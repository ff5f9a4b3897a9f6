-- ===== src/Rules/Builder/Files.antt =====
-- internal/rules/builder.go with internal/geodata/loader.go: from the bytes of geosite.dat to the
-- rules.
use ssh_worker.Prelude.{
  if◌then◌else◌, false, List, reverse, All, Text, is_empty, Option, none, some, ◌≡◌, refl,
}
use ssh_worker.Rules.Matcher.{Regexp}
use ssh_worker.Rules.Types.{Networks}
use ssh_worker.Geodata.{Sites}
use ssh_worker.Geodata.Decode.{Wire, done, decode_geo_site_list}
use ssh_worker.Geodata.Decode.Encode.{Writer, IsSite, encode_list}
use ssh_worker.Geodata.Decode.Encode.Entries.{decode-encode_list}
use ssh_worker.Geodata.Loader.{File, content, Loaded, loader, no_loader, diverges, of_decoded, new}
use ssh_worker.Rules.Builder.{Loading, no_path, load_failed, loaded, build}
use ssh_worker.Rules.Builder.Laws.{rules_for, build_lem}

unfoldable pub of_loader : Loaded → Option Loading
of_loader (loader sites) = some (loaded sites)
of_loader (no_loader e) = some load_failed
of_loader diverges = none

-- No path is no loader; `none` stands for a decoder that does not end.
unfoldable pub load : Wire → Text → File → Option Loading
unfolding of_loader new
load w path file = if is_empty path then some no_path else of_loader (new w file)

load-content :
    (w : Wire) (path data_ : Text) (sites : Sites)
    → is_empty path ≡ false
    → decode_geo_site_list w data_ ≡ done sites
    → load w path (content data_) ≡ some (loaded sites)
unfolding load new of_decoded
load-content w path data_ sites p e = rw (p, e) refl

module _ (re : Regexp) (net : Networks) {w : Wire} (wr : Writer w) where
  -- From a file of categories as they are written to the rules of the engine: those of the lines
  -- that can be read, in order, each looked up in the categories of the file, of which the last of
  -- a name counts.
  pub build-load_lem :
      (path : Text) (ss : Sites) (lines : List Text)
      → is_empty path ≡ false
      → All (IsSite wr) ss
      → (l : Loading) × (load w path (content (encode_list wr ss)) ≡ some l)
        × (build re net l (some lines) ≡ rules_for re net (loaded (reverse ss)) lines)
  build-load_lem path ss lines p a = (
    loaded (reverse ss),
    load-content w path (encode_list wr ss) (reverse ss) p (decode-encode_list wr ss a),
    build_lem re net (loaded (reverse ss)) lines,
  )
