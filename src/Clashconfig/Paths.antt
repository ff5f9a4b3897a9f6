-- ===== src/Clashconfig/Paths.antt =====
-- path/filepath on Unix, as far as internal/clashconfig uses it: IsAbs, Clean, Dir and Join.
use ssh_worker.Prelude.{
  ◌==◌, if◌then◌else◌, Bool, true, false, not, ◌&&◌, ◌||◌, List, [], ◌∷◌, ◌++◌, reverse, Text,
  bytes, text_eq, is_empty, split, join,
}

unfoldable pub is_abs : Text → Bool
is_abs [] = false
is_abs (c ∷ cs) = c == b'/'

-- Two dots take the element before them away. There is none at the root, and the dots of a path
-- that is not rooted are kept.
unfoldable pub go_up : Bool → List Text → List Text
go_up true [] = []
go_up false [] = bytes ".." ∷ []
go_up rooted (e ∷ es) = if text_eq e (bytes "..") then bytes ".." ∷ e ∷ es else es

-- The elements that are kept, the last first.
unfoldable pub resolve : Bool → List Text → List Text → List Text
unfolding go_up
resolve rooted [] kept = kept
resolve rooted (e ∷ es) kept = resolve rooted es (
    if is_empty e || text_eq e (bytes ".")
    then kept
    else if text_eq e (bytes "..")
    then go_up rooted kept
    else e ∷ kept)

abbrev pub or_dot : Text → Text
or_dot [] = bytes "."
or_dot (c ∷ cs) = c ∷ cs

-- Clean. The join of no element is the empty text.
unfoldable pub clean : Text → Text
unfolding resolve is_abs
clean p =
    let body = join (reverse (resolve (is_abs p) (split p b'/') [])) b'/' in
    if is_abs p then b'/' ∷ body else or_dot body

-- The text up to its last slash, with it.
unfoldable pub up_to_slash : Text → Text
up_to_slash [] = []
up_to_slash (c ∷ cs) =
    let rest = up_to_slash cs in if is_empty rest && not (c == b'/') then [] else c ∷ rest

unfoldable pub dir : Text → Text
unfolding clean up_to_slash
dir p = clean (up_to_slash p)

-- Join of two elements, of which the first is not empty.
unfoldable pub join_path : Text → Text → Text
unfolding clean
join_path a b = clean (a ++ b'/' ∷ b)
