-- ===== src/Network/Laws.antt =====
-- network/network.go and wsconn.go: which dialers there are, and that no byte is lost.
use ssh_worker.Prelude.{
  ℕ, zero, suc, false, not, Option, none, some, List, [], ◌∷◌, ◌++◌, Text, take, drop, ◌≡◌, ◌≢◌,
  refl, ap, arith,
}
use ssh_worker.Config.{Config, validate_all, network_ok}
use ssh_worker.Config.Laws.{validate_all_iff}
use ssh_worker.Network.{unsupported, new_dialer, WsConn, read_next, read_from, read}

no_unsupported :
    (c : Config) → not (network_ok c.network) ≡ false → (t : Text) → new_dialer c ≢ unsupported t
unfolding new_dialer
no_unsupported c h t = ground arith

-- A configuration that ValidateAll finds complete has a dialer.
pub new_dialer_supported :
    (c : Config) → validate_all c ≡ [] → (t : Text) → new_dialer c ≢ unsupported t
new_dialer_supported c h = no_unsupported c ((validate_all_iff c).0 h).network

-- All the bytes that are still to be read.
abbrev pub concat : List Text → Text
concat [] = []
concat (m ∷ ms) = m ++ concat ms

abbrev pub or_nothing : Option Text → Text
or_nothing none = []
or_nothing (some t) = t

abbrev pub pending : WsConn → Text
pending c = or_nothing c.reader ++ concat c.messages

take-drop : (n : ℕ) (s t : Text) → take n s ++ (drop n s ++ t) ≡ s ++ t
take-drop zero s t = refl
take-drop (suc n) [] t = refl
take-drop (suc n) (c ∷ cs) t = ap (λ l. c ∷ l) (take-drop n cs t)

-- What a read with some room gives and leaves.
pub record Keeps (before : Text) (r : WsConn × Option Text) : Type 0 where
  pub bytes_kept : or_nothing r.1 ++ pending r.0 ≡ before
  pub failed : r.1 ≡ none → before ≡ []
  pub some_read : r.1 ≢ some []

not_empty : (n : ℕ) (c : ℕ) (cs : Text) → some (take (suc n) (c ∷ cs)) ≢ some []
not_empty n c cs e = cc

read_next-Keeps : (n : ℕ) (ms : List Text) → Keeps (concat ms) (read_next (suc n) ms)
unfolding read_next
read_next-Keeps n [] = record { bytes_kept = refl; failed = λ e. refl; some_read = λ e. cc }
read_next-Keeps n ([] ∷ ms) = read_next-Keeps n ms
read_next-Keeps n ((c ∷ cs) ∷ ms) = record {
  bytes_kept = take-drop (suc n) (c ∷ cs) (concat ms);
  failed = λ e. absurd (ground arith);
  some_read = not_empty n c cs;
}

read_from-Keeps :
    (n : ℕ) (reader : Option Text) (ms : List Text)
    → Keeps (or_nothing reader ++ concat ms) (read_from (suc n) reader ms)
unfolding read_from
read_from-Keeps n none ms = read_next-Keeps n ms
read_from-Keeps n (some []) ms = read_next-Keeps n ms
read_from-Keeps n (some (c ∷ cs)) ms = record {
  bytes_kept = take-drop (suc n) (c ∷ cs) (concat ms);
  failed = λ e. absurd (ground arith);
  some_read = not_empty n c cs;
}

-- A read into a buffer that is not empty gives the next bytes of the messages, in order and across
-- their ends: they and what is left are what was there. It gives at least one byte, and it fails
-- only when no byte is left.
pub read-Keeps : (n : ℕ) (c : WsConn) → Keeps (pending c) (read (suc n) c)
unfolding read
read-Keeps n c = read_from-Keeps n c.reader c.messages
