-- ===== src/Samples.antt =====
-- Plain instances of what the program takes from elsewhere, for the examples.
pub mod Varint
use ssh_worker.Prelude.{
  ℕ, ◌+◌, ◌*◌, ◌/◌, ltb, leb, ◌==◌, if◌then◌else◌, true, ◌&&◌, Option, none, some, List, [], ◌∷◌,
  Text, text_eq, starts_with, split,
}
use ssh_worker.Health.State.{Floats}
use ssh_worker.Rules.Matcher.{Regexp}
use ssh_worker.Rules.Types.{Networks}
use ssh_worker.Socks5.Server.{Addresses}

-- Numbers in thousandths.
abbrev pub thousandths : Floats
thousandths = record {
  F = ℕ;
  less = ltb;
  zero = 0;
  one = 1000;
  alpha = 200;
  beta = 800;
  degraded_err = 20;
  unhealthy_err = 100;
  add = λ a b. a + b;
  mul = λ a b. a * b / 1000;
  is_zero = λ a. a == 0;
  is_nonpos = λ a. a == 0;
  millis = λ d. d / 1000;
  whole_millis = λ d. d / 1000000 * 1000;
  duration = λ a. a * 1000;
}

-- A pattern is a text that matches itself.
abbrev pub literal : Regexp
literal = record { Regex = Text; compile = some; match_string = text_eq }

-- A network is a prefix.
abbrev pub prefixes : Networks
prefixes = record {
  Network = Text;
  parse_cidr = some;
  net_contains = λ n ip. starts_with ip n;
  is_v4 = λ n. true;
  net_text = λ n. n;
}

abbrev pair_of : List Text → Option (Text × Text)
pair_of (host ∷ port ∷ []) = some (host, port)
pair_of _ = none

-- An address begins with a digit.
abbrev pub is_address : Text → Option Text
is_address [] = none
is_address (c ∷ cs) = if leb b'0' c && leb c b'9' then some (c ∷ cs) else none

abbrev pub plain : Addresses
plain = record { split_host_port = λ s. pair_of (split s b':'); parse_ip = is_address }
