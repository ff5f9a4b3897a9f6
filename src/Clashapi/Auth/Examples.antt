-- ===== src/Clashapi/Auth/Examples.antt =====
-- The API of the dashboard: an example of each law.
use ssh_worker.Prelude.{false, [], bytes, text_eq, ◌≡◌, ◌↔◌, refl}
use ssh_worker.Clashapi.Auth.{Request, handle, served}
use ssh_worker.Clashapi.Auth.Laws.{MayPass, handle_iff}

abbrev with_header : Request
with_header = record {
  method = bytes "GET";
  authorization = bytes "Bearer s3";
  token = [];
  origin = [];
}

is_get : text_eq with_header.method (bytes "OPTIONS") ≡ false
unfolding text_eq
is_get = refl

handle_iff_example : (handle (bytes "s3") with_header ≡ served) ↔ MayPass (bytes "s3") with_header
handle_iff_example = handle_iff (bytes "s3") with_header is_get
