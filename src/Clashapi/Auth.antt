-- ===== src/Clashapi/Auth.antt =====
-- clashapi/auth.go: which requests the API serves, and the origins that it names.
mod Examples
pub mod Laws
use ssh_worker.Prelude.{
  ℕ, zero, suc, Bool, true, false, if◌then◌else◌, not, ◌&&◌, ◌||◌, Option, none, some, List, [],
  ◌∷◌, Text, bytes, text_eq, is_empty, starts_with, trim_space, split, any, drop, length,
}

-- What of a request the two middlewares read: a header that is not there is the empty text, and so
-- is a parameter of the query.
pub record Request : Type 0 where
  pub method : Text
  pub authorization : Text
  pub token : Text
  pub origin : Text

abbrev pub bearer : Text
bearer = bytes "Bearer "

-- authMiddleware: `true` where the handler behind it is called, `false` for the answer 401.
unfoldable pub authorized : Text → Request → Bool
authorized secret r =
    if is_empty secret
    then true
    else if starts_with r.authorization bearer
        && text_eq (drop (length bearer) r.authorization) secret
    then true
    else not (is_empty r.token) && text_eq r.token secret

-- The header Access-Control-Allow-Origin.
unfoldable pub allowed_origin : Text → Text → Option Text
allowed_origin allowed origin =
    if is_empty origin
    then none
    else if is_empty allowed || text_eq allowed (bytes "*")
    then some (bytes "*")
    else if any (λ o. text_eq (trim_space o) origin) (split allowed b',')
    then some origin
    else none

pub data Answer : Type 0 where
  no_content unauthorized served : Answer

-- The handler that Start builds: the CORS check in front of the authentication.
unfoldable pub handle : Text → Request → Answer
unfolding authorized
handle secret r =
    if text_eq r.method (bytes "OPTIONS")
    then no_content
    else if authorized secret r
    then served
    else unauthorized
