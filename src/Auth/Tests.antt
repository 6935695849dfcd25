-- ===== src/Auth/Tests.antt =====
-- The sessions of internal/middleware/auth.go with one user and one session.
use financentury_backend.Prelude.{
  ◌≡◌, ◌≢◌, refl, true, Option, none, some, [], ◌∷◌, Bytes, bytes, bytes_discrete, ite, arith,
}
use financentury_backend.Prelude.Text.{index_byte, drop}
use financentury_backend.Auth.Sessions.{SessionRow, find_row, is_revoked}
use financentury_backend.Auth.Race.{overtaken, revocation_lost}
use financentury_backend.Auth.{
  Caller, Claims, Server, allowed, unauthorized, admit, sign_out, identify, check_token,
}

abbrev ann : Caller
ann = record { user_id = bytes "ann"; email = bytes "ann@x.org"; token_hash = bytes "h1" }

abbrev ann_row : SessionRow
ann_row = record {
  id = bytes "1";
  user_id = bytes "ann";
  token_hash = bytes "h1";
  revoked_at = none;
}

abbrev one_session : Server
one_session = record { cache = []; rows = ann_row ∷ [] }

ann_hash : ann.token_hash ≢ []
ann_hash h = cc

-- Ann signs out and asks again, which fills the cache with the revoked session.
abbrev asked_again : Server
asked_again = (admit true 20 ann (sign_out true 10 ann.token_hash one_session)).0

ann_row-found : find_row ann.token_hash one_session.rows ≡ some ann_row
unfolding find_row bytes_discrete
ann_row-found = refl

revocation_lost_example :
    (is_revoked ann.token_hash (overtaken ann one_session ann_row 10 5).rows ≡ true)
    × ((admit true 200 ann (overtaken ann one_session ann_row 10 5)).1 ≡ allowed ann)
revocation_lost_example =
    revocation_lost ann one_session ann_row 10 5 200 ann_hash ann_row-found refl refl (omega arith)

-- The scheme is compared without its case; the rest of the header is the token.
abbrev known_token : Bytes → Option Claims
known_token token =
    ite (bytes_discrete token (bytes "t.o.k"))
      (some (record { user_id = bytes "ann"; email = bytes "ann@x.org" })) none

identify_tests :
    (identify known_token (λ u. some u) (λ t. bytes "h1") (bytes "BeArer t.o.k") ≡ allowed ann)
    × (identify known_token (λ u. some u) (λ t. bytes "h1") (bytes "Basic t.o.k")
        ≡ unauthorized (bytes "invalid authorization header format"))
    × (identify known_token (λ u. some u) (λ t. bytes "h1") []
        ≡ unauthorized (bytes "missing authorization header"))
unfolding identify check_token index_byte drop bytes_discrete
identify_tests = (refl, refl, refl)
