-- ===== src/HttpCache.antt =====
-- internal/middleware/cache.go: Cache-Control, ETag and 304 answers for GET requests.
pub mod Directives
pub mod Tags
pub mod Matching
pub mod Lists
pub mod Answers
pub mod Decimal
mod Tests
use financentury_backend.Prelude.{
  ℕ, ◌+◌, ◌*◌, Bool, true, false, ◌&&◌, ◌||◌, not, Option, none, some, List, [], ◌∷◌, Bytes, bytes,
  bytes_discrete, ite, ltb, leb, length, if◌then◌else◌,
}
use financentury_backend.Prelude.Maps.{assign, delete}
use financentury_backend.Prelude.Text.{same}
use Directives.{CacheDirective, header, lookup_cache_directive}
use Tags.{compute_etag, if_none_match_has}

pub record Response : Type 0 where
  pub status : ℕ
  pub body : Bytes
  pub headers : List (Bytes × Bytes)

-- What the rest of the chain does: it answers, or it gives an error.
pub data Handled : Type 0 where
  answered : Response → Handled
  failed : Bytes → Handled

abbrev pub max_etag_body : ℕ
max_etag_body = 256 * 1024

-- `c.Set` of the three headers.
pub tag_response : CacheDirective → Bytes → Response → Response
tag_response d etag r =
    let vary =
      if d.public then bytes "Accept-Encoding" else bytes "Authorization, Accept-Encoding" in
    record r {
      headers = assign bytes_discrete (bytes "ETag") etag (
          assign bytes_discrete (bytes "Vary") vary
            (assign bytes_discrete (bytes "Cache-Control") (header d) r.headers));
    }

-- The answer 304 without a body.
pub not_modified : Response → Response
not_modified r = record {
  status = 304;
  body = [];
  headers = delete bytes_discrete (bytes "Content-Length") r.headers;
}

-- `CacheControlAndETag` after `c.Next()`.
pub finish : (Bytes → ℕ) → CacheDirective → Bytes → Response → Response
finish hash d inm r =
    if ltb r.status 200 || leb 300 r.status
    then r
    else ite (bytes_discrete r.body []) r (
        if ltb max_etag_body (length r.body)
        then r
        else (let etag = compute_etag hash r.body in
            let tagged = tag_response d etag r in
            if not (same inm []) && if_none_match_has inm etag
            then not_modified tagged
            else tagged))

-- `CacheControlAndETag`; `next` is what the rest of the chain does with the request.
pub cache_control_and_etag : (Bytes → ℕ) → Bytes → Bytes → Bytes → Handled → Handled
cache_control_and_etag hash method path inm next =
    if not (same method (bytes "GET")) then next else elim (lookup_cache_directive path) [
      | none ↦ next
      | some d ↦ elim next [ failed e ↦ failed e | answered r ↦ answered (finish hash d inm r) ]
    ]
