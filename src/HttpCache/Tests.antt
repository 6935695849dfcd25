-- ===== src/HttpCache/Tests.antt =====
-- The middleware of internal/middleware/cache.go on concrete requests.
use financentury_backend.Prelude.{
  ℕ, ◌≡◌, ◌≢◌, ◌≤◌, ◌⊎◌, refl, true, false, none, some, [], ◌∷◌, Bytes, bytes, bytes_discrete, ite,
  if◌then◌else◌, All, length, arith,
}
use financentury_backend.Prelude.Maps.{find}
use financentury_backend.Prelude.Text.{has_prefix, contains, drop, index_byte, trim_space}
use financentury_backend.HttpCache.Directives.{
  CacheDirective, header, write_int, write_digits, lookup_cache_directive, first_rule, cache_rules,
  match_budget_subpath, match_subpath_tail, match_budgets_list, match_single_budget,
  is_invite_preview,
}
use financentury_backend.HttpCache.Tags.{compute_etag, hex_bytes, hex_digit, if_none_match_has}
use financentury_backend.HttpCache.Matching.{split, holds_tag, if_none_match_has-split}
use financentury_backend.HttpCache.Lists.{
  EntityTag, HasNoQuote, join_tags, has_text, if_none_match_has-join_tags,
}
use financentury_backend.HttpCache.Answers.{
  IsOwn, cache_control_and_etag-join_tags, cache_control_and_etag-private,
}
use financentury_backend.HttpCache.Decimal.{read_decimal, write_int-read}
use financentury_backend.HttpCache.{Response, answered, cache_control_and_etag}

-- Tests of the table and of the texts.
abbrev private_directive : ℕ → ℕ → ℕ → CacheDirective
private_directive max_age revalidate on_error = record {
  visibility = bytes "private";
  max_age = max_age;
  stale_while_revalidate = revalidate;
  stale_if_error = on_error;
  public = false;
}

header_test :
    header (private_directive 10 60 86400)
    ≡ bytes "private, max-age=10, stale-while-revalidate=60, stale-if-error=86400"
unfolding header write_int write_digits bytes_discrete
header_test = refl

lookup_tests :
    (lookup_cache_directive (bytes "/api/budgets/7/summary") ≡ some (private_directive 10 60 300))
    × (lookup_cache_directive (bytes "/api/budgets/7") ≡ some (private_directive 30 120 300))
    × (lookup_cache_directive (bytes "/api/budgets/7/invites") ≡ none)
    × (lookup_cache_directive (bytes "/health") ≡ none)
unfolding lookup_cache_directive contains has_prefix first_rule cache_rules match_budget_subpath
    match_subpath_tail match_budgets_list match_single_budget is_invite_preview index_byte drop
    bytes_discrete
lookup_tests = (refl, refl, refl, refl)

-- A hash for the tests: the body's length.
abbrev by_length : Bytes → ℕ
by_length body = length body

etag_test : compute_etag by_length (bytes "{}") ≡ bytes "W/\"0000000000000002\""
unfolding compute_etag hex_bytes hex_digit
etag_test = refl

if_none_match_has-split_example :
    if_none_match_has (bytes " W/\"a,b\", \"c\"") (bytes "\"c\"")
    ≡ ite (bytes_discrete (trim_space (bytes " W/\"a,b\", \"c\"")) []) false (
        ite
          (bytes_discrete (trim_space (bytes " W/\"a,b\", \"c\"")) (bytes "*"))
          true
          (holds_tag (bytes "\"c\"") (split false (trim_space (bytes " W/\"a,b\", \"c\"")))))
if_none_match_has-split_example =
    if_none_match_has-split (bytes " W/\"a,b\", \"c\"") (bytes "\"c\"")

abbrev strong_tag : EntityTag
strong_tag = record { weak = false; opaque = bytes "a,b" }

abbrev own_tag : EntityTag
own_tag = record { weak = true; opaque = bytes "0000000000000002" }

strong_tag-HasNoQuote : HasNoQuote strong_tag
strong_tag-HasNoQuote = ground arith

own_tag-HasNoQuote : All HasNoQuote (own_tag ∷ [])
own_tag-HasNoQuote = ground arith

if_none_match_has-join_tags_example :
    if_none_match_has (join_tags strong_tag (own_tag ∷ [])) (bytes "W/\"0000000000000002\"")
    ≡ has_text (bytes "W/\"0000000000000002\"") (strong_tag ∷ own_tag ∷ [])
if_none_match_has-join_tags_example =
    if_none_match_has-join_tags strong_tag (own_tag ∷ []) (bytes "W/\"0000000000000002\"")
      strong_tag-HasNoQuote own_tag-HasNoQuote

abbrev plain : Response
plain = record { status = 200; body = bytes "{}"; headers = [] }

summary_lookup :
    lookup_cache_directive (bytes "/api/budgets/7/summary") ≡ some (private_directive 10 60 300)
summary_lookup = lookup_tests.0

plain_body : plain.body ≢ []
plain_body h = cc

revalidated_example :
    (r' : Response) × (cache_control_and_etag by_length
        (bytes "GET")
        (bytes "/api/budgets/7/summary")
        (join_tags strong_tag (own_tag ∷ []))
        (answered plain)
      ≡ answered r')
    × (r'.status ≡ (
        if has_text (compute_etag by_length plain.body) (strong_tag ∷ own_tag ∷ [])
        then 304
        else 200))
    × (r'.body ≡ (
        if has_text (compute_etag by_length plain.body) (strong_tag ∷ own_tag ∷ [])
        then []
        else plain.body))
    × (find bytes_discrete (bytes "ETag") r'.headers ≡ some (compute_etag by_length plain.body))
revalidated_example =
    cache_control_and_etag-join_tags by_length (bytes "/api/budgets/7/summary") strong_tag
      (own_tag ∷ []) plain summary_lookup (strong_tag-HasNoQuote, own_tag-HasNoQuote) (omega arith)
      (omega arith) plain_body (omega arith)

summary_path : has_prefix (bytes "/api/budgets/7/summary") (bytes "/api/invites/") ≡ false
unfolding has_prefix
summary_path = refl

private_example :
    (r' : Response) × (cache_control_and_etag by_length
        (bytes "GET")
        (bytes "/api/budgets/7/summary")
        []
        (answered plain)
      ≡ answered r')
    × ((r' ≡ plain) ⊎ IsOwn r'.headers)
private_example =
    cache_control_and_etag-private by_length (bytes "GET") (bytes "/api/budgets/7/summary") [] plain
      summary_path

write_int_example :
    (read_decimal 0 (write_int 86_400) ≡ 86_400) × All (λ c. (48 ≤ c) × (c ≤ 57)) (write_int 86_400)
write_int_example = write_int-read 86_400 (omega arith)
