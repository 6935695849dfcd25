-- ===== src/HttpCache/Tags.antt =====
-- The ETags of internal/middleware/cache.go: `ComputeETag`, over the hash of
-- github.com/cespare/xxhash, and the match of an If-None-Match header.
use financentury_backend.Prelude.{
  ℕ, zero, suc, ◌+◌, ◌/◌, ◌%◌, Bool, true, false, ◌&&◌, not, Option, none, some, [], ◌∷◌, ◌++◌,
  Bytes, bytes, bytes_discrete, ite, ltb, ◌==◌, length, take, if◌then◌else◌,
}
use financentury_backend.Prelude.Text.{same, drop, trim_space}

-- `indexUnquotedComma`, `none` for -1; the first argument is `inQuote`.
unfoldable pub unquoted_comma_from : Bool → Bytes → Option ℕ
unquoted_comma_from q [] = none
unquoted_comma_from q (c ∷ s) =
    let rest : Option ℕ = elim (unquoted_comma_from (if c == b'"' then not q else q) s) [
      | none ↦ none
      | some n ↦ some (suc n)
    ] in
    if c == b',' && not q then some 0 else rest

unfoldable pub index_unquoted_comma : Bytes → Option ℕ
unfolding unquoted_comma_from
index_unquoted_comma s = unquoted_comma_from false s

-- The loop of `IfNoneMatchHas`. Each round drops a comma at least, so the length is fuel enough.
unfoldable pub match_items : ℕ → Bytes → Bytes → Bool
match_items zero text etag = false
match_items (suc fuel) text etag = elim (index_unquoted_comma text) [
  | none ↦ same (trim_space text) etag
  | some comma ↦
      let rest = match_items fuel (drop (comma + 1) text) etag in
      if same (trim_space (take comma text)) etag then true else rest
]

-- `IfNoneMatchHas`
unfoldable pub if_none_match_has : Bytes → Bytes → Bool
unfolding match_items trim_space
if_none_match_has raw etag =
    let text = trim_space raw in
    ite (bytes_discrete text []) false
      (ite (bytes_discrete text (bytes "*")) true (match_items (length text + 1) text etag))

-- One digit of `hex.EncodeToString`.
unfoldable pub hex_digit : ℕ → ℕ
hex_digit d = if ltb d 10 then 48 + d else 87 + d

-- The hexadecimal digits of the lower `n` bytes of a number, the highest byte first.
unfoldable pub hex_bytes : ℕ → ℕ → Bytes
unfolding hex_digit
hex_bytes zero sum = []
hex_bytes (suc n) sum =
    hex_bytes n (sum / 256) ++ (hex_digit (sum % 256 / 16) ∷ hex_digit (sum % 16) ∷ [])

-- `ComputeETag`
unfoldable pub compute_etag : (Bytes → ℕ) → Bytes → Bytes
unfolding hex_bytes
compute_etag hash body = bytes "W/\"" ++ hex_bytes 8 (hash body) ++ (b'"' ∷ [])
