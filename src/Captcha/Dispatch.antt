-- ===== src/Captcha/Dispatch.antt =====
-- The guard of internal/middleware/captcha.go with the dispatcher of internal/captcha/multi.go.
use financentury_backend.Prelude.{
  ◌+◌, ◌≡◌, ◌≢◌, refl, sym, ap, ◌∙◌, Bool, true, false, Option, none, some, [], ◌∷◌, ◌++◌, Bytes,
  bytes, bytes_discrete, ite, if_pos, if_neg, subst, take, length, All, arith, if◌then◌else◌,
}
use financentury_backend.Prelude.Text.{same, drop, index_byte}
use financentury_backend.Captcha.{
  Verifier, VerifyError, captcha_failed, MultiConfig, or_noop, platform_web, platform_ios,
  platform_android, encode_platform_action, split_platform_action, route, multi_verify, Answer,
  bad_request, passed, missing_token, other_error, answer_of, platform_of, is_known, captcha,
}

index_byte-encoded :
    (p a : Bytes) → All (λ c. c ≢ b'|') p → index_byte (p ++ (b'|' ∷ a)) b'|' ≡ some (length p)
unfolding index_byte
index_byte-encoded [] a h = refl
index_byte-encoded (c ∷ p) a (n, h) = ground (arith, index_byte-encoded p a h)

take-encoded : (p a : Bytes) → take (length p) (p ++ (b'|' ∷ a)) ≡ p
take-encoded [] a = refl
take-encoded (c ∷ p) a = ap (◌∷◌ c) (take-encoded p a)

drop-encoded : (p a : Bytes) → drop (length p + 1) (p ++ (b'|' ∷ a)) ≡ a
unfolding drop
drop-encoded [] a = refl
drop-encoded (c ∷ p) a = ground (arith, drop-encoded p a)

-- What the middleware packs, the dispatcher unpacks: any action, and any platform without a bar.
pub split_platform_action-encode_platform_action :
    (platform action : Bytes)
    → All (λ c. c ≢ b'|') platform
    → split_platform_action (encode_platform_action platform action) ≡ (platform, action)
unfolding split_platform_action encode_platform_action
split_platform_action-encode_platform_action platform action h =
    rw (index_byte-encoded platform action h, split_platform_action)
      (ground (arith, take-encoded platform action, drop-encoded platform action))

-- The verifier that a request's platform header asks for; none is the web's.
pub wanted : MultiConfig → Bytes → Option Verifier
wanted cfg header =
    if same header []
    then some (or_noop cfg.web)
    else if same header platform_web
    then some (or_noop cfg.web)
    else if same header platform_ios
    then some (or_noop cfg.ios)
    else if same header platform_android
    then some (or_noop cfg.android)
    else none

multi_verify-encoded :
    (cfg : MultiConfig) (platform token ip action : Bytes)
    → All (λ c. c ≢ b'|') platform
    → multi_verify cfg token ip (encode_platform_action platform action)
      ≡ elim (route cfg platform) [ none ↦ some captcha_failed | some v ↦ v token ip action ]
unfolding multi_verify
multi_verify-encoded cfg platform token ip action h =
    ap
      (λ (r : Bytes × Bytes). elim (route cfg r.0) as (λ _. Option VerifyError) [
        | none ↦ some captcha_failed
        | some v ↦ v token ip r.1
      ])
      (split_platform_action-encode_platform_action platform action h)

-- The guard's answer for a known platform whose verifier is `v`.
guarded :
    (cfg : MultiConfig) (header token ip action : Bytes) (v : Verifier)
    → All (λ c. c ≢ b'|') (platform_of header)
    → is_known (platform_of header) ≡ true
    → route cfg (platform_of header) ≡ some v
    → token ≢ []
    → captcha (some (multi_verify cfg)) action token header ip ≡ answer_of (v token ip action)
unfolding captcha
guarded cfg header token ip action v bars known routed n =
    if_neg (bytes_discrete token []) n _ _
    ∙ rw (known, multi_verify-encoded cfg (platform_of header) token ip action bars, routed)

-- The answer by what the platform header asks for.
abbrev pub answer_for : MultiConfig → Bytes → Bytes → Bytes → Bytes → Answer
answer_for cfg action token header ip =
    ite (bytes_discrete token []) (bad_request (bytes "CAPTCHA_MISSING"))
      (elim (wanted cfg header) [
        | none ↦ bad_request (bytes "CAPTCHA_PLATFORM_UNKNOWN")
        | some v ↦ answer_of (v token ip action)
      ])

module _ (cfg : MultiConfig) (action token ip : Bytes) (n : token ≢ []) where
  abbrev Answers : Bytes → Type 0
  Answers header =
      captcha (some (multi_verify cfg)) action token header ip
      ≡ answer_for cfg action token header ip

  for_none : Answers []
  unfolding wanted bytes_discrete route platform_of is_known
  for_none =
      guarded cfg [] token ip action (or_noop cfg.web) (ground arith) refl refl n
      ∙ sym (if_neg (bytes_discrete token []) n _ _)

  for_web : Answers platform_web
  unfolding wanted bytes_discrete route platform_of is_known
  for_web =
      guarded cfg platform_web token ip action (or_noop cfg.web) (ground arith) refl refl n
      ∙ sym (if_neg (bytes_discrete token []) n _ _)

  for_ios : Answers platform_ios
  unfolding wanted bytes_discrete route platform_of is_known
  for_ios =
      guarded cfg platform_ios token ip action (or_noop cfg.ios) (ground arith) refl refl n
      ∙ sym (if_neg (bytes_discrete token []) n _ _)

  for_android : Answers platform_android
  unfolding wanted bytes_discrete route platform_of is_known
  for_android =
      guarded cfg platform_android token ip action (or_noop cfg.android) (ground arith) refl refl n
      ∙ sym (if_neg (bytes_discrete token []) n _ _)

  module _ (header : Bytes) (a : header ≢ []) (b : header ≢ platform_web)
      (c : header ≢ platform_ios) (d : header ≢ platform_android) where
    wanted-unknown : wanted cfg header ≡ none
    unfolding wanted
    wanted-unknown = ground arith

    is_known-unknown : is_known (platform_of header) ≡ false
    unfolding is_known platform_of
    is_known-unknown = ground arith

    for_unknown : Answers header
    unfolding captcha
    for_unknown =
        let guard : Bool → Answer = λ k.
          if k
          then answer_of
              (multi_verify cfg token ip (encode_platform_action (platform_of header) action))
          else bad_request (bytes "CAPTCHA_PLATFORM_UNKNOWN") in
        let picked : Option Verifier → Answer = λ w. elim w [
          | none ↦ bad_request (bytes "CAPTCHA_PLATFORM_UNKNOWN")
          | some v ↦ answer_of (v token ip action)
        ] in
        if_neg (bytes_discrete token []) n _ _
        ∙ ap guard is_known-unknown
        ∙ sym (ap picked wanted-unknown)
        ∙ sym (if_neg (bytes_discrete token []) n _ _)

-- The guard with the three verifiers behind it: a request without a token and one for an unknown
-- platform get 400, and any other goes on exactly if the verifier of its own platform accepts its
-- token for the guard's action. Every error of that verifier ends the request.
pub captcha-multi_verify :
    (cfg : MultiConfig) (action token header ip : Bytes)
    → captcha (some (multi_verify cfg)) action token header ip
      ≡ answer_for cfg action token header ip
unfolding captcha
captcha-multi_verify cfg action token header ip = elim (bytes_discrete token []) [
  | yes e ↦ if_pos (bytes_discrete token []) e _ _ ∙ sym (if_pos (bytes_discrete token []) e _ _)
  | no n ↦
      let at : Bytes → Type 0 = Answers cfg action token ip n in
      elim (bytes_discrete header []) [
        | yes p ↦ subst at (sym p) (for_none cfg action token ip n)
        | no a ↦ elim (bytes_discrete header platform_web) [
          | yes p ↦ subst at (sym p) (for_web cfg action token ip n)
          | no b ↦ elim (bytes_discrete header platform_ios) [
            | yes p ↦ subst at (sym p) (for_ios cfg action token ip n)
            | no c ↦ elim (bytes_discrete header platform_android) [
              | yes p ↦ subst at (sym p) (for_android cfg action token ip n)
              | no d ↦ for_unknown cfg action token ip n header a b c d
            ]
          ]
        ]
      ]
]

answer_of-passed : (r : Option VerifyError) → answer_of r ≡ passed → r ≡ none
unfolding answer_of
answer_of-passed none h = refl
answer_of-passed (some captcha_failed) h = cc
answer_of-passed (some missing_token) h = cc
answer_of-passed (some (other_error m)) h = cc

chosen-passed :
    (w : Option Verifier) (token ip action : Bytes)
    → elim w [
      | none ↦ bad_request (bytes "CAPTCHA_PLATFORM_UNKNOWN")
      | some v ↦ answer_of (v token ip action)
    ]
      ≡ passed
    → (v : Verifier) × (w ≡ some v) × (v token ip action ≡ none)
chosen-passed none token ip action h = cc
chosen-passed (some v) token ip action h = (v, refl, answer_of-passed (v token ip action) h)

answer_for-passed :
    (cfg : MultiConfig) (action token header ip : Bytes)
    → answer_for cfg action token header ip ≡ passed
    → (token ≢ []) × ((v : Verifier) × (wanted cfg header ≡ some v) × (v token ip action ≡ none))
answer_for-passed cfg action token header ip h = elim (bytes_discrete token []) [
  | yes e ↦ cc (if_pos (bytes_discrete token []) e _ _, h)
  | no n ↦ (
    n,
    chosen-passed (wanted cfg header) token ip action
        (sym (if_neg (bytes_discrete token []) n _ _) ∙ h),
  )
]

-- With the three verifiers behind the guard, a request goes on only if it has a token, its platform
-- header is one of the known ones or empty, and the verifier of that platform accepts the token for
-- the guard's action: whatever error a verifier has, the guard fails closed.
pub captcha_passed :
    (cfg : MultiConfig) (action token header ip : Bytes)
    → captcha (some (multi_verify cfg)) action token header ip ≡ passed
    → (token ≢ []) × ((v : Verifier) × (wanted cfg header ≡ some v) × (v token ip action ≡ none))
captcha_passed cfg action token header ip h =
    answer_for-passed cfg action token header ip
      (sym (captcha-multi_verify cfg action token header ip) ∙ h)
