-- ===== src/Captcha/Tests.antt =====
-- The guard of internal/middleware/captcha.go with verifiers that compare the token.
use financentury_backend.Prelude.{
  ◌≡◌, ◌≢◌, refl, none, some, [], bytes, bytes_discrete, ite, All, arith,
}
use financentury_backend.Prelude.Text.{index_byte, drop}
use financentury_backend.Captcha.{
  Verifier, MultiConfig, captcha_failed, missing_token, platform_ios, encode_platform_action,
  split_platform_action, route, multi_verify, bad_request, forbidden, passed, answer_of,
  platform_of, is_known, captcha,
}
use financentury_backend.Captcha.Dispatch.{wanted, captcha_passed}

abbrev one_token : Verifier
one_token token ip action = ite (bytes_discrete token (bytes "good")) none (some captcha_failed)

abbrev config : MultiConfig
config = record {
  web = some one_token;
  ios = none;
  android = some (λ token ip action. some missing_token);
}

ios_bars : All (λ c. c ≢ b'|') platform_ios
ios_bars = ground arith

good_passes :
    captcha (some (multi_verify config)) (bytes "login") (bytes "good") [] (bytes "::1") ≡ passed
unfolding captcha multi_verify split_platform_action encode_platform_action route answer_of
    platform_of is_known index_byte drop bytes_discrete
good_passes = refl

captcha_example :
    (bytes "good" ≢ [])
    × ((v : Verifier) × (wanted config [] ≡ some v)
        × (v (bytes "good") (bytes "::1") (bytes "login") ≡ none))
captcha_example = captcha_passed config (bytes "login") (bytes "good") [] (bytes "::1") good_passes

captcha_tests :
    (captcha (some (multi_verify config)) (bytes "login") (bytes "good") [] (bytes "::1") ≡ passed)
    × (captcha
          (some (multi_verify config))
          (bytes "login")
          (bytes "bad")
          (bytes "web")
          (bytes "::1")
        ≡ forbidden (bytes "BOT_DETECTED"))
    × (captcha
          (some (multi_verify config))
          (bytes "login")
          (bytes "bad")
          (bytes "ios")
          (bytes "::1")
        ≡ passed)
    × (captcha
          (some (multi_verify config))
          (bytes "login")
          (bytes "good")
          (bytes "tv")
          (bytes "::1")
        ≡ bad_request (bytes "CAPTCHA_PLATFORM_UNKNOWN"))
unfolding captcha multi_verify split_platform_action encode_platform_action route answer_of
    platform_of is_known index_byte drop bytes_discrete
captcha_tests = (refl, refl, refl, refl)
