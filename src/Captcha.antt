-- ===== src/Captcha.antt =====
-- internal/captcha/captcha.go, internal/captcha/multi.go and internal/middleware/captcha.go: the
-- guard of the public endpoints and its dispatch by platform. A verifier is a function of the token,
-- the remote address and the action that gives an error or none.
pub mod Dispatch
mod Tests
use financentury_backend.Prelude.{
  ℕ, ◌+◌, Bool, true, false, not, ◌&&◌, ◌||◌, Option, none, some, List, [], ◌∷◌, ◌++◌, Bytes, bytes,
  bytes_discrete, ite, take, if◌then◌else◌,
}
use financentury_backend.Prelude.Text.{same, drop, index_byte}

-- `ErrCaptchaFailed`, `ErrMissingToken`, also where they are wrapped, and any other error.
pub data VerifyError : Type 0 where
  captcha_failed : VerifyError
  missing_token : VerifyError
  other_error : Bytes → VerifyError

abbrev pub Verifier : Type 0
Verifier = Bytes → Bytes → Bytes → Option VerifyError

-- `NewNoop`
abbrev pub noop : Verifier
noop token ip action = none

abbrev pub platform_web : Bytes
platform_web = bytes "web"

abbrev pub platform_ios : Bytes
platform_ios = bytes "ios"

abbrev pub platform_android : Bytes
platform_android = bytes "android"

pub record MultiConfig : Type 0 where
  pub web : Option Verifier
  pub ios : Option Verifier
  pub android : Option Verifier

-- A verifier that is not wired is the one that accepts.
abbrev pub or_noop : Option Verifier → Verifier
or_noop none = noop
or_noop (some v) = v

-- `EncodePlatformAction`
pub encode_platform_action : Bytes → Bytes → Bytes
encode_platform_action platform action = platform ++ (b'|' ∷ action)

-- `splitPlatformAction`
pub split_platform_action : Bytes → Bytes × Bytes
split_platform_action s = elim (index_byte s b'|') [
  | none ↦ ([], s)
  | some idx ↦ (take idx s, drop (idx + 1) s)
]

-- The switch of `multiVerifier.Verify`.
pub route : MultiConfig → Bytes → Option Verifier
route cfg platform =
    if same platform platform_web || same platform []
    then some (or_noop cfg.web)
    else if same platform platform_ios
    then some (or_noop cfg.ios)
    else if same platform platform_android
    then some (or_noop cfg.android)
    else none

-- `NewMulti(cfg).Verify`
pub multi_verify : MultiConfig → Verifier
multi_verify cfg token ip action =
    let (platform, real_action) = split_platform_action action in
    elim (route cfg platform) [ none ↦ some captcha_failed | some v ↦ v token ip real_action ]

-- What the guard does: 400 or 403 with a code, or the request goes on.
pub data Answer : Type 0 where
  bad_request : Bytes → Answer
  forbidden : Bytes → Answer
  passed : Answer

-- The answer to what the verifier gives.
pub answer_of : Option VerifyError → Answer
answer_of none = passed
answer_of (some missing_token) = bad_request (bytes "CAPTCHA_MISSING")
answer_of (some captcha_failed) = forbidden (bytes "BOT_DETECTED")
answer_of (some (other_error e)) = forbidden (bytes "BOT_DETECTED")

-- `if platform == "" { platform = captcha.PlatformWeb }`
pub platform_of : Bytes → Bytes
platform_of header = ite (bytes_discrete header []) platform_web header

pub is_known : Bytes → Bool
is_known platform =
    same platform platform_web || same platform platform_ios || same platform platform_android

-- `Captcha`: the token, the platform's header and the address are the request's.
pub captcha : Option Verifier → Bytes → Bytes → Bytes → Bytes → Answer
captcha verifier action token header ip =
    ite (bytes_discrete token []) (bad_request (bytes "CAPTCHA_MISSING")) (
      let platform = platform_of header in
      if is_known platform
      then answer_of (or_noop verifier token ip (encode_platform_action platform action))
      else bad_request (bytes "CAPTCHA_PLATFORM_UNKNOWN"))
