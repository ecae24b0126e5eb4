-- ===== src/Auth/Device.antt =====
-- The request to sign in, and src/common/utils/mobile-detection.ts, which tells whether it is a
-- mobile device's.
use tgs_hrms.Base.{
  Text, codes, text_eq, lower, Bool, true, false, ◌&&◌, ◌||◌, Option, none, some, List, [], ◌∷◌,
  any, ◌==◌,
}

-- the body and the headers of a request to sign in
pub record LoginRequest : Type 0 where
  pub email : Text
  pub password : Text
  pub platform : Option Text
  pub device_info : Option Text
  pub ip_address : Option Text
  pub user_agent : Option Text
  pub app_platform : Option Text

-- a text begins with another
unfoldable pub starts : Text → Text → Bool
starts [] s = true
starts (a ∷ p) [] = false
starts (a ∷ p) (b ∷ s) = (a == b) && starts p s

unfoldable pub contains : Text → Text → Bool
unfolding starts
contains p [] = starts p []
contains p (b ∷ s) = starts p (b ∷ s) || contains p s

-- `MOBILE_PLATFORMS` and `MOBILE_UA_PATTERNS`, whose patterns are plain texts without regard to case
abbrev pub mobile_platforms : List Text
mobile_platforms = codes "mobile" ∷ codes "ios" ∷ codes "android" ∷ []

abbrev pub mobile_agents : List Text
mobile_agents =
    codes "android"
    ∷ codes "iphone"
    ∷ codes "ipad"
    ∷ codes "ipod"
    ∷ codes "react-native"
    ∷ codes "okhttp"
    ∷ codes "dart"
    ∷ codes "expo"
    ∷ []

abbrev pub among : Option Text → List Text → Bool
among none names = false
among (some p) names = any (text_eq (lower p)) names

abbrev pub is_mobile_agent : Option Text → Bool
is_mobile_agent none = false
is_mobile_agent (some agent) = any (λ p. contains p (lower agent)) mobile_agents

unfoldable pub is_mobile_request : LoginRequest → Bool
is_mobile_request r =
    among r.platform mobile_platforms
    || among r.app_platform mobile_platforms
    || is_mobile_agent r.user_agent
