-- ===== src/Auth/Calls.antt =====
-- The calls of the auth service that change state, the nightly purge and the passing of time, in any order.
pub mod Logins
pub mod Once
use tgs_hrms.Base.{ℕ, ◌+◌, Text, Option, List, [], ◌∷◌}
use tgs_hrms.Auth.{Accounts, Crypto, clock}
use tgs_hrms.Auth.Tokens.{refresh_token, logout, logout_all, purge_stale_tokens}
use tgs_hrms.Auth.Device.{LoginRequest}
use tgs_hrms.Auth.Login.{validate_user}
use tgs_hrms.Auth.Login.Google.{google_login}
use tgs_hrms.Auth.Password.{
  Registration, register, verify_email, resend_verification_email, forgot_password, reset_password,
}

pub data AuthCall : Type 0 where
  sign_in : LoginRequest → AuthCall
  google : (email platform device ip : Option Text) → AuthCall
  refresh : (text : Text) → AuthCall
  sign_out : (text : Text) → AuthCall
  sign_out_all : (user : ℕ) → AuthCall
  join : Registration → AuthCall
  confirm : (token : Text) → AuthCall
  resend : (email : Text) → AuthCall
  forgot : (email : Text) → AuthCall
  reset : (token password : Text) → AuthCall
  purge : AuthCall
  wait : ℕ → AuthCall

unfoldable pub perform : Crypto → AuthCall → Accounts → Accounts
perform c (sign_in r) s = (validate_user c r s).1
perform c (google email platform device ip) s = (google_login c email platform device ip s).1
perform c (refresh text) s = (refresh_token c text s).1
perform c (sign_out text) s = (logout c text s).1
perform c (sign_out_all user) s = (logout_all user s).1
perform c (join d) s = (register c d s).1
perform c (confirm token) s = (verify_email token s).1
perform c (resend email) s = (resend_verification_email c email s).1
perform c (forgot email) s = (forgot_password c email s).1
perform c (reset token password) s = (reset_password c token password s).1
perform c purge s = purge_stale_tokens s
perform c (wait n) s = record s { whitelist = record (s.whitelist) { now = clock s + n } }

unfoldable pub perform_all : Crypto → List AuthCall → Accounts → Accounts
perform_all c [] s = s
perform_all c (a ∷ calls) s = perform_all c calls (perform c a s)
