-- ===== src/Tests/Addresses.antt =====
-- The addresses of tenant 1: an office, and what a request with its IPv6 spelling is answered.
use tgs_hrms.Base.{
  ◌≡◌, refl, Text, codes, text_eq, true, false, none, some, List, [], ◌∷◌, ok, arith, lower,
  lower_char,
}
use tgs_hrms.IpWhitelist.{
  Whitelist, normalize_ip, add_ip, remove_ip, drop_prefix, is_dotted, load_ips, set_restriction,
  is_ip_whitelisted, ip_whitelist_guard,
}
use tgs_hrms.Settings.{
  get_boolean, get, map_get, load_tenant, set, map_set, map_of, upsert, write_rows,
}
use tgs_hrms.IpWhitelist.Normal.{remove_ip-add_ip}
use tgs_hrms.IpWhitelist.Cached.{
  IpStep, add_one, turn, ask, wait, run_ips, step_ips, IsCoherent, ip_whitelist_guard_lem,
}

abbrev office : Text
office = codes "10.0.0.7"

abbrev mapped_office : Text
mapped_office = codes "::FFFF:10.0.0.7"

abbrev empty : Whitelist
empty = record {
  rows = [];
  cache = λ t. none;
  settings = record { rows = []; cache = λ t. none };
  now = 0;
}

empty-IsCoherent : IsCoherent empty
empty-IsCoherent t e h = ground arith

abbrev calls : List IpStep
calls = turn 1 (codes "true") ∷ ask 1 office ∷ wait 10 ∷ add_one 1 mapped_office ∷ ask 1 office ∷ []

spelled : normalize_ip mapped_office ≡ office
unfolding normalize_ip drop_prefix text_eq lower lower_char is_dotted
spelled = refl

remove_ip-add_ip_example : (remove_ip 1 office (add_ip 1 mapped_office empty).1).1.rows ≡ []
unfolding add_ip normalize_ip drop_prefix text_eq lower lower_char is_dotted
remove_ip-add_ip_example =
    remove_ip-add_ip 1 mapped_office office empty (record { tenant_id = 1; ip_address = office })
      refl refl

ip_whitelist_guard_lem_example :
    (ip_whitelist_guard false false
      (some 1)
      (some (codes "employee"))
      office
      (run_ips calls empty)).0
    ≡ ok true
unfolding normalize_ip drop_prefix text_eq lower lower_char is_dotted get_boolean get map_get
    load_tenant run_ips step_ips is_ip_whitelisted add_ip set_restriction set map_set map_of upsert
    load_ips write_rows
ip_whitelist_guard_lem_example =
    ip_whitelist_guard_lem calls 1 (some (codes "employee")) office empty empty-IsCoherent refl
