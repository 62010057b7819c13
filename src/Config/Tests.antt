-- ===== src/Config/Tests.antt =====
-- The theorems on the settings at work: the defaults, with and without a malformed variable.
use payment_processing.Prelude.{
  ◌≡◌, ◌≢◌, ◌↔◌, refl, inl, inr, none, some, [], codes, eq_bytes, ok, trim_space, trim_left,
  trim_right, if◌then◌else◌, eq_bytes_iff, false, true, arith,
}
use payment_processing.Prelude.Int.{pos, negsuc}
use payment_processing.Decimal.Parse.{NumError, parse_int, scan_uint}
use payment_processing.Config.{validate}
use payment_processing.Config.Validation.{IsValid, validate-IsValid_iff}
use payment_processing.Config.Load.{Env, Platform, not_exist, load, load_dot_env}
use payment_processing.Config.Load.Checked.{load-Malformed, Malformed}
use payment_processing.Config.Load.Defaults.{
  Required, IsGiven, minimal_env, minimal_config, load_minimal, set_env, access_ttl_key,
  with_access_ttl, load_access_ttl_malformed,
}

abbrev platform : Platform
platform = record {
  parse_duration = λ text. if eq_bytes text (codes "1m") then some (pos 60000000000) else none;
  load_dotenv = λ _. not_exist;
}

abbrev given : Required
given = record {
  dbname = codes "bank";
  user = codes "admin";
  password = codes " secret ";
  access_secret = codes "a";
  refresh_secret = codes "r";
}

given-IsGiven : IsGiven given
unfolding trim_space trim_left trim_right eq_bytes
given-IsGiven = record {
  dbname = λ h. cc;
  user = λ h. cc;
  password = λ h. cc;
  access_secret = λ h. cc;
  refresh_secret = λ h. cc;
  secrets_differ = λ h. let no : false ≡ true = (eq_bytes_iff (codes "a") (codes "r")).1 h in cc;
}

load_minimal_example : load platform (minimal_env given) ≡ ok (minimal_config given)
load_minimal_example = load_minimal platform given refl given-IsGiven

validate-IsValid_iff_example :
    (validate (minimal_config given) ≡ []) ↔ IsValid (minimal_config given)
validate-IsValid_iff_example = validate-IsValid_iff (minimal_config given)

-- A limit that is no number.
abbrev bad_env : Env
bad_env = set_env (codes "RATE_LIMIT_PER_HOUR") (codes "many") (minimal_env given)

bad_env-Malformed : Malformed platform bad_env
unfolding eq_bytes trim_space trim_left trim_right parse_int scan_uint
bad_env-Malformed =
    Malformed.int (codes "RATE_LIMIT_PER_HOUR") NumError.syntax (inr (inr (inr (inr (inl refl)))))
      (λ h. cc) refl

load-Malformed_example : load platform bad_env ≢ ok (minimal_config given)
unfolding load_dot_env
load-Malformed_example =
    load-Malformed platform bad_env bad_env (minimal_config given) refl bad_env-Malformed

load_access_ttl_malformed_example :
    load platform (set_env access_ttl_key (codes "15") (minimal_env given))
    ≡ ok (with_access_ttl (negsuc 0) (minimal_config given))
unfolding trim_space trim_left trim_right eq_bytes
load_access_ttl_malformed_example =
    load_access_ttl_malformed platform (minimal_env given) (codes "15") (minimal_config given)
      (λ _. refl) load_minimal_example (omega arith) (λ h. cc) refl
