-- ===== src/Usecase/Auth/Credentials/Tests.antt =====
-- The pattern of emails at work.
use payment_processing.Prelude.{◌≡◌, ◌↔◌, refl, true, false, codes}
use payment_processing.Usecase.Auth.Credentials.{match_email}
use payment_processing.Usecase.Auth.Credentials.Pattern.{IsEmail, match_email-IsEmail_iff}

match_email-IsEmail_iff_example :
    (match_email (codes "a.b@cd-e.fg") ≡ true) ↔ IsEmail (codes "a.b@cd-e.fg")
match_email-IsEmail_iff_example = match_email-IsEmail_iff (codes "a.b@cd-e.fg")

an_email : match_email (codes "a.b@cd-e.fg") ≡ true
unfolding match_email
an_email = refl

no_email : match_email (codes "a.b@cd-.fg") ≡ false
unfolding match_email
no_email = refl
