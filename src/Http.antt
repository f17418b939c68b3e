-- ===== src/Http.antt =====
-- What a request brings and what a handler answers. A page is named by its template.
use mojodns.Prelude.{List}
use mojodns.Text.{Text, ℤ}

pub data Response : Type 0 where
  redirect : Text → Response
  page : Text → Response
  no_content : Response

-- The values of app/mojodns/config.py that the modelled code reads.
pub record Settings : Type 0 where
  pub catalog_zone : Text
  pub tsig_key : Text
  pub tsig_key_names : List Text
  pub default_ns_list : List Text
  pub password_max_age_days : ℤ
  pub default_check_rate_limit : ℤ
  pub login_rate_limit : ℤ
