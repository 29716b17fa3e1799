-- ===== src/Api/Health.antt =====
-- api/health_checks.py. What the environment, the database and the metrics answer is given: `url` is
-- `DATABASE_URL`, `probe` whether `SELECT 1` goes through, `available` that of the collectors, where
-- they can be imported. The log is left out.
use ligp_v.Prelude.{Bool, not, Option, none, some, if◌then◌else◌, String, truthy, string_eq, ◌==◌}

unfoldable pub check_database : Option String → Bool → String
check_database url probe =
    if not (truthy url) then "not_configured" else if probe then "connected" else "disconnected"

unfoldable pub check_metrics : Option Bool → String
check_metrics none = "disabled"
check_metrics (some available) = if available then "enabled" else "disabled"

pub record Components : Type 0 where
  pub database : String
  pub metrics : String

pub record Body : Type 0 where
  pub status : String
  pub timestamp : String
  pub components : Components

unfoldable pub health_report : Option String → Bool → Option Bool → String → Body × Bool
health_report url probe available now =
    let components : Components = record {
      database = check_database url probe;
      metrics = check_metrics available;
    } in
    let healthy = not (components.database == "disconnected") in
    (
      record {
        status = if healthy then "healthy" else "unhealthy";
        timestamp = now;
        components = components;
      },
      healthy,
    )
