-- ===== src/Query/Examples.antt =====
-- Answers of the server, as a session ends or goes on.
use mapper.Prelude.{◌≡◌, refl, String, Option, none, some, true, false, [], ◌∷◌}
use mapper.Query.{
  text, object, Reply, success, error, go_to_url, call, error_dialog, indicator_red, post,
  debug_log, auth_check, answered, run_query,
}
use mapper.Query.Outcome.{calls, users, answered_lem}

abbrev at_login : String → String
at_login url = url

abbrev failed : Option String → String
failed none = "AJAX request error"
failed (some t) = t

abbrev expired : Reply
expired = record { ok = some (text "noauth"); auth_url = some "/login"; error = none; json = "{}" }

abbrev granted : Reply
granted = record { ok = some (object none); auth_url = none; error = none; json = "{}" }

expired_run : answered false at_login failed true (success expired) ≡ go_to_url "/login" ∷ []
unfolding answered auth_check
expired_run = refl

failed_run :
    answered false at_login failed true (error none)
    ≡ error_dialog "AJAX request error" ∷ indicator_red ∷ []
unfolding answered
failed_run = refl

posted_run : run_query false true (some "{}") true ≡ debug_log "{}" ∷ post "{}" ∷ []
unfolding run_query
posted_run = refl

answered_lem_example :
    (calls (answered true at_login failed true (success granted)) ≡ call granted ∷ [])
    × (users (answered true at_login failed true (success granted)) ≡ 0)
answered_lem_example = answered_lem true at_login failed (success granted)
