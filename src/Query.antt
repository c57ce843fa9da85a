-- ===== src/Query.antt =====
-- Queries to the server: `run_query` and `auth_check` of map-broker/www/mylib/js/myjslib.js, as the list
-- of what they do to the page, in order. What comes back from the server is an argument.
pub mod Outcome
mod Examples
use mapper.Prelude.{
  String, Option, none, some, Bool, true, false, ◌&&◌, List, [], ◌∷◌, ◌++◌, str_eq, if◌then◌else◌,
}

-- `data["ok"]`, a text or an object with or without a text under "fail"
pub data Ok : Type 0 where
  text : String → Ok
  object : Option String → Ok

-- `data["error"]`, a text or something else, by its JSON text
pub data ErrorField : Type 0 where
  message : String → ErrorField
  other : String → ErrorField

-- The answer of the server, with its JSON text
pub record Reply : Type 0 where
  pub ok : Option Ok
  pub auth_url : Option String
  pub error : Option ErrorField
  pub json : String

-- How the request ends: with an answer, or with the text of the one that was no JSON, if any.
pub data Ajax : Type 0 where
  success : Reply → Ajax
  error : Option String → Ajax

pub data Effect : Type 0 where
  debug_log : String → Effect
  -- `window.location = url`
  go_to_url : String → Effect
  session_ended : Effect
  no_access : Effect
  -- `successfunc(data)` and `successfunc()`
  call : Reply → Effect
  call_empty : Effect
  error_dialog : String → Effect
  indicator_red : Effect
  -- `offline_query(query, successfunc)`
  to_offline : Effect
  -- `$.ajax`
  post : String → Effect

abbrev fail_of : Ok → Option String
fail_of (text s) = none
fail_of (object f) = f

abbrev is_text : String → Option String → Bool
is_text s none = false
is_text s (some t) = str_eq t s

abbrev ok_text : Ok → Option String
ok_text (text s) = some s
ok_text (object f) = none

-- `(res["auth_url"] + encodeURIComponent(window.location))`
abbrev go_to : (String → String) → Option String → List Effect
go_to with_location none = session_ended ∷ []
go_to with_location (some url) = go_to_url (with_location url) ∷ []

-- `auth_check(res)` where `res` has an `ok`, with `userinfo` where access is refused, as the server
-- sends it
unfoldable pub auth_check : (String → String) → Ok → Reply → List Effect × Bool
auth_check with_location ok res =
    if is_text "noauth" (ok_text ok)
    then (go_to with_location res.auth_url, false)
    else if is_text "noaccess" (fail_of ok)
    then (no_access ∷ [], false)
    else ([], true)

abbrev logged : Bool → String → List Effect
logged debug s = if debug then debug_log s ∷ [] else []

abbrev called : Bool → Reply → List Effect
called has_func res = if has_func then call res ∷ [] else []

abbrev after_check : Bool → Reply → List Effect × Bool → List Effect
after_check has_func res (done, passed) = done ++ (if passed then called has_func res else [])

abbrev message_of : Reply → Option ErrorField → String
message_of res none = res.json
message_of res (some (message s)) = s
message_of res (some (other s)) = s

abbrev shown_error : String → List Effect
shown_error s = error_dialog s ∷ indicator_red ∷ []

-- The function under `success`
abbrev pub on_success : Bool → (String → String) → Bool → Option Ok → Reply → List Effect
on_success debug with_location has_func none res = shown_error (message_of res res.error)
on_success debug with_location has_func (some ok) res =
    logged debug res.json ++ after_check has_func res (auth_check with_location ok res)

-- "AJAX request error\n" and the text of the answer
abbrev ajax_error : (Option String → String) → Option String → List Effect
ajax_error request_error t = shown_error (request_error t)

-- What `$.ajax` calls back
unfoldable pub answered :
    Bool → (String → String) → (Option String → String) → Bool → Ajax → List Effect
unfolding auth_check
answered debug with_location request_error has_func (success res) =
    on_success debug with_location has_func res.ok res
answered debug with_location request_error has_func (error t) = ajax_error request_error t

abbrev call_without : Bool → List Effect
call_without has_func = if has_func then call_empty ∷ [] else []

-- `run_query`, up to the answer: `query` by its JSON text, if it is not undefined
unfoldable pub run_query : Bool → Bool → Option String → Bool → List Effect
run_query offline debug query has_func =
    if offline
    then to_offline ∷ []
    else elim query [ none ↦ call_without has_func | some q ↦ logged debug q ++ post q ∷ [] ]
