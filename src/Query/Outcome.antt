-- ===== src/Query/Outcome.antt =====
-- Whom an answer of the server reaches: the caller, or the user.
use mapper.Prelude.{
  ◌≡◌, refl, String, Option, none, some, Bool, true, false, not, List, [], ◌∷◌, str_eq, arith,
  if◌then◌else◌, ℕ, ◌+◌,
}
use mapper.Query.{
  text, object, Ajax, success, error, Effect, go_to_url, session_ended, no_access, call, call_empty,
  error_dialog, auth_check, answered,
}

-- Is there an answer that the caller is to get?
abbrev pub is_granted : Ajax → Bool
is_granted (error t) = false
is_granted (success res) = elim res.ok [
  | none ↦ false
  | some (text s) ↦ not (str_eq s "noauth")
  | some (object none) ↦ true
  | some (object (some f)) ↦ not (str_eq f "noaccess")
]

-- What the caller and the user see
abbrev is_seen_by_caller : Effect → Bool
is_seen_by_caller (call r) = true
is_seen_by_caller call_empty = true
is_seen_by_caller e = false

abbrev is_seen_by_user : Effect → Bool
is_seen_by_user (go_to_url u) = true
is_seen_by_user session_ended = true
is_seen_by_user no_access = true
is_seen_by_user (error_dialog s) = true
is_seen_by_user e = false

abbrev pub count : (Effect → Bool) → List Effect → ℕ
count p [] = 0
count p (e ∷ es) = (if p e then 1 else 0) + count p es

abbrev pub users : List Effect → ℕ
users = count is_seen_by_user

-- What the caller gets
abbrev pub calls : List Effect → List Effect
calls [] = []
calls (e ∷ es) = if is_seen_by_caller e then e ∷ calls es else calls es

abbrev pub the_call : Ajax → List Effect
the_call (error t) = []
the_call (success res) = call res ∷ []

-- However a query with a callback ends, exactly one is told, once: when the server's answer has an "ok"
-- that is neither "noauth" nor an object with "noaccess" as its "fail", the caller gets the answer and
-- the user no dialog, and else the caller gets nothing, and the user one dialog or another page.
pub answered_lem :
    (debug : Bool) (with_location : String → String) (request_error : Option String → String)
    (a : Ajax)
    → (calls (answered debug with_location request_error true a)
        ≡ (if is_granted a then the_call a else []))
      × (users (answered debug with_location request_error true a)
          ≡ (if is_granted a then 0 else 1))
unfolding answered auth_check
answered_lem debug w r (error t) = (refl, refl)
answered_lem debug w r (success res) = ground arith
