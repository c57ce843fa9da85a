-- ===== src/Saving/Steps.antt =====
-- The page and the server together: changes of the map with the requests that they send, the server
-- that takes the requests in the order in which they were sent, and its answers, in the same order.
use mapper.Prelude.{◌≡◌, ◌⊎◌, String, Option, none, some, true, false, List, [], ◌∷◌, ◌++◌}
use mapper.Saving.{
  MapData, MapPage, Sent, Files, SaveRequest, save_query, save_map, answered, read_file, handle,
}
use mapper.Saving.Entries.{Agree}
use mapper.Saving.Requests.{Off}

pub record State : Type 0 where
  pub page : MapPage
  -- What the server has not seen yet, and what the page has no answer to yet
  pub pending : List Sent
  pub served : List Sent
  pub files : Files

-- `map_data` is changed in place.
abbrev pub with_map : MapData → MapPage → MapPage
with_map m p = record p { map_data = m }

abbrev pub append_sent : MapPage × List Sent → State → State
append_sent (p, q) s = record s { page = p; pending = s.pending ++ q }

-- A call of `save_map(key, id, fk)`
unfoldable pub send : Option String → Option String → Option String → State → State
unfolding save_map
send key id fk s = append_sent (save_map key id fk none s.page) s

abbrev pub with_page : MapPage → State → State
with_page p s = record s { page = p }

pub data Step : State → State → Type 0 where
  -- The map is changed where `save_map(key, id)` saves it, which does not throw.
  edit :
      (s : State) (m : MapData) (key id : Option String) (r : SaveRequest)
      → Off key id s.page.map_data m
      → save_query key id none none (with_map m s.page) ≡ some r
      → Step s (send key id none (with_page (with_map m s.page) s))
  -- The map is copied to a file.
  copy_to : (s : State) (fk : String) → Step s (send none none (some fk) s)
  serve :
      (s : State) (q : Sent) (rest : List Sent)
      → s.pending ≡ q ∷ rest
      → Step s (record s {
        pending = rest;
        served = s.served ++ q ∷ [];
        files = handle q.request s.files;
      })
  answer :
      (s : State) (q : Sent) (rest : List Sent)
      → s.served ≡ q ∷ rest
      → Step s (record s { page = answered q.fk s.page; served = rest })

pub data Reach (s : State) : State → Type 0 where
  here : Reach s s
  next : {t u : State} → Reach s t → Step t u → Reach s u

-- A default map is not copied to another file than its own.
abbrev pub CopiesNoDefault : {s t : State} → Step s t → Type 0
CopiesNoDefault (edit s m key id r off e) = Unit
CopiesNoDefault (copy_to s fk) = (s.page.default_map ≡ false) ⊎ (fk ≡ "")
CopiesNoDefault (serve s q rest e) = Unit
CopiesNoDefault (answer s q rest e) = Unit

abbrev pub NoDefaultCopied : {s t : State} → Reach s t → Type 0
NoDefaultCopied here = Unit
NoDefaultCopied (next r step) = NoDefaultCopied r × CopiesNoDefault step

-- The files when all that was sent is served
unfoldable pub after : List Sent → Files → Files
after [] fs = fs
after (q ∷ qs) fs = after qs (handle q.request fs)

-- The server's copy of the page's file
abbrev pub copy_of : State → MapData
copy_of s = read_file s.page.file_key (after s.pending s.files)

-- A default map that nobody has touched
abbrev pub Untouched : State → Type 0
Untouched s =
    (s.page.default_map ≡ true) × (s.page.file_key ≡ "") × (s.pending ≡ []) × (s.served ≡ [])

abbrev pub InSync : State → Type 0
InSync s = (s.page.enable_save ≡ true) × (Agree (copy_of s) s.page.map_data ⊎ Untouched s)
