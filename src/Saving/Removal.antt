-- ===== src/Saving/Removal.antt =====
-- What is left of a device, and what the server gets to know, when `remove_from_map` takes it off.
use mapper.Prelude.{
  ◌≡◌, String, Option, none, some, true, false, ◌++◌, ◌&&◌, ◌||◌, [], ◌∷◌, str_eq, if◌then◌else◌,
  Has, ◌↔◌,
}
use mapper.Prelude.Obj.{Obj}
use mapper.Saving.{Sent, MapData, SaveRequest, Entries, save_query}
use mapper.Saving.Entries.{entry}
use mapper.Saving.Steps.{State, Reach, send, with_map, with_page, NoDefaultCopied}
use mapper.Saving.Operations.{DevPair, touches}
use mapper.Saving.Dropped.{is_cut}

-- A call of `save_map` that sends a request, after a change
module _ (key id : Option String) (m : MapData) (s : State) (r : SaveRequest)
    (on : s.page.enable_save ≡ true)
    (asks : save_query key id none none (with_map m s.page) ≡ some r) where
  abbrev now : State
  now = send key id none (with_page (with_map m s.page) s)

-- What `remove_from_map` does when it runs through
pub record IsRemoved (id : String) (cs : Obj DevPair) (s : State) (left : Obj DevPair) (t : State)
    : Type 0 where
  pub first : Sent
  pub second : Sent
  pub sent : t.pending ≡ s.pending ++ first ∷ second ∷ []
  pub steps : Reach s t
  pub safe : NoDefaultCopied steps
  pub entries :
      (key i : String)
      → entry key i t.page.map_data ≡ (
          if (str_eq "loc" key && str_eq id i) || (str_eq "tps" key && is_cut id i cs)
          then none
          else entry key i s.page.map_data)
  pub connections : (l : String × DevPair) → Has l left ↔ (Has l cs × (touches id l.1 ≡ false))
