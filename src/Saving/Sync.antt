-- ===== src/Saving/Sync.antt =====
-- The page and the server stay in sync.
use mapper.Prelude.{
  ◌≡◌, refl, sym, ◌∙◌, ◌⊎◌, String, Option, none, some, true, ◌&&◌, List, [], ◌∷◌, ◌++◌, str_eq,
  eq_iff, arith, if◌then◌else◌, Bool-cases, inl, inr,
}
use mathlib.Core.Path.{subst}
use mapper.Saving.{
  MapData, MapPage, Sent, Files, SaveRequest, save_map_all, save_query, save_map, answered,
  read_file, handle,
}
use mapper.Saving.Entries.{Agree}
use mapper.Saving.Requests.{Off, handle-save_query, handle-save_query_default}
use mapper.Saving.Steps.{
  State, Step, edit, copy_to, serve, answer, Reach, here, next, with_map, with_page, send, after,
  copy_of, Untouched, InSync, CopiesNoDefault, NoDefaultCopied,
}

after-append :
    (qs : List Sent) (q : Sent) (fs : Files)
    → after (qs ++ q ∷ []) fs ≡ handle q.request (after qs fs)
unfolding after
after-append [] q fs = refl
after-append (x ∷ qs) q fs = after-append qs q (handle x.request fs)

Off-trans : (key id : Option String) (a b c : MapData) → Agree a b → Off key id b c → Off key id a c
Off-trans none id a b c h k = tt
Off-trans (some x) none a b c h k = λ key id m ne. h key id m ∙ k key id m ne
Off-trans (some x) (some i) a b c h k = λ key id m ne. h key id m ∙ k key id m ne

-- A request that was sent
pub sent_lem :
    (key id fk : Option String) (s : State) (r : SaveRequest)
    → s.page.enable_save ≡ true
    → save_query key id fk none s.page ≡ some r
    → send key id fk s ≡ record s { pending = s.pending ++ record { request = r; fk = fk } ∷ [] }
unfolding send save_map
sent_lem key id fk s r on e = ground (arith, on, e)

-- What was sent last brings the copy up to date.
module _ (key id : Option String) (p : MapPage) (qs : List Sent) (fs : Files)
    (r : SaveRequest) where
  abbrev copy_then : MapData
  copy_then = read_file p.file_key (after (qs ++ record { request = r; fk = none } ∷ []) fs)

  edited :
      save_query key id none none p ≡ some r
      → Off key id (read_file p.file_key (after qs fs)) p.map_data
      → Agree copy_then p.map_data
  edited e off =
      rw (after-append qs (record { request = r; fk = none }) fs)
        (handle-save_query key id none p (after qs fs) r e off).0

  edited_default :
      save_query key id none none p ≡ some r
      → p.default_map ≡ true
      → p.file_key ≡ ""
      → Agree copy_then p.map_data
  edited_default e d f =
      rw (after-append qs (record { request = r; fk = none }) fs)
        (handle-save_query_default key id p (after qs fs) r e d f)

-- A copy to the page's own file
copied_own :
    (fk : String) (p : MapPage) (qs : List Sent) (fs : Files) (r : SaveRequest)
    → save_query none none (some fk) none p ≡ some r
    → fk ≡ p.file_key
    → Agree
        (read_file p.file_key (after (qs ++ record { request = r; fk = some fk } ∷ []) fs))
        p.map_data
copied_own fk p qs fs r e own =
    rw (after-append qs (record { request = r; fk = some fk }) fs)
      (let new = (handle-save_query none none (some fk) p (after qs fs) r e tt).0 in rw own at new)

copied :
    (fk : String) (p : MapPage) (qs : List Sent) (fs : Files) (r : SaveRequest)
    → save_query none none (some fk) none p ≡ some r
    → Agree (read_file p.file_key (after qs fs)) p.map_data
    → Agree
        (read_file p.file_key (after (qs ++ record { request = r; fk = some fk } ∷ []) fs))
        p.map_data
copied fk p qs fs r e agree =
    let (new, others) = handle-save_query none none (some fk) p (after qs fs) r e tt in
    rw (after-append qs (record { request = r; fk = some fk }) fs)
      (elim (Bool-cases (str_eq fk p.file_key)) [
        | inl same ↦ let q : fk ≡ p.file_key = (eq_iff fk p.file_key).0 same in rw q at new
        | inr other ↦
            rw (others p.file_key (λ q. ground (arith, other, q, eq_iff fk p.file_key))) agree
      ])

-- The request of a copy is the whole map.
copy_request :
    (fk : String) (p : MapPage)
    → (r : SaveRequest) × (save_query none none (some fk) none p ≡ some r)
unfolding save_query
copy_request fk p = (
  if p.default_map && str_eq fk "" then save_map_all fk p.map_data else save_map_all fk p.map_data,
  refl,
)

answered-InSync :
    (fk : Option String) (s : State) (rest : List Sent)
    → s.page.enable_save ≡ true
    → Agree (copy_of s) s.page.map_data
    → InSync (record s { page = answered fk s.page; served = rest })
answered-InSync none s rest on agree = (on, inl agree)
answered-InSync (some fk) s rest on agree = (on, inl agree)

-- Every step but the copy of a default map keeps the page and the server in sync.
pub Step-InSync : {s t : State} (step : Step s t) → CopiesNoDefault step → InSync s → InSync t
unfolding after
Step-InSync (edit s m key id r off e) safe (on, now) =
    rw (sent_lem key id none (with_page (with_map m s.page) s) r on e) (
      on,
      inl (elim now [
        | inl agree ↦
            edited key id (with_map m s.page) s.pending s.files r e
              (Off-trans key id _ _ _ agree off)
        | inr (d, f, _, _) ↦ edited_default key id (with_map m s.page) s.pending s.files r e d f
      ]),
    )
Step-InSync (copy_to s fk) safe (on, now) =
    let (r, e) = copy_request fk s.page in
    rw (sent_lem none none (some fk) s r on e) (
      on,
      elim now [
        | inl agree ↦ inl (copied fk s.page s.pending s.files r e agree)
        | inr (d, f, _, _) ↦ elim safe [
          | inl no_default ↦ absurd (cc (d, no_default))
          | inr own ↦ inl (copied_own fk s.page s.pending s.files r e (own ∙ sym f))
        ]
      ],
    )
Step-InSync (serve s q rest e) safe (on, now) = (
  on,
  elim now [
    | inl agree ↦
        inl (
          subst (λ qs. Agree (read_file s.page.file_key (after qs s.files)) s.page.map_data) e
            agree)
    | inr u ↦ absurd (ground (arith, e, u))
  ],
)
Step-InSync (answer s q rest e) safe (on, now) = elim now [
  | inl agree ↦ answered-InSync q.fk s rest on agree
  | inr u ↦ absurd (ground (arith, e, u))
]

pub Reach-InSync : {s t : State} (r : Reach s t) → NoDefaultCopied r → InSync s → InSync t
Reach-InSync here safe h = h
Reach-InSync (next r step) (before, safe) h = Step-InSync step safe (Reach-InSync r before h)

-- When saving is on, and the server has the map that the page shows, or the page shows an untouched
-- default map, then, whatever is changed where `save_map` is called to save it, copied, served and
-- answered in whatever order, but that a default map is not copied to another file, once the server
-- has seen all that was sent, its copy of the page's file has the entries of the page's map, or the
-- map is still an untouched default map.
pub saved_lem :
    {s t : State} (r : Reach s t)
    → NoDefaultCopied r
    → InSync s
    → t.pending ≡ []
    → Agree (read_file t.page.file_key t.files) t.page.map_data ⊎ Untouched t
unfolding after
saved_lem {s} {t} r safe h none_left = elim (Reach-InSync r safe h).1 [
  | inl agree ↦ inl (
      subst (λ qs. Agree (read_file t.page.file_key (after qs t.files)) t.page.map_data) none_left
        agree)
  | inr u ↦ inr u
]
