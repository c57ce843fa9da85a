-- ===== src/Offline/Answer/Closure.antt =====
-- The search for a MAC address, with the searches for its addresses that follow.
use mapper.Prelude.{
  ◌≡◌, refl, ◌∙◌, ◌↔◌, ◌⊎◌, inl, inr, ◌≢◌, String, Option, none, some, List, [], ◌∷◌, str_eq,
  eq_iff, arith, Has, Bool-cases, Option-cases, if◌then◌else◌,
}
use mapper.Prelude.Obj.{Obj, get, set, get-set}
use mapper.Offline.{OfflineData, in_array, append_once}
use mapper.Offline.MacSearch.{
  search_mac_info, in_array-Has, in_array-true, Has-append_once, InArp, mac_ips_lem,
}
use mapper.Offline.IpSearch.{IpInfo, search_ip_info}
use mapper.Offline.Search.{no_hits}
use mapper.Offline.Answer.{
  OriginType, known_ip, fill_ips, fill_macs, append_each, SearchResult, finish_search, search_mac,
}

Has-append_each :
    (x : String) (list xs : List String) → Has x (append_each list xs) ↔ (Has x list ⊎ Has x xs)
unfolding append_each
Has-append_each x list [] = (λ h. inl h, λ h. elim h [ inl a ↦ a | inr b ↦ absurd b ])
Has-append_each x list (y ∷ xs) =
    let (there, back) = Has-append_each x (append_once list y) xs in
    let (one, eno) = Has-append_once x y list in
    (
      λ h. elim (there h) [
        | inl a ↦ elim (one a) [ inl b ↦ inl b | inr e ↦ inr (inl e) ]
        | inr c ↦ inr (inr c)
      ],
      λ h. elim h [
        | inl b ↦ back (inl (eno (inl b)))
        | inr c ↦ elim c [ inl e ↦ back (inl (eno (inr e))) | inr d ↦ back (inr d) ]
      ],
    )

module _ (od : OfflineData) where
  -- What is stored for an address is what its search returns.
  abbrev IsFine : Obj (Option IpInfo) → Type 0
  IsFine ips = (j : String) → (get j ips ≡ none) ⊎ (get j ips ≡ some (search_ip_info od j))

  abbrev filled : String → Obj (Option IpInfo) → Obj (Option IpInfo)
  filled ip ips = if known_ip (get ip ips) then ips else set ip (search_ip_info od ip) ips

  get-filled :
      (ip j : String) (ips : Obj (Option IpInfo))
      → IsFine ips
      → get j (filled ip ips) ≡ (if str_eq ip j then some (search_ip_info od j) else get j ips)
  get-filled ip j ips fine = elim (Bool-cases (known_ip (get ip ips))) [
    | inl p ↦ elim (fine ip) [
      | inl q ↦ absurd (ground (arith, p, q))
      | inr q ↦ elim (Bool-cases (str_eq ip j)) [
        | inl r ↦ let e : ip ≡ j = (eq_iff ip j).0 r in rw (p, r) (rw e at q)
        | inr r ↦ rw (p, r) refl
      ]
    ]
    | inr p ↦ elim (Bool-cases (str_eq ip j)) [
      | inl r ↦
          let e : ip ≡ j = (eq_iff ip j).0 r in
          rw p (get-set j ip (search_ip_info od ip) ips ∙ rw (r, e) refl)
      | inr r ↦ rw p (get-set j ip (search_ip_info od ip) ips ∙ rw r refl)
    ]
  ]

  filled-IsFine : (ip : String) (ips : Obj (Option IpInfo)) → IsFine ips → IsFine (filled ip ips)
  filled-IsFine ip ips fine j = elim (Bool-cases (str_eq ip j)) [
    | inl r ↦ inr (get-filled ip j ips fine ∙ rw r refl)
    | inr r ↦ rw (get-filled ip j ips fine, r) (fine j)
  ]

  get-fill_ips :
      (list : List String) (ips : Obj (Option IpInfo)) (j : String)
      → IsFine ips
      → get j (fill_ips od list ips)
        ≡ (if in_array list j then some (search_ip_info od j) else get j ips)
  unfolding fill_ips in_array
  get-fill_ips [] ips j fine = refl
  get-fill_ips (ip ∷ list) ips j fine =
      get-fill_ips list (filled ip ips) j (filled-IsFine ip ips fine)
      ∙ ground (arith, get-filled ip j ips fine)

  -- A search for a MAC address that ends without a TypeError returns what is known of it, and besides
  -- what is known of each address that some device has for it in its ARP table, and of no other.
  pub search_mac_lem :
      (m : String) (f : SearchResult)
      → search_mac od m ≡ some f
      → (get m f.macs ≡ search_mac_info od m)
        × ((ip : String) → InArp od.arp m ip → get ip f.ips ≡ some (search_ip_info od ip))
        × ((ip : String) → get ip f.ips ≢ none → InArp od.arp m ip)
  unfolding search_mac finish_search fill_macs get
  search_mac_lem m f e = elim (Option-cases (search_mac_info od m)) [
    | inl p ↦ absurd (ground (arith, p, e))
    | inr (info, p) ↦
        let list = append_each [] info.arps.ips in
        let same : record {
          origin = m;
          origin_type = OriginType.mac;
          ips = fill_ips od list [];
          macs = (m, info) ∷ [];
          hits = no_hits;
        }
            ≡ f =
          ground (arith, p, e, eq_iff m m) in
        let found = λ (ip : String). get-fill_ips list [] ip (λ j. inl refl) in
        rw (← same) (
          ground (arith, p, eq_iff m m),
          λ ip t.
              found ip
              ∙ rw
                  (in_array-true ip list (
                    (Has-append_each ip [] info.arps.ips).1
                      (inr ((mac_ips_lem od m info p ip).1 t))))
                  refl,
          λ ip ne. elim (Bool-cases (in_array list ip)) [
            | inl q ↦ elim ((Has-append_each ip [] info.arps.ips).0 (in_array-Has ip list q)) [
              | inl a ↦ absurd a
              | inr b ↦ (mac_ips_lem od m info p ip).0 b
            ]
            | inr q ↦ absurd (ne (found ip ∙ rw q refl))
          ],
        )
  ]
