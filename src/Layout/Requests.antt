-- ===== src/Layout/Requests.antt =====
-- What the links of an interface ask for, in `arrange_interfaces_dev2tp` and
-- `arrange_interfaces_dev2dev`: a place near a turnpoint or near a device.
use mapper.Prelude.{
  ℕ, String, Option, none, some, Bool, ◌&&◌, List, [], ◌∷◌, length, str_eq, ◌==◌, if◌then◌else◌,
}
use mapper.Prelude.IntMap.{IntMap}
use mapper.Prelude.IntMap
use mapper.Prelude.Obj.{Obj, get}
use mapper.Turnpoints.{Endpoint, Turnpoint, Shape, Leg}
use mapper.Connections.Build.{Connection}
use mapper.Arrange.{Point, distance, Candidate, closest}
use mapper.Layout.Target.{Box, center_of, frame_of, target_point}

-- The device that is arranged, and what the two functions read of the rest.
pub record Device : Type 0 where
  pub id : String
  pub box : Box
  pub int_size : ℕ
  pub int_half : ℕ
  pub rows : ℕ
  pub cols : ℕ
  -- `interfaces_sorted`, and those of them with `_draw` 1 and with an element on the page
  pub ints : List String
  pub drawn : String → Bool
  pub shown : String → Bool
  -- the links of an interface on the site that is shown, `l2_links` or `l3_links`, after `sort`
  pub links : String → List String
  pub connections : Obj Connection
  pub tps : Obj (IntMap Turnpoint)
  -- the elements of other devices on the page
  pub boxes : String → Option Box

abbrev is_end : Endpoint → String → String → Bool
is_end e dev int = str_eq e.dev dev && str_eq e.int int

-- The other end of the connection; `none` is a "Connections error".
unfoldable pub neighbour : Connection → String → String → Option Endpoint
neighbour c dev int =
    if is_end c.from dev int then some c.to else if is_end c.to dev int then some c.from else none

-- What a link asks for: nothing, an error that ends the function, or a place near something.
pub data Request : Type 0 where
  fail idle : Request
  near : Candidate → Request

candidate : Device → Point → String → Option String → Candidate
candidate d to link_id dev_id = record {
  distance = distance to (center_of d.box);
  x = to.x;
  y = to.y;
  link_id = link_id;
  dev_id = dev_id;
}

-- The turnpoint at the first leg of the interface
unfoldable pub first_tp : String → String → List Leg → Option ℕ
first_tp dev int [] = none
first_tp dev int (Shape.devtp e tp ∷ legs) =
    let rest = first_tp dev int legs in if is_end e dev int then some tp else rest
first_tp dev int (Shape.devdev f t ∷ legs) = first_tp dev int legs
first_tp dev int (Shape.tptp f t ∷ legs) = first_tp dev int legs

-- `map_data["tps"][link_id][tp]` is there, and is no turnpoint between two others.
unfoldable pub beside_device : Option (IntMap Turnpoint) → ℕ → Option Point
beside_device none tp = none
beside_device (some m) tp = elim (IntMap.get tp m) [
  | none ↦ none
  | some t ↦ elim t.shape [ Shape.tptp _ _ ↦ none | _ ↦ some (record { x = t.x; y = t.y }) ]
]

request_at : Device → String → Option Point → Request
unfolding candidate
request_at d link_id none = Request.fail
request_at d link_id (some p) = Request.near (candidate d p link_id none)

-- A link with turnpoints, in `arrange_interfaces_dev2tp`
unfoldable pub near_tp : Device → String → String → Request
unfolding neighbour first_tp beside_device request_at
near_tp d int link_id = elim (get link_id d.connections) [
  | none ↦ Request.idle
  | some c ↦ elim (neighbour c d.id int) [
    | none ↦ Request.fail
    | some _ ↦ if length c.legs == 1 then Request.idle else elim (first_tp d.id int c.legs) [
      | none ↦ Request.fail
      | some tp ↦ request_at d link_id (beside_device (get link_id d.tps) tp)
    ]
  ]
]

request_near : Device → String → String → Option Point → Request
unfolding candidate
request_near d link_id nei none = Request.fail
request_near d link_id nei (some p) = Request.near (candidate d p link_id (some nei))

-- A direct link, in `arrange_interfaces_dev2dev`
unfoldable pub near_dev : Device → String → String → Request
unfolding neighbour request_near
near_dev d int link_id = elim (get link_id d.connections) [
  | none ↦ Request.idle
  | some c ↦ elim (neighbour c d.id int) [
    | none ↦ Request.fail
    | some nei ↦
        if length c.legs == 1
        then elim (d.boxes nei.dev) [
          | none ↦ Request.fail
          | some b ↦ request_near d link_id nei.dev (
              target_point (frame_of d.int_half d.int_size d.box)
                (frame_of d.int_half d.int_size b))
        ]
        else Request.idle
  ]
]

-- The requests of an interface's links, up to the first error; `none` is an error.
unfoldable pub collect : (String → Request) → List String → Option (List Candidate)
collect f [] = some []
collect f (l ∷ ls) =
    let rest = collect f ls in
    elim (f l) [
      | Request.fail ↦ none
      | Request.idle ↦ rest
      | Request.near c ↦ elim rest [ none ↦ none | some cs ↦ some (c ∷ cs) ]
    ]

-- What an interface asks for: its closest candidate.
unfoldable pub closest_request : Option (List Candidate) → Request
closest_request none = Request.fail
closest_request (some cs) = elim (closest cs) [ none ↦ Request.idle | some c ↦ Request.near c ]

abbrev pub request_tp : Device → String → Request
request_tp d int = closest_request (collect (near_tp d int) (d.links int))

abbrev pub request_dev : Device → String → Request
request_dev d int = closest_request (collect (near_dev d int) (d.links int))
