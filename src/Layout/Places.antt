-- ===== src/Layout/Places.antt =====
-- Where the point lies that an interface is drawn near to.
use mapper.Prelude.{◌≡◌, refl, Option, some, Bool, true, false, ◌&&◌, arith, if◌then◌else◌}
use mapper.Prelude.Int.{ℤ, pos, ◌+ℤ◌, ◌-ℤ◌, ◌≤ℤ◌, ltb_ℤ, leb_ℤ, +ℤ_parts, -ℤ_parts}
use mapper.Arrange.{Point}
use mapper.Layout.Target.{Frame, with_x, with_y, floor_half, common_middle, target_point}

-- The sides are in order.
pub record IsFrame (f : Frame) : Type 0 where
  pub across : f.left ≤ℤ f.right
  pub down : f.top ≤ℤ f.bottom

-- The point is in the frame, its sides included.
pub record Within (f : Frame) (p : Point) : Type 0 where
  pub left : f.left ≤ℤ p.x
  pub right : p.x ≤ℤ f.right
  pub top : f.top ≤ℤ p.y
  pub bottom : p.y ≤ℤ f.bottom

floor_half_lem : (n : ℤ) → pos 0 ≤ℤ n → (pos 0 ≤ℤ floor_half n) × (floor_half n ≤ℤ n)
unfolding floor_half
floor_half_lem n h = ground arith

middle_lem : (a b : ℤ) → a ≤ℤ b → (a ≤ℤ a +ℤ floor_half (b -ℤ a)) × (a +ℤ floor_half (b -ℤ a) ≤ℤ b)
middle_lem a b h =
    let d = b -ℤ a in
    let (p, q) = floor_half_lem d (omega (arith, -ℤ_parts b a)) in
    (
      omega (arith, +ℤ_parts a (floor_half d), -ℤ_parts b a),
      omega (arith, +ℤ_parts a (floor_half d), -ℤ_parts b a),
    )

above_both : (a c : ℤ) → (a ≤ℤ (if ltb_ℤ c a then a else c)) × (c ≤ℤ (if ltb_ℤ c a then a else c))
above_both a c = ground arith

below_both : (b d : ℤ) → ((if ltb_ℤ b d then b else d) ≤ℤ b) × ((if ltb_ℤ b d then b else d) ≤ℤ d)
below_both b d = ground arith

in_order :
    (a b c d : ℤ)
    → a ≤ℤ b
    → c ≤ℤ d
    → c ≤ℤ b
    → a ≤ℤ d
    → (if ltb_ℤ c a then a else c) ≤ℤ (if ltb_ℤ b d then b else d)
in_order a b c d p q r s = ground arith

-- What two sides that overlap have in common has a middle.
common_middle_lem :
    (a b c d : ℤ)
    → a ≤ℤ b
    → c ≤ℤ d
    → c ≤ℤ b
    → a ≤ℤ d
    → (m : ℤ) × (common_middle a b c d ≡ some m) × (a ≤ℤ m) × (m ≤ℤ b)
unfolding common_middle
common_middle_lem a b c d p q r s =
    let low : ℤ = if ltb_ℤ c a then a else c in
    let high : ℤ = if ltb_ℤ b d then b else d in
    let ordered : low ≤ℤ high = in_order a b c d p q r s in
    let test : ltb_ℤ high low ≡ false = ground (arith, ordered) in
    let (lo, hi) = middle_lem low high ordered in
    let (a_low, _) = above_both a c in
    let (high_b, _) = below_both b d in
    (
      low +ℤ floor_half (high -ℤ low),
      rw test refl,
      omega (arith, lo, a_low),
      omega (arith, hi, high_b),
    )

leb_le : (a b : ℤ) → leb_ℤ a b ≡ true → a ≤ℤ b
leb_le a b h = ground arith

Found : Frame → Option Point → Type 0
Found f o = (p : Point) × (o ≡ some p) × Within f p

module _ (from to : Frame) (f : IsFrame from) (t : IsFrame to) where
  corner :
      (x y : ℤ)
      → to.left ≤ℤ x
      → x ≤ℤ to.right
      → to.top ≤ℤ y
      → y ≤ℤ to.bottom
      → Found to (some (record { x = x; y = y }))
  unfolding Found
  corner x y p q r s =
      (record { x = x; y = y }, refl, record { left = p; right = q; top = r; bottom = s })

  beside_y :
      (x : ℤ)
      → to.left ≤ℤ x
      → x ≤ℤ to.right
      → from.top ≤ℤ to.bottom
      → to.top ≤ℤ from.bottom
      → Found to (with_y x (common_middle to.top to.bottom from.top from.bottom))
  unfolding Found
  beside_y x p q r s =
      let (m, e, lo, hi) =
        common_middle_lem to.top to.bottom from.top from.bottom t.down f.down r s in
      rw e (corner x m p q lo hi)

  beside_x :
      (y : ℤ)
      → to.top ≤ℤ y
      → y ≤ℤ to.bottom
      → from.left ≤ℤ to.right
      → to.left ≤ℤ from.right
      → Found to (with_x y (common_middle to.left to.right from.left from.right))
  unfolding Found
  beside_x y p q r s =
      let (m, e, lo, hi) =
        common_middle_lem to.left to.right from.left from.right t.across f.across r s in
      rw e (corner m y lo hi p q)

  middle : Found to (
      some (record {
        x = to.left +ℤ floor_half (to.right -ℤ to.left);
        y = to.top +ℤ floor_half (to.bottom -ℤ to.top);
      }))
  middle =
      let (a, b) = middle_lem to.left to.right t.across in
      let (c, d) = middle_lem to.top to.bottom t.down in corner _ _ a b c d

  choose :
      (b : Bool) (o o' : Option Point)
      → (b ≡ true → Found to o)
      → Found to o'
      → Found to (if b then o else o')
  choose true o o' h k = h refl
  choose false o o' h k = k

  -- The point that `target_point` finds for two frames with their sides in order exists, and lies in
  -- the neighbour's frame.
  pub target_point-Within : (p : Point) × (target_point from to ≡ some p) × Within to p
  unfolding target_point Found
  target_point-Within =
      let l = t.across in
      let d = t.down in
      let overlap_y : (x : Bool)
          → (x && leb_ℤ from.top to.bottom && leb_ℤ to.top from.bottom) ≡ true
          → (from.top ≤ℤ to.bottom) × (to.top ≤ℤ from.bottom) =
        λ x h. ground arith in
      let overlap_x : (x : Bool)
          → (x && leb_ℤ from.left to.right && leb_ℤ to.left from.right) ≡ true
          → (from.left ≤ℤ to.right) × (to.left ≤ℤ from.right) =
        λ x h. ground arith in
      choose _ _ _ (λ h. corner to.right to.bottom l (omega arith) d (omega arith))
        (choose _ _ _ (λ h. let (r, s) = overlap_y _ h in beside_y to.right l (omega arith) r s)
          (choose _ _ _ (λ h. corner to.right to.top l (omega arith) (omega arith) d)
            (choose _ _ _ (λ h. corner to.left to.bottom (omega arith) l d (omega arith))
              (choose _ _ _ (λ h. corner to.left to.top (omega arith) l (omega arith) d)
                (choose _ _ _
                  (λ h. let (r, s) = overlap_y _ h in beside_y to.left (omega arith) l r s)
                  (choose _ _ _
                    (λ h. let (r, s) = overlap_x _ h in beside_x to.bottom d (omega arith) r s)
                    (choose _ _ _
                      (λ h. let (r, s) = overlap_x _ h in beside_x to.top (omega arith) d r s)
                      middle)))))))

  -- When the neighbour lies to the left and below, with space between, the point is not the corner
  -- that is nearest but the middle of the neighbour.
  pub target_point_left_bottom :
      ltb_ℤ to.right from.left ≡ true
      → ltb_ℤ from.bottom to.top ≡ true
      → target_point from to
        ≡ some (record {
          x = to.left +ℤ floor_half (to.right -ℤ to.left);
          y = to.top +ℤ floor_half (to.bottom -ℤ to.top);
        })
  unfolding target_point
  target_point_left_bottom p q =
      let left : leb_ℤ to.right from.left ≡ true = ground arith in
      let not_above : leb_ℤ to.bottom from.top ≡ false = ground (arith, f.down, t.down) in
      let not_level : leb_ℤ to.top from.bottom ≡ false = ground arith in
      let not_before : ltb_ℤ to.top from.bottom ≡ false = ground arith in
      let not_right : leb_ℤ from.right to.left ≡ false = ground (arith, f.across, t.across) in
      let not_across : leb_ℤ from.left to.right ≡ false = ground arith in
      let low : leb_ℤ from.top to.bottom ≡ true = ground (arith, f.down, t.down) in
      let under : leb_ℤ from.bottom to.top ≡ true = ground arith in
      rw (left, not_above, low, not_level, not_before, not_right, under, not_across) refl
