-- ===== src/Layout/Target.antt =====
-- Which point of a neighbouring device an interface is drawn near to.
use mapper.Prelude.{ℕ, ◌/◌, Option, none, some, ◌&&◌, if◌then◌else◌}
use mapper.Prelude.Int.{ℤ, pos, negsuc, ◌+ℤ◌, ◌-ℤ◌, ltb_ℤ, leb_ℤ}
use mapper.Arrange.{Point}

-- The element of a device on the page, as the browser measures it.
pub record Box : Type 0 where
  pub corner : Point
  pub width : ℕ
  pub height : ℕ

unfoldable pub center_of : Box → Point
center_of b = record { x = b.corner.x +ℤ pos (b.width / 2); y = b.corner.y +ℤ pos (b.height / 2) }

abbrev pub corner_of : Box → Point
corner_of b = b.corner

-- The centers of the cells at the four sides
pub record Frame : Type 0 where
  pub left : ℤ
  pub top : ℤ
  pub right : ℤ
  pub bottom : ℤ

unfoldable pub frame_of : ℕ → ℕ → Box → Frame
frame_of int_half int_size b =
    let left = b.corner.x +ℤ pos int_half in
    let top = b.corner.y +ℤ pos int_half in
    record {
      left = left;
      top = top;
      right = left +ℤ pos b.width -ℤ pos int_size;
      bottom = top +ℤ pos b.height -ℤ pos int_size;
    }

-- `Math.floor(n / 2)`
unfoldable pub floor_half : ℤ → ℤ
floor_half (pos n) = pos (n / 2)
floor_half (negsuc n) = negsuc (n / 2)

abbrev max_ℤ : ℤ → ℤ → ℤ
max_ℤ a b = if ltb_ℤ b a then a else b

abbrev min_ℤ : ℤ → ℤ → ℤ
min_ℤ a b = if ltb_ℤ a b then a else b

-- The middle of what two sides have in common; `none` is an error, when that is nothing.
unfoldable pub common_middle : ℤ → ℤ → ℤ → ℤ → Option ℤ
unfolding floor_half
common_middle to_low to_high from_low from_high =
    let low = max_ℤ to_low from_low in
    let high = min_ℤ to_high from_high in
    if ltb_ℤ high low then none else some (low +ℤ floor_half (high -ℤ low))

abbrev pub with_y : ℤ → Option ℤ → Option Point
with_y x none = none
with_y x (some y) = some (record { x = x; y = y })

abbrev pub with_x : ℤ → Option ℤ → Option Point
with_x y none = none
with_x y (some x) = some (record { x = x; y = y })

-- The nine cases of where the neighbour `to` lies; `none` is an error, which ends the function.
unfoldable pub target_point : Frame → Frame → Option Point
unfolding common_middle floor_half
target_point from to =
    if leb_ℤ to.right from.left && leb_ℤ to.bottom from.top
    then some (record { x = to.right; y = to.bottom })
    else if leb_ℤ to.right from.left && leb_ℤ from.top to.bottom && leb_ℤ to.top from.bottom
    then with_y to.right (common_middle to.top to.bottom from.top from.bottom)
    else if leb_ℤ to.right from.left && ltb_ℤ to.top from.bottom
    then some (record { x = to.right; y = to.top })
    else if leb_ℤ from.right to.left && leb_ℤ to.bottom from.top
    then some (record { x = to.left; y = to.bottom })
    else if leb_ℤ from.right to.left && ltb_ℤ from.bottom to.top
    then some (record { x = to.left; y = to.top })
    else if leb_ℤ from.right to.left && leb_ℤ from.top to.bottom && leb_ℤ to.top from.bottom
    then with_y to.left (common_middle to.top to.bottom from.top from.bottom)
    else if leb_ℤ to.bottom from.top && leb_ℤ from.left to.right && leb_ℤ to.left from.right
    then with_x to.bottom (common_middle to.left to.right from.left from.right)
    else if leb_ℤ from.bottom to.top && leb_ℤ from.left to.right && leb_ℤ to.left from.right
    then with_x to.top (common_middle to.left to.right from.left from.right)
    else some (record {
      x = to.left +ℤ floor_half (to.right -ℤ to.left);
      y = to.top +ℤ floor_half (to.bottom -ℤ to.top);
    })
