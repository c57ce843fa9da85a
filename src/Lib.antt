-- ===== src/Lib.antt =====
-- A verification library for the map of network devices, map-broker/www/mapper.js.
--
-- The program is the front end of a system that scans a network (map-scanner), keeps what it found in
-- a database, and serves it to a browser (map-broker). The page shows the devices as boxes, their
-- interfaces as cells on the border of the box, and the links between them as lines. A user may put
-- turnpoints on a link, so that its line goes around other devices. The parts and their files:
--
-- Turnpoints.antt: `map_data["tps"][link_id]`, the turnpoints of one link. `insert_tp` is what `new_tp`
-- does to it, from the test of the leg's type to the call of `save_map`, and `erase_tp` is the same of
-- `remove_tp`. A turnpoint says what it stands between: two devices, a device and a turnpoint, or two
-- turnpoints. The specification is that the turnpoints of a link form one path between its two
-- devices (Turnpoints/Chain.antt, Route.antt), and the handlers insert into and remove from this path.
--
-- Connections.antt: `connections[link_id]["legs"]`, the segments of a link that are drawn, as
-- `build_connections` derives them from the turnpoints: one turn of the loop is `build_tp`. Its
-- interface to Turnpoints is the stored map of turnpoints and the type of a leg. Connections/Build.antt
-- has the loops around it, over the devices on the page, their interfaces and the links of Links, on
-- the site of L2 links; Connections/Routed.antt has the site "l3", with the lists of links that it keeps
-- for the interfaces.
--
-- Grid.antt: the box of a device. `grid_size` is the part of `add_device` that finds how many columns
-- and rows the box needs, `walk` the order in which `add_device` fills the border, and `all_slots` the
-- list of border cells that `arrange_interfaces_dev2tp` makes.
--
-- Arrange.antt: the choice of a free slot for an interface in `arrange_interfaces_dev2tp` and
-- `arrange_interfaces_dev2dev`, on the slots of Grid.
--
-- Layout.antt: these two functions as a whole, for one device. `near_tp` and `near_dev`, in
-- Layout/Requests.antt, say what a link asks for, `arrange_int` gives a slot to one interface, and
-- `relocate_int` is the last loop, over the interfaces without a link that is drawn. Layout/Target.antt has the nine cases of where a neighbour
-- lies. What the functions read of the rest of the program is the record `Device`: it is the
-- interface to Connections (the legs), to Turnpoints (the coordinates) and to Grid (rows and columns).
--
-- Links.antt: `wipe_l2_link` and `wipe_l2_link_by_dev_int`, on the links and on the lists of them that
-- the interfaces hold.
--
-- Sort.antt: `num_compare`, by which names of interfaces are sorted; `localeCompare` is a parameter,
-- and that it is an order of texts a hypothesis. Mac.antt: `parse_mac` and `format_mac`.
-- Drawn.antt: the first loop of `add_device`, which decides what is drawn of a device; the size of the box
-- in Grid is made of its counts.
-- Drawing.antt: `draw_connection` and `draw_line`, on the legs of Connections.
-- Selecting.antt: `device_click` and `select_down`, which has 65 calls at most above each other, as the
-- program counts.
-- Moving.antt: what `device_drag_stop` does to turnpoints when several devices are moved together.
-- Vlinks.antt: the virtual links that `vLinksWindow` adds to the links of Links.
--
-- Query.antt: `run_query` and `auth_check` of map-broker/www/mylib/js/myjslib.js.
--
-- Saving.antt: `save_map`, and the actions of map-broker/http-ajax.go that store maps. The handlers that
-- change the map and save it are in Saving/Operations.antt. Saving/Steps.antt puts page and server
-- together: a step is a change with its request, a request that is served, or an answer; requests are
-- served and answered in the order in which they were sent, and no request fails: the checks of the
-- server that a key, an id and a file are well formed are left out.
--
-- Offline.antt and below: `offline_query`, which answers the same queries from an exported copy of the
-- data. It uses Ipv4, Mac and the requests of Saving.
--
-- Format.antt: texts that are shown: `escapeHtml`, `ellipsed`, `wdhm`, `time_diff`, `lz`.
-- Tags.antt: `get_tag_path`, `get_tag_name` and `tag_compare` on the tree of tags; the counter of the
-- recursion is the program's own.
--
-- Ipv4.antt: the functions on addresses, masks and networks, on texts as Text.antt models them: lists
-- of character codes, with the decimal numbers and the groups of digits of regular expressions.
--
-- Prelude.antt has the shared names, with lists and numbers under Prelude/. Prelude/IntMap.antt is a
-- JavaScript object with array indices as keys, visited in ascending order, and Prelude/Obj.antt one
-- with other keys, visited in the order of insertion.
--
-- Numbers are natural numbers, or integers for coordinates. `>>> 0` is a remainder by 2 ^ 32. A field
-- of undefined that is read ends a handler with `thrown`. The search for a free number of a turnpoint
-- has one more step than there are turnpoints, and the loops of `grid_size` have as many steps as
-- there are interfaces to place and the name is high; both are proved to be enough.
--
-- What an interface asks for is collected before the closest is chosen, as in the program, and an error
-- of any link ends the function, whose state is then what was written before. A device on the page is
-- its position and size, which the browser measures.
--
-- What is not modelled: the page elements that the functions create, move and remove, and what the
-- browser measures; the windows, reports and graphs; the libraries under map-broker/www/lib; and the
-- services in Go, but for what Saving.antt says. Regular expressions of the search are a parameter.
pub mod Prelude
pub mod Text
pub mod Ipv4
pub mod Turnpoints
pub mod Connections
pub mod Drawing
pub mod Drawn
pub mod Format
pub mod Grid
pub mod Arrange
pub mod Layout
pub mod Links
pub mod Mac
pub mod Moving
pub mod Offline
pub mod Query
pub mod Saving
pub mod Selecting
pub mod Sort
pub mod Tags
pub mod Vlinks
