-- ===== src/World/RoomTable.antt =====
-- The table of the rooms and of what connects them, from mp2/world.c.
use ece_391_fall.Prelude.{ℕ, Option, none, some, List, [], ◌∷◌}
use Prim.Native.String.{String}
use ece_391_fall.World.Rooms.{
  inventory, in_391lab, by_391lab, in_ieee, by_ieee, in_395lab, by_395lab, evt_stair, in_cleanr,
  by_cleanr, evrt_vend, almamater, in_cocomr, by_cocomr, by_zas, east_evrt, evrt_bsmt, west_bone,
  circle_n, circle_sw, east_bone, bardeen, lib_back, reserve, talbot_nw, talbot_sw, talbot,
  springfld, caribou, kenney, dcl, lib_front, kenney_e, newmark, mntl_nw, mntl_sw, mntllobby,
  mntl_lab1, mntl_lab2, mntl_lab3, csl_view, csl_door, csl_lobby, csl_upper, csllounge, beck_lot,
  beckman, beck_door, becklobby, beck_mri, garage, car_site, allerton, fu_dogs, statue, sunsinger,
  willard, will_side, rem_plane, cockpit, over_will, air_rio, rem_ice, rem_lab,
}

pub record RoomData : Type 0 where
  pub id : ℕ
  pub name : String
  pub filename : String
  pub left : Option ℕ
  pub enter : Option ℕ
  pub right : Option ℕ

abbrev row : ℕ → String → String → Option ℕ → Option ℕ → Option ℕ → RoomData
row id name filename left enter right = record {
  id = id;
  name = name;
  filename = filename;
  left = left;
  enter = enter;
  right = right;
}

abbrev pub room_data : List RoomData
room_data =
    row inventory "Inventory" "images/backpack.photo" none none none
    ∷ row in_391lab "391 Lab" "images/391lab.photo" none (some by_391lab) none
    ∷ row by_391lab "Outside of 391" "images/outside391.photo" (some by_zas) (some in_391lab)
        (some by_ieee)
    ∷ row in_ieee "IEEE Office" "images/ieee.photo" none (some by_ieee) none
    ∷ row by_ieee "Outside IEEE" "images/byieee.photo" (some by_391lab) (some in_ieee)
        (some by_395lab)
    ∷ row in_395lab "395 Lab" "images/395lab.photo" none (some by_395lab) none
    ∷ row by_395lab "Outside of 395" "images/outside395.photo" (some by_ieee) none (some evt_stair)
    ∷ row evt_stair "Everitt Stairs" "images/evtstair.photo" (some by_395lab) (some east_evrt)
        (some by_cleanr)
    ∷ row in_cleanr "In Cleanroom" "images/cleanr.photo" none (some by_cleanr) none
    ∷ row by_cleanr "By the Cleanroom" "images/outclean.photo" (some evt_stair) none
        (some evrt_vend)
    ∷ row evrt_vend "Vending Machine" "images/vend.photo" (some by_cleanr) (some evrt_bsmt) none
    ∷ row almamater "Alma Mater" "images/almamater.photo" (some east_evrt) (some east_evrt)
        (some by_cocomr)
    ∷ row in_cocomr "Cocomero" "images/incoco.photo" none (some by_cocomr) none
    ∷ row by_cocomr "Near Cocomero" "images/bycoco.photo" (some almamater) (some in_cocomr)
        (some by_zas)
    ∷ row by_zas "The Ruins" "images/ruins.photo" (some by_cocomr) none none
    ∷ row east_evrt "East of Everitt" "images/eeast.photo" (some almamater) (some evt_stair)
        (some evrt_bsmt)
    ∷ row evrt_bsmt "Basement Entry" "images/basement.photo" (some east_evrt) (some evrt_vend)
        (some circle_sw)
    ∷ row west_bone "Boneyard Creek" "images/bonew.photo" (some circle_sw) none (some circle_n)
    ∷ row circle_n "Boneyard Bridge" "images/circlen1.photo" (some west_bone) (some talbot_nw)
        (some east_bone)
    ∷ row circle_sw "Boneyard Bridge" "images/circlesw.photo" (some east_bone) (some evrt_bsmt)
        (some circle_n)
    ∷ row east_bone "Boneyard Creek" "images/bonee.photo" (some circle_n) none (some circle_sw)
    ∷ row bardeen "Bardeen Quad" "images/bardeen.photo" (some lib_back) (some east_bone)
        (some talbot_sw)
    ∷ row lib_back "Grainger Library" "images/graingerback.photo" (some dcl) (some reserve)
        (some bardeen)
    ∷ row reserve "Grainger Reserves" "images/reserve.photo" none (some lib_back) (some lib_front)
    ∷ row talbot_nw "Talbot Lab" "images/talbotnw.photo" (some circle_sw) (some talbot)
        (some talbot_sw)
    ∷ row talbot_sw "Talbot Lab" "images/talbotsw.photo" (some talbot_nw) (some talbot)
        (some springfld)
    ∷ row talbot "Talbot Lab" "images/talbot.photo" none (some talbot_nw) none
    ∷ row springfld "Springfield Avenue" "images/springfield.photo" (some talbot_sw) (some caribou)
        (some kenney)
    ∷ row caribou "Caribou" "images/caribou.photo" none (some springfld) none
    ∷ row kenney "Kenney Gym" "images/kenney.photo" (some springfld) none (some dcl)
    ∷ row dcl "DCL" "images/dcl.photo" (some kenney) (some kenney_e) (some lib_front)
    ∷ row lib_front "Grainger Library" "images/graingerfront.photo" (some dcl) (some reserve)
        (some talbot_sw)
    ∷ row kenney_e "East of Kenney" "images/kenneye.photo" (some dcl) (some dcl) (some newmark)
    ∷ row newmark "Newmark Lab" "images/newmark.photo" (some mntl_nw) none (some kenney_e)
    ∷ row mntl_nw "MNTL" "images/mntlnw.photo" (some newmark) (some mntllobby) (some csl_view)
    ∷ row mntl_sw "MNTL" "images/mntlsw.photo" (some mntl_nw) (some mntllobby) (some beckman)
    ∷ row mntllobby "Lobby of MNTL" "images/mntllobby.photo" (some mntl_lab1) (some mntl_sw)
        (some mntl_lab2)
    ∷ row mntl_lab1 "Kevin's Lab in MNTL" "images/mntllab1.photo" none none (some mntllobby)
    ∷ row mntl_lab2 "MNTL Laser Lab" "images/mntllab2.photo" (some mntllobby) (some mntl_lab3) none
    ∷ row mntl_lab3 "MNTL Laser Lab" "images/mntllab3.photo" none (some mntl_lab2) none
    ∷ row csl_view "CSL" "images/csl.photo" (some beck_lot) (some csl_door) (some mntl_nw)
    ∷ row csl_door "CSL Main Entrance" "images/csldoor.photo" (some beck_lot) none (some mntl_nw)
    ∷ row csl_lobby "CSL Lobby" "images/csllobby.photo" (some csl_upper) (some csl_door) none
    ∷ row csl_upper "Upper Floor of CSL" "images/cslupper.photo" none (some csllounge)
        (some csl_lobby)
    ∷ row csllounge "CSL Lounge" "images/csllounge.photo" none (some csl_upper) none
    ∷ row beck_lot "Beckman Circle Lot" "images/becklot.photo" (some beckman) (some garage)
        (some csl_view)
    ∷ row beckman "Beckman Institute" "images/beckman.photo" (some mntl_sw) (some beck_door)
        (some beck_lot)
    ∷ row beck_door "Beckman Institute" "images/beckdoor.photo" (some mntl_sw) none (some beck_lot)
    ∷ row becklobby "Beckman Lobby" "images/becklobby.photo" none (some beck_mri) (some beck_door)
    ∷ row beck_mri "An MRI Lab" "images/beckmri.photo" none (some becklobby) none
    ∷ row garage "Campus Parking" "images/garage.photo" (some beck_lot) (some car_site) none
    ∷ row car_site "Use Someone's Car?" "images/carclosed.photo" none (some garage) none
    ∷ row allerton "Allerton Mansion" "images/allerton.photo" (some fu_dogs) none (some sunsinger)
    ∷ row fu_dogs "Fu Dog Statues" "images/fudogs.photo" none (some statue) (some allerton)
    ∷ row statue "A Tall Statue" "images/statue.photo" none (some fu_dogs) none
    ∷ row sunsinger "The Sun Singer" "images/sunsinger.photo" (some allerton) none none
    ∷ row willard "Willard Airport" "images/willard.photo" none (some will_side) none
    ∷ row will_side "Willard Tower" "images/willardside.photo" (some rem_plane) none (some willard)
    ∷ row rem_plane "Sensor-Laden Plane" "images/rsenseplane.photo" (some cockpit) none
        (some will_side)
    ∷ row cockpit "Plane Cockpit" "images/cockpit.photo" none none (some rem_plane)
    ∷ row over_will "Flying over Willard" "images/overwillard.photo" none (some cockpit)
        (some air_rio)
    ∷ row air_rio "Rio de Janeiro" "images/riofromair.photo" (some over_will) none (some rem_ice)
    ∷ row rem_ice "Ice Fields" "images/rsenseice.photo" (some air_rio) (some rem_lab) none
    ∷ row rem_lab "Remote Sensing Lab" "images/rsenselab.photo" none (some rem_ice) none
    ∷ []
