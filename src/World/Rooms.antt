-- ===== src/World/Rooms.antt =====
-- The rooms of mp2/world.c, by their index; the inventory is one of them.
use ece_391_fall.Prelude.{ℕ}

abbrev pub inventory : ℕ
inventory = 0

abbrev pub in_391lab : ℕ
in_391lab = 1

abbrev pub by_391lab : ℕ
by_391lab = 2

abbrev pub in_ieee : ℕ
in_ieee = 3

abbrev pub by_ieee : ℕ
by_ieee = 4

abbrev pub in_395lab : ℕ
in_395lab = 5

abbrev pub by_395lab : ℕ
by_395lab = 6

abbrev pub evt_stair : ℕ
evt_stair = 7

abbrev pub in_cleanr : ℕ
in_cleanr = 8

abbrev pub by_cleanr : ℕ
by_cleanr = 9

abbrev pub evrt_vend : ℕ
evrt_vend = 10

abbrev pub almamater : ℕ
almamater = 11

abbrev pub in_cocomr : ℕ
in_cocomr = 12

abbrev pub by_cocomr : ℕ
by_cocomr = 13

abbrev pub by_zas : ℕ
by_zas = 14

abbrev pub east_evrt : ℕ
east_evrt = 15

abbrev pub evrt_bsmt : ℕ
evrt_bsmt = 16

abbrev pub west_bone : ℕ
west_bone = 17

abbrev pub circle_n : ℕ
circle_n = 18

abbrev pub circle_sw : ℕ
circle_sw = 19

abbrev pub east_bone : ℕ
east_bone = 20

abbrev pub bardeen : ℕ
bardeen = 21

abbrev pub lib_back : ℕ
lib_back = 22

abbrev pub reserve : ℕ
reserve = 23

abbrev pub talbot_nw : ℕ
talbot_nw = 24

abbrev pub talbot_sw : ℕ
talbot_sw = 25

abbrev pub talbot : ℕ
talbot = 26

abbrev pub springfld : ℕ
springfld = 27

abbrev pub caribou : ℕ
caribou = 28

abbrev pub kenney : ℕ
kenney = 29

abbrev pub dcl : ℕ
dcl = 30

abbrev pub lib_front : ℕ
lib_front = 31

abbrev pub kenney_e : ℕ
kenney_e = 32

abbrev pub newmark : ℕ
newmark = 33

abbrev pub mntl_nw : ℕ
mntl_nw = 34

abbrev pub mntl_sw : ℕ
mntl_sw = 35

abbrev pub mntllobby : ℕ
mntllobby = 36

abbrev pub mntl_lab1 : ℕ
mntl_lab1 = 37

abbrev pub mntl_lab2 : ℕ
mntl_lab2 = 38

abbrev pub mntl_lab3 : ℕ
mntl_lab3 = 39

abbrev pub csl_view : ℕ
csl_view = 40

abbrev pub csl_door : ℕ
csl_door = 41

abbrev pub csl_lobby : ℕ
csl_lobby = 42

abbrev pub csl_upper : ℕ
csl_upper = 43

abbrev pub csllounge : ℕ
csllounge = 44

abbrev pub beck_lot : ℕ
beck_lot = 45

abbrev pub beckman : ℕ
beckman = 46

abbrev pub beck_door : ℕ
beck_door = 47

abbrev pub becklobby : ℕ
becklobby = 48

abbrev pub beck_mri : ℕ
beck_mri = 49

abbrev pub garage : ℕ
garage = 50

abbrev pub car_site : ℕ
car_site = 51

abbrev pub allerton : ℕ
allerton = 52

abbrev pub fu_dogs : ℕ
fu_dogs = 53

abbrev pub statue : ℕ
statue = 54

abbrev pub sunsinger : ℕ
sunsinger = 55

abbrev pub willard : ℕ
willard = 56

abbrev pub will_side : ℕ
will_side = 57

abbrev pub rem_plane : ℕ
rem_plane = 58

abbrev pub cockpit : ℕ
cockpit = 59

abbrev pub over_will : ℕ
over_will = 60

abbrev pub air_rio : ℕ
air_rio = 61

abbrev pub rem_ice : ℕ
rem_ice = 62

abbrev pub rem_lab : ℕ
rem_lab = 63
