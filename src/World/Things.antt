-- ===== src/World/Things.antt =====
-- The objects of mp2/world.c, by their index.
use ece_391_fall.Prelude.{ℕ}

abbrev pub board : ℕ
board = 0

abbrev pub jetpack : ℕ
jetpack = 1

abbrev pub tux : ℕ
tux = 2

abbrev pub mp2 : ℕ
mp2 = 3

abbrev pub book_c : ℕ
book_c = 4

abbrev pub book_wode : ℕ
book_wode = 5

abbrev pub gps_bad : ℕ
gps_bad = 6

abbrev pub gps_good : ℕ
gps_good = 7

abbrev pub gps_spec : ℕ
gps_spec = 8

abbrev pub bunnysuit : ℕ
bunnysuit = 9

abbrev pub batt_empty : ℕ
batt_empty = 10

abbrev pub batt_full : ℕ
batt_full = 11

abbrev pub batt_car : ℕ
batt_car = 12

abbrev pub mtn_dew : ℕ
mtn_dew = 13

abbrev pub fish : ℕ
fish = 14

abbrev pub icard : ℕ
icard = 15

abbrev pub car_key : ℕ
car_key = 16

abbrev pub robot_dead : ℕ
robot_dead = 17

abbrev pub robot_live : ℕ
robot_live = 18

abbrev pub mimo_card : ℕ
mimo_card = 19
