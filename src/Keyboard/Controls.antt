-- ===== src/Keyboard/Controls.antt =====
-- The key codes of include/sys/kb.h for the keypad and for keys that are no character.
use course_project_os_integr.Base.{ℕ}

abbrev pub key_escape : ℕ
key_escape = 0x1001

abbrev pub key_up : ℕ
key_up = 0x1100

abbrev pub key_down : ℕ
key_down = 0x1101

abbrev pub key_left : ℕ
key_left = 0x1102

abbrev pub key_right : ℕ
key_right = 0x1103

abbrev pub key_f1 : ℕ
key_f1 = 0x1201

abbrev pub key_f2 : ℕ
key_f2 = 0x1202

abbrev pub key_f3 : ℕ
key_f3 = 0x1203

abbrev pub key_f4 : ℕ
key_f4 = 0x1204

abbrev pub key_f5 : ℕ
key_f5 = 0x1205

abbrev pub key_f6 : ℕ
key_f6 = 0x1206

abbrev pub key_f7 : ℕ
key_f7 = 0x1207

abbrev pub key_f8 : ℕ
key_f8 = 0x1208

abbrev pub key_f9 : ℕ
key_f9 = 0x1209

abbrev pub key_f10 : ℕ
key_f10 = 0x120a

abbrev pub key_f11 : ℕ
key_f11 = 0x120b

abbrev pub key_f12 : ℕ
key_f12 = 0x120b

abbrev pub key_f13 : ℕ
key_f13 = 0x120c

abbrev pub key_f14 : ℕ
key_f14 = 0x120d

abbrev pub key_f15 : ℕ
key_f15 = 0x120e

abbrev pub key_kp_0 : ℕ
key_kp_0 = 48

abbrev pub key_kp_1 : ℕ
key_kp_1 = 49

abbrev pub key_kp_2 : ℕ
key_kp_2 = 50

abbrev pub key_kp_3 : ℕ
key_kp_3 = 51

abbrev pub key_kp_4 : ℕ
key_kp_4 = 52

abbrev pub key_kp_5 : ℕ
key_kp_5 = 53

abbrev pub key_kp_6 : ℕ
key_kp_6 = 54

abbrev pub key_kp_7 : ℕ
key_kp_7 = 55

abbrev pub key_kp_8 : ℕ
key_kp_8 = 56

abbrev pub key_kp_9 : ℕ
key_kp_9 = 57

abbrev pub key_kp_plus : ℕ
key_kp_plus = 43

abbrev pub key_kp_minus : ℕ
key_kp_minus = 45

abbrev pub key_kp_decimal : ℕ
key_kp_decimal = 46

abbrev pub key_kp_divide : ℕ
key_kp_divide = 47

abbrev pub key_kp_asterisk : ℕ
key_kp_asterisk = 42

abbrev pub key_kp_numlock : ℕ
key_kp_numlock = 0x300f

abbrev pub key_kp_enter : ℕ
key_kp_enter = 0x3010

abbrev pub key_tab : ℕ
key_tab = 0x4000

abbrev pub key_capslock : ℕ
key_capslock = 0x4001

abbrev pub key_lshift : ℕ
key_lshift = 0x4002

abbrev pub key_lctrl : ℕ
key_lctrl = 0x4003

abbrev pub key_lalt : ℕ
key_lalt = 0x4004

abbrev pub key_lwin : ℕ
key_lwin = 0x4005

abbrev pub key_rshift : ℕ
key_rshift = 0x4006

abbrev pub key_rctrl : ℕ
key_rctrl = 0x4007

abbrev pub key_ralt : ℕ
key_ralt = 0x4008

abbrev pub key_rwin : ℕ
key_rwin = 0x4009

abbrev pub key_insert : ℕ
key_insert = 0x400a

abbrev pub key_delete : ℕ
key_delete = 0x400b

abbrev pub key_home : ℕ
key_home = 0x400c

abbrev pub key_end : ℕ
key_end = 0x400d

abbrev pub key_pageup : ℕ
key_pageup = 0x400e

abbrev pub key_pagedown : ℕ
key_pagedown = 0x400f

abbrev pub key_scrolllock : ℕ
key_scrolllock = 0x4010

abbrev pub key_pause : ℕ
key_pause = 0x4011

abbrev pub key_unknown : ℕ
key_unknown = 16402

abbrev pub key_numkeycodes : ℕ
key_numkeycodes = 16403
