-- ===== src/Keyboard/Chars.antt =====
-- The key codes of include/sys/kb.h that are characters. `KEY_POUND`, whose value is outside ASCII, is
-- left out.
use course_project_os_integr.Base.{ℕ}

abbrev pub key_space : ℕ
key_space = 32

abbrev pub key_0 : ℕ
key_0 = 48

abbrev pub key_1 : ℕ
key_1 = 49

abbrev pub key_2 : ℕ
key_2 = 50

abbrev pub key_3 : ℕ
key_3 = 51

abbrev pub key_4 : ℕ
key_4 = 52

abbrev pub key_5 : ℕ
key_5 = 53

abbrev pub key_6 : ℕ
key_6 = 54

abbrev pub key_7 : ℕ
key_7 = 55

abbrev pub key_8 : ℕ
key_8 = 56

abbrev pub key_9 : ℕ
key_9 = 57

abbrev pub key_a : ℕ
key_a = 97

abbrev pub key_b : ℕ
key_b = 98

abbrev pub key_c : ℕ
key_c = 99

abbrev pub key_d : ℕ
key_d = 100

abbrev pub key_e : ℕ
key_e = 101

abbrev pub key_f : ℕ
key_f = 102

abbrev pub key_g : ℕ
key_g = 103

abbrev pub key_h : ℕ
key_h = 104

abbrev pub key_i : ℕ
key_i = 105

abbrev pub key_j : ℕ
key_j = 106

abbrev pub key_k : ℕ
key_k = 107

abbrev pub key_l : ℕ
key_l = 108

abbrev pub key_m : ℕ
key_m = 109

abbrev pub key_n : ℕ
key_n = 110

abbrev pub key_o : ℕ
key_o = 111

abbrev pub key_p : ℕ
key_p = 112

abbrev pub key_q : ℕ
key_q = 113

abbrev pub key_r : ℕ
key_r = 114

abbrev pub key_s : ℕ
key_s = 115

abbrev pub key_t : ℕ
key_t = 116

abbrev pub key_u : ℕ
key_u = 117

abbrev pub key_v : ℕ
key_v = 118

abbrev pub key_w : ℕ
key_w = 119

abbrev pub key_x : ℕ
key_x = 120

abbrev pub key_y : ℕ
key_y = 121

abbrev pub key_z : ℕ
key_z = 122

abbrev pub key_return : ℕ
key_return = 13

abbrev pub key_backspace : ℕ
key_backspace = 8

abbrev pub key_dot : ℕ
key_dot = 46

abbrev pub key_comma : ℕ
key_comma = 44

abbrev pub key_colon : ℕ
key_colon = 58

abbrev pub key_semicolon : ℕ
key_semicolon = 59

abbrev pub key_slash : ℕ
key_slash = 47

abbrev pub key_backslash : ℕ
key_backslash = 92

abbrev pub key_plus : ℕ
key_plus = 43

abbrev pub key_minus : ℕ
key_minus = 45

abbrev pub key_asterisk : ℕ
key_asterisk = 42

abbrev pub key_exclamation : ℕ
key_exclamation = 33

abbrev pub key_question : ℕ
key_question = 63

abbrev pub key_quotedouble : ℕ
key_quotedouble = 34

abbrev pub key_quote : ℕ
key_quote = 39

abbrev pub key_equal : ℕ
key_equal = 61

abbrev pub key_hash : ℕ
key_hash = 35

abbrev pub key_percent : ℕ
key_percent = 37

abbrev pub key_ampersand : ℕ
key_ampersand = 38

abbrev pub key_underscore : ℕ
key_underscore = 95

abbrev pub key_leftparenthesis : ℕ
key_leftparenthesis = 40

abbrev pub key_rightparenthesis : ℕ
key_rightparenthesis = 41

abbrev pub key_leftbracket : ℕ
key_leftbracket = 91

abbrev pub key_rightbracket : ℕ
key_rightbracket = 93

abbrev pub key_leftcurl : ℕ
key_leftcurl = 123

abbrev pub key_rightcurl : ℕ
key_rightcurl = 125

abbrev pub key_dollar : ℕ
key_dollar = 36

abbrev pub key_euro : ℕ
key_euro = 36

abbrev pub key_less : ℕ
key_less = 60

abbrev pub key_greater : ℕ
key_greater = 62

abbrev pub key_bar : ℕ
key_bar = 124

abbrev pub key_grave : ℕ
key_grave = 96

abbrev pub key_tilde : ℕ
key_tilde = 126

abbrev pub key_at : ℕ
key_at = 64

abbrev pub key_carret : ℕ
key_carret = 94
