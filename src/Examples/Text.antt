-- ===== src/Examples/Text.antt =====
-- Examples for strings and numbers.
use course_project_os_integr.Base.{◌≡◌, some, arith, ◌>>=◌}
use course_project_os_integr.CString.{my_atoi, my_atool, convert}
use course_project_os_integr.CString.Convert.{my_atoi-convert}

my_atoi-convert_example :
    ((convert 4095 10 >>= my_atoi) ≡ some 4095) × ((convert 4095 8 >>= my_atool) ≡ some 4095)
my_atoi-convert_example = my_atoi-convert 4095 (omega arith)
