-- ===== src/Examples/Typing.antt =====
-- Examples for the keyboard and the screen.
use course_project_os_integr.Base.{not}
use course_project_os_integr.Base.{
  ℕ, ◌*◌, ◌≡◌, refl, true, false, some, List, [], ◌∷◌, arith, length-replicate, replicate,
}
use course_project_os_integr.Screen.{Screen, write_char}
use course_project_os_integr.Screen.Frame.{Keeps}
use course_project_os_integr.Screen.Rows.{IsOnScreen, write_char-IsOnScreen}
use course_project_os_integr.Keyboard.{Keyboard, end_read, keyboard_run}
use course_project_os_integr.Keyboard.Modifiers.{HeldAndLet, keyboard_run-balanced}
use course_project_os_integr.CString.{strlen_from}
use course_project_os_integr.Keyboard.Read.{NoNul, end_read-text}

-- The last cell of the text's last row is next.
abbrev at_the_end : Screen
at_the_end = record { memory = replicate 4000 0; video_memory = 3838; cursor = 0 }

at_the_end-IsOnScreen : IsOnScreen at_the_end
unfolding IsOnScreen
at_the_end-IsOnScreen = (omega arith, refl, omega (arith, length-replicate {A = ℕ} 4000 0))

write_char-IsOnScreen_example :
    (t : Screen) × (write_char 0x1F 65 at_the_end ≡ some t)
    × IsOnScreen t
    × Keeps (24 * 160) at_the_end.memory t.memory
write_char-IsOnScreen_example = write_char-IsOnScreen 0x1F 65 at_the_end at_the_end-IsOnScreen

-- A reader waits with an empty line.
abbrev waiting : Keyboard
waiting = record {
  shift = false;
  ctrl = false;
  caps = false;
  alt = false;
  reading = true;
  reading_finished = false;
  first_char = true;
  iobuff = 0 ∷ 0 ∷ 0 ∷ 0 ∷ [];
  io_buff = 0;
  screen = at_the_end;
}

-- The keys L and S.
abbrev keys : List ℕ
keys = 0x26 ∷ 0x1f ∷ []

abbrev nothing_beyond : ℕ → ℕ
nothing_beyond n = 0

keyboard_run-balanced_example :
    HeldAndLet nothing_beyond waiting 0x1d 0x9d (record waiting { ctrl = true }) waiting
    × HeldAndLet nothing_beyond waiting 0x2a 0xaa (record waiting { shift = true }) waiting
    × HeldAndLet nothing_beyond waiting 0x36 0xb6 (record waiting { shift = true }) waiting
    × HeldAndLet nothing_beyond waiting 0x38 0xb8 (record waiting { alt = true }) waiting
    × HeldAndLet nothing_beyond waiting 0x3a 0xba
        (record waiting { caps = not waiting.caps })
        (record waiting { caps = not waiting.caps })
    × (keyboard_run nothing_beyond (0x3a ∷ 0xba ∷ 0x3a ∷ 0xba ∷ []) waiting ≡ some waiting)
keyboard_run-balanced_example = keyboard_run-balanced nothing_beyond waiting refl refl refl

-- After "ls" the line's buffer keeps an old "t"; the caller's buffer had a longer text.
abbrev finished : Keyboard
finished = record waiting { iobuff = 108 ∷ 115 ∷ 13 ∷ 116 ∷ 0 ∷ [] }

plain_text : NoNul (108 ∷ 115 ∷ 13 ∷ 116 ∷ [])
unfolding NoNul
plain_text =
    ((λ e. omega arith), ((λ e. omega arith), ((λ e. omega arith), ((λ e. omega arith), tt))))

old_tail : strlen_from 4 (101 ∷ 0 ∷ []) ≡ some 5
unfolding strlen_from
old_tail = refl

end_read-text_example :
    end_read (97 ∷ 98 ∷ 99 ∷ 100 ∷ 101 ∷ 0 ∷ []) finished
    ≡ some (
      record finished { reading = false; reading_finished = true },
      108 ∷ 115 ∷ 13 ∷ 116 ∷ 101 ∷ 0 ∷ [],
      5,
    )
end_read-text_example =
    end_read-text (108 ∷ 115 ∷ 13 ∷ 116 ∷ []) [] (97 ∷ 98 ∷ 99 ∷ 100 ∷ []) (101 ∷ 0 ∷ []) 5 finished
      plain_text refl refl old_tail
