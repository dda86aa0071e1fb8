-- ===== src/Obd/Elm/Clip.antt =====
-- Log lines are bounded.
use mechmind.Text.{codes, fields, join, Text}
use mechmind.Base.{take, length-append, length-take, ℕ, ◌+◌, ◌≤◌, ◌≡◌, refl, [], ◌∷◌, arith, length}
use mechmind.Obd.Elm.{clip_to, clip_log}

length-clip_to : (s : Text) (n : ℕ) → length (clip_to s n) ≤ n + 3
unfolding clip_to
length-clip_to s n =
    ground (arith, length-take n s, length-append (take n s) (0xE2 ∷ 0x80 ∷ 0xA6 ∷ []))

clip_log-clip_to : (s : Text) (n : ℕ) → clip_log s n ≡ clip_to (join (fields s) (codes " ")) n
unfolding clip_log
clip_log-clip_to s n = refl

-- A clipped line has at most `n` bytes and the three of an ellipsis.
length-clip_log : (s : Text) (n : ℕ) → length (clip_log s n) ≤ n + 3
length-clip_log s n = rw clip_log-clip_to (length-clip_to _ n)
