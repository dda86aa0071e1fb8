-- ===== src/Obd/Usb/Command.antt =====
-- One command on the line (pkg/obd/usb.go: command, readUntilPrompt).
pub mod Laws
use mechmind.Obd.Elm.{command_wait}
use mechmind.Obd.Usb.State.{or_return, in_world, gets, change_world, ◌>>◌, ◌>>=◌, pure, M}
use mechmind.Obd.Usb.Err.{adapter_error, stuck, not_open, no_prompt, Err, is_port_dead}
use mechmind.Base.{
  ◌+◌, Bool, false, ◌&&◌, ◌||◌, Option, none, some, List, [], ◌∷◌, ◌++◌, leb, if◌then◌else◌, length,
}
use mechmind.Text.{codes, to_upper, trim_space, contains, replace_all, Text}
use mechmind.Obd.Usb.Line.{
  wedged, expired, reset_input, read_timeout, answered, Read, Context, Ending, Session, Line,
}

dead_read : Option Err → Bool
unfolding is_port_dead
dead_read none = false
dead_read (some e) = e.is_eof || is_port_dead (some e)

-- The loop of `readUntilPrompt` over the reads of a session; `b` is the buffer.
unfoldable pub read_until_prompt : Err → Text → List Read → Text × Option Err
unfolding contains dead_read
read_until_prompt ctx_error b [] = (b, some ctx_error)
read_until_prompt ctx_error b (r ∷ reads) =
    let b' = b ++ r.bytes in
    let rest = read_until_prompt ctx_error b' reads in
    if leb 1 (length r.bytes) && contains b' (codes ">")
    then (b', none)
    else if dead_read r.err
    then if leb 1 (length b') then (b', none) else ([], r.err)
    else rest

-- The tail of `command`: the echo and the prompt go, and the answer is looked at.
unfoldable pub finish_command : Text → Text → Text × Option Err
unfolding replace_all trim_space to_upper contains
finish_command raw cmd =
    let out = trim_space (replace_all (replace_all raw cmd []) (codes ">") []) in
    let up = to_upper out in
    if contains up (codes "NO DATA")
    then (out, none)
    else if contains up (codes "UNABLE") || contains up (codes "ERROR")
    then (out, some (adapter_error out))
    else (out, none)

-- The two nested `select`s.
unfoldable pub settle : Ending → Text × Option Err → Text → Text × Option Err
unfolding finish_command
settle answered (s, some e) cmd = ([], some e)
settle answered (s, none) cmd = finish_command s cmd
settle expired ([], e) cmd = ([], some (no_prompt cmd (command_wait cmd)))
settle expired (c ∷ s, e) cmd = finish_command (c ∷ s) cmd
settle wedged (s, e) cmd = ([], some (stuck cmd (command_wait cmd)))

module _ (L : Line) where
  open L use {Port, apply, write, session}

  abbrev conclude : Session → Text → Text × Option Err
  conclude s cmd = settle s.ending (read_until_prompt s.ctx_error [] s.reads) cmd

  exchange : Port → Context → Text → M L (Text × Option Err)
  unfolding settle read_until_prompt
  exchange p ctx cmd = do
    change_world (apply p (read_timeout 120))
    s ← in_world (session p ctx (command_wait cmd))
    pure (conclude s cmd)

  command_on : Option Port → Context → Text → M L (Text × Option Err)
  unfolding exchange
  command_on none ctx cmd = pure ([], some not_open)
  command_on (some p) ctx cmd = do
    change_world (apply p reset_input)
    e ← in_world (write p (cmd ++ 13 ∷ []))
    or_return e (λ e. ([], some e)) (exchange p ctx cmd)

  unfoldable pub command : Context → Text → M L (Text × Option Err)
  unfolding command_on
  command ctx cmd = do p ← gets (λ u. u.port); command_on p ctx cmd
