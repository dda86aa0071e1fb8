-- ===== src/Obd/Usb/Command/Laws.antt =====
-- A command changes the world alone, and wants an open port.
use mechmind.Obd.Usb.Err.{not_open}
use mechmind.Obd.Usb.Command.{exchange, command, command_on}
use mechmind.Obd.Usb.State.Keeps.{
  Keeps-in_world, Keeps-pure, Keeps-gets, Keeps-change_world, Keeps-or_return, Keeps-bind, Keeps,
  IsBlind,
}
use mechmind.Obd.Usb.State.{◌>>=◌, Usb}
use mechmind.Base.{◌≡◌, Option, none, some, []}
use mechmind.Text.{Text}
use mechmind.Obd.Usb.Line.{Context, Line}

module _ {L : Line} {P : Usb L → Type 0} (b : IsBlind P) where
  exchange-Keeps : (p : L.Port) (ctx : Context) (cmd : Text) → Keeps P (exchange L p ctx cmd)
  unfolding exchange
  exchange-Keeps p ctx cmd =
      Keeps-bind (Keeps-change_world _ b) λ x. Keeps-bind (Keeps-in_world _ b) λ s. Keeps-pure _

  command_on-Keeps :
      (p : Option L.Port) (ctx : Context) (cmd : Text) → Keeps P (command_on L p ctx cmd)
  unfolding command_on
  command_on-Keeps none ctx cmd = Keeps-pure _
  command_on-Keeps (some p) ctx cmd =
      Keeps-bind (Keeps-change_world _ b)
        λ x. Keeps-bind (Keeps-in_world _ b) λ e. Keeps-or_return e _ (exchange-Keeps p ctx cmd)

  -- What holds of the driver's own fields holds after a command.
  pub command-Keeps : (ctx : Context) (cmd : Text) → Keeps P (command L ctx cmd)
  unfolding command
  command-Keeps ctx cmd = Keeps-bind (Keeps-gets _) λ p. command_on-Keeps p ctx cmd

module _ {L : Line} where
  -- On an adapter that is not open a command fails and does nothing.
  pub command_closed :
      (ctx : Context) (cmd : Text) (u : Usb L)
      → u.port ≡ none
      → command L ctx cmd u ≡ (([], some not_open), u)
  unfolding command ◌>>=◌
  command_closed ctx cmd u closed = rw (closed, command_on)
