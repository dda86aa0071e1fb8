-- ===== src/Obd/Usb/Banner.antt =====
-- Identifying the adapter by its banner (pkg/obd/usb.go: initELM).
pub mod Laws
use mechmind.Obd.Usb.Command.{command}
use mechmind.Obd.Usb.Init.{reopen_after_usb_reset, wake, configure_elm, not_elm}
use mechmind.Obd.Elm.{clip_log, looks_like_elm}
use mechmind.Obd.Usb.Err.{is_port_dead, wrap, Err}
use mechmind.Obd.Usb.State.{on_stuck, in_world, ◌>>=◌, report, pure, or_return, ◌>>◌, M}
use mechmind.Base.{ℕ, zero, suc, ◌+◌, ◌||◌, Option, none, some, [], ◌++◌, if◌then◌else◌}
use mechmind.Text.{codes, Text}
use mechmind.Obd.Usb.Line.{caller, Line}

-- The loop over ATI returns from `initELM`, or goes on with the last answer and its error.
pub data Probe : Type 0 where
  leave : Err → Probe
  go : Text → Option Err → Probe

-- The error of an adapter that answered ATI, ATWS and ATZ with no banner.
pub no_banner : (Text → Text) → Text → Option Err → Option Err → Option Err → Err
no_banner quote answer (some zerr) werr err = wrap (codes "ATZ: ") zerr []
no_banner quote answer none (some werr) err = wrap (codes "ATWS: ") werr []
no_banner quote answer none none (some err) = wrap (codes "ATI: ") err []
no_banner quote answer none none none = not_elm [] quote answer

module _ (L : Line) (quote : Text → Text) where
  open L use {sleep}

  -- One round of the loop, with the rounds that are left behind it.
  unfoldable pub ati_from : ℕ → M L Probe
  ati_from zero = do
    report (codes "Adapter ATI")
    a ← command L caller (codes "ATI")
    on_stuck a.1 leave (pure (go a.0 a.1))
  ati_from (suc rounds) = do
    report (codes "Adapter ATI")
    a ← command L caller (codes "ATI")
    let again : M L Probe = do
      report (codes "ATI quiet, retrying")
      e ← in_world (sleep 400)
      or_return e leave (do ignored ← wake L quote; ati_from rounds)
    on_stuck a.1 leave (if looks_like_elm a.0 then pure (go a.0 a.1) else again)

  conclude : Text → Option Err → M L (Option Err)
  conclude id err =
      or_return err (λ e. some (wrap (codes "ATI: ") e []))
        (do report (codes "ELM identified: " ++ clip_log id 60); configure_elm L quote)

  try_atz : Option Err → Option Err → M L (Option Err)
  unfolding conclude
  try_atz err werr = do
    report (codes "No ELM banner after ATWS — trying ATZ")
    z ← command L caller (codes "ATZ")
    on_stuck z.1 some (
        if looks_like_elm z.0
        then conclude z.0 none
        else if is_port_dead z.1 || is_port_dead err || is_port_dead werr
        then reopen_after_usb_reset L quote
        else pure (some (no_banner quote z.0 z.1 werr err)))

  try_atws : Option Err → M L (Option Err)
  unfolding conclude try_atz
  try_atws err = do
    report (codes "No ELM banner from ATI — warm start")
    w ← command L caller (codes "ATWS")
    on_stuck w.1 some (if looks_like_elm w.0 then conclude w.0 none else try_atz err w.1)

  judge : Probe → M L (Option Err)
  unfolding conclude try_atws
  judge (leave e) = pure (some e)
  judge (go id err) = if looks_like_elm id then conclude id err else try_atws err

  unfoldable pub init_elm : M L (Option Err)
  unfolding judge ati_from
  init_elm = do
    report (codes "Waking adapter")
    e ← wake L quote
    or_return e some (do e ← in_world (sleep 300); or_return e some (do a ← ati_from 2; judge a))
