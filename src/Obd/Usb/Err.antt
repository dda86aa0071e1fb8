-- ===== src/Obd/Usb/Err.antt =====
-- Go errors as the driver looks at them: the text, and what `errors.Is` finds in the chain.
use mechmind.Base.{
  ℕ, ◌/◌, ◌%◌, ◌≡◌, refl, Bool, true, false, ◌||◌, Option, none, some, ◌++◌, ◌==◌, if◌then◌else◌,
}
use mechmind.Text.{to_lower, contains, codes, show_nat, Text}

pub record Err : Type 0 where
  pub message : Text
  pub is_stuck : Bool  -- errStuckSerial
  pub is_eof : Bool  -- io.EOF
  pub is_unsupported : Bool  -- ErrJ2534Unsupported

-- `fmt.Errorf` with no wrapped error.
abbrev pub plain : Text → Err
plain m = record { message = m; is_stuck = false; is_eof = false; is_unsupported = false }

-- `fmt.Errorf("pre%wpost", e)`.
abbrev pub wrap : Text → Err → Text → Err
wrap pre e post = record e { message = pre ++ e.message ++ post }

-- `isPortDead`; a nil error is `none`.
unfoldable pub is_port_dead : Option Err → Bool
unfolding contains to_lower
is_port_dead none = false
is_port_dead (some e) =
    let s = to_lower e.message in
    e.is_eof
    || contains s (codes "closed")
    || contains s (codes "disconnected")
    || contains s (codes "no such file")

abbrev pub is_stuck_error : Option Err → Bool
is_stuck_error none = false
is_stuck_error (some e) = e.is_stuck

-- "adapter not open".
pub not_open : Err
not_open = plain (codes "adapter not open")

-- Tenths of a second, as Go prints the durations of `commandWait`.
show_wait : ℕ → Text
unfolding show_nat
show_wait ms =
    let tenths = ms % 1000 / 100 in
    if tenths == 0
    then show_nat (ms / 1000) ++ codes "s"
    else show_nat (ms / 1000) ++ codes "." ++ show_nat tenths ++ codes "s"

no_prompt_text : Text → ℕ → Text
unfolding show_wait
no_prompt_text cmd wait = codes "no prompt for " ++ cmd ++ codes " within " ++ show_wait wait

pub no_prompt : Text → ℕ → Err
unfolding no_prompt_text
no_prompt cmd wait = plain (no_prompt_text cmd wait)

-- `errStuckSerial`, wrapped.
pub stuck : Text → ℕ → Err
unfolding no_prompt_text
stuck cmd wait = record {
  message = codes "serial read stuck in the kernel (Close would hang): " ++ no_prompt_text cmd wait;
  is_stuck = true;
  is_eof = false;
  is_unsupported = false;
}

pub adapter_error : Text → Err
adapter_error out = plain (codes "adapter error: " ++ out)

pub stuck-is_stuck : (cmd : Text) (wait : ℕ) → (stuck cmd wait).is_stuck ≡ true
unfolding stuck
stuck-is_stuck cmd wait = refl
