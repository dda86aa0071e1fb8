-- ===== src/Obd/Usb/Line.antt =====
-- What the driver does not implement: the serial library, the clock, cancellation, sysfs and the
-- progress callback. They are parameters, with the state of the outside in `World`.
use mechmind.Base.Int.{ℤ}
use mechmind.Obd.Detect.{Identity}
use mechmind.Obd.Usb.Err.{Err}
use mechmind.Base.{ℕ, ◌+◌, ◌≤◌, ◌≡◌, Bool, Option, none, List}
use mechmind.Text.{Text}

-- What one `Port.Read` brought.
pub record Read : Type 0 where
  pub bytes : Text
  pub err : Option Err

-- Which case of the `select` in `command` was taken: the reader's result, or the end of the
-- command's time with the reader back within 250 ms, or with the reader still in the kernel.
pub data Ending : Type 0 where
  answered expired wedged : Ending

-- The reads that end before the command's context does, and the context's error afterwards.
pub record Session : Type 0 where
  pub reads : List Read
  pub ending : Ending
  pub ctx_error : Err

-- The result of `serial.Open` within 12 seconds.
pub data Opened (Port : Type 0) : Type 0 where
  opened : Port → Opened Port
  failed : Err → Opened Port
  timed_out : Opened Port

-- The caller's context, or a background context with a timeout in milliseconds.
pub data Context : Type 0 where
  caller : Context
  background : ℕ → Context

-- Calls on a port whose errors are ignored.
pub data Setting : Type 0 where
  reset_input reset_output raise_dtr raise_rts : Setting
  read_timeout : ℕ → Setting

pub record Line : Type 1 where
  pub World : Type 0
  pub Port : Type 0
  -- `ctx.Err()` of the caller's context.
  pub ctx_err : World → Option Err
  pub identity : Text → World → Identity
  -- `os.Stat` finds the device.
  pub present : Text → World → Bool
  -- Milliseconds.
  pub now : World → ℕ
  pub open_serial : Text → ℤ → World → Opened Port × World
  -- `closeSerialAsync`.
  pub close : Port → World → World
  pub set_mode : Port → ℤ → World → Option Err × World
  pub apply : Port → Setting → World → World
  pub write : Port → Text → World → Option Err × World
  pub session : Port → Context → ℕ → World → Session × World
  -- A `select` between `ctx.Done()` and `time.After`: the context's error, if it ended first.
  pub sleep : ℕ → World → Option Err × World
  pub report : Text → World → World
  -- A sleep that is not cut short takes its time.
  pub sleep-now : (ms : ℕ) (w : World) → (sleep ms w).0 ≡ none → now w + ms ≤ now (sleep ms w).1
