-- ===== src/Obd/Usb/Live.antt =====
-- The sampling of live data (pkg/obd/pids.go: ReadLiveSnapshot).
use mechmind.Obd.Usb.Command.{command}
use mechmind.Obd.Usb.Err.{Err}
use mechmind.Base.{is_some, Bool, ◌||◌, Option, none, some, List, [], ◌∷◌, if◌then◌else◌}
use mechmind.Base.Float.{Floats}
use mechmind.Text.{codes, text_eq, to_upper, contains, Text}
use mechmind.Obd.Types.{LiveSnapshot}
use mechmind.Obd.Pids.{
  decode_voltage, decode_o2, decode_trim, decode_maf, decode_temp, decode_pct, decode_byte,
  decode_rpm,
}
use mechmind.Obd.Usb.Line.{caller, Line}
use mechmind.Obd.Usb.State.{or_return, M, ◌>>=◌, pure, gets}
use mechmind.Obd.Usb.Open.{ensure_open}

module _ (R : Floats) where
  open R use {F, dec}

  abbrev pub no_samples : LiveSnapshot F
  no_samples = record {
    rpm = none;
    speed_kmh = none;
    load_pct = none;
    coolant_c = none;
    iat_c = none;
    maf_gs = none;
    map_kpa = none;
    tps_pct = none;
    stft_b1_pct = none;
    ltft_b1_pct = none;
    stft_b2_pct = none;
    ltft_b2_pct = none;
    o2_b1s1_v = none;
    o2_b1s2_v = none;
    module_volts = none;
    fuel_sys_status = [];
  }

  abbrev Set : Type 0
  Set = Text → LiveSnapshot F → LiveSnapshot F

  -- The commands and what they set.
  unfoldable pub live_pids : List (Text × Set)
  unfolding decode_rpm decode_byte decode_pct decode_temp decode_maf decode_trim decode_o2
      decode_voltage
  live_pids =
      (codes "010C", λ r s. record s { rpm = decode_rpm R r })
      ∷ (codes "010D", λ r s. record s { speed_kmh = decode_byte R r (dec 1 0) })
      ∷ (codes "0104", λ r s. record s { load_pct = decode_pct R r })
      ∷ (codes "0105", λ r s. record s { coolant_c = decode_temp R r })
      ∷ (codes "010F", λ r s. record s { iat_c = decode_temp R r })
      ∷ (codes "0110", λ r s. record s { maf_gs = decode_maf R r })
      ∷ (codes "010B", λ r s. record s { map_kpa = decode_byte R r (dec 1 0) })
      ∷ (codes "0111", λ r s. record s { tps_pct = decode_pct R r })
      ∷ (codes "0106", λ r s. record s { stft_b1_pct = decode_trim R r })
      ∷ (codes "0107", λ r s. record s { ltft_b1_pct = decode_trim R r })
      ∷ (codes "0108", λ r s. record s { stft_b2_pct = decode_trim R r })
      ∷ (codes "0109", λ r s. record s { ltft_b2_pct = decode_trim R r })
      ∷ (codes "0114", λ r s. record s { o2_b1s1_v = decode_o2 R r })
      ∷ (codes "0115", λ r s. record s { o2_b1s2_v = decode_o2 R r })
      ∷ (codes "0142", λ r s. record s { module_volts = decode_voltage R r })
      ∷ []

  -- A response that sets nothing.
  unfoldable pub is_unusable : Text × Option Err → Bool
  unfolding contains to_upper text_eq
  is_unusable (resp, e) = is_some e || text_eq resp [] || contains (to_upper resp) (codes "NO DATA")

  module _ (L : Line) (quote : Text → Text) where
    -- The loop over the PIDs: a cancelled scan keeps what it has.
    unfoldable pub sample : List (Text × Set) → LiveSnapshot F → M L (LiveSnapshot F)
    unfolding is_unusable
    sample [] snap = pure snap
    sample ((cmd, set) ∷ pids) snap = do
      c ← gets (λ u. L.ctx_err u.world)
      or_return c (λ e. snap)
          (do r ← command L caller cmd; sample pids (if is_unusable r then snap else set r.0 snap))

    unfoldable pub read_live_snapshot : M L (Option (LiveSnapshot F) × Option Err)
    unfolding sample live_pids
    read_live_snapshot = do
      e ← ensure_open L quote
      or_return e (λ e. (none, some e))
          (do snap ← sample live_pids no_samples; pure (some snap, none))
